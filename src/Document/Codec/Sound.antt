-- ===== src/Document/Codec/Sound.antt =====
-- What the reads of src/document/codec.rs give, whatever the bytes: the values that hold no other.
use grumpydb.Prelude.{
  ℕ, suc, ◌^◌, ◌≤◌, ◌<◌, ◌≡◌, refl, Bool, true, false, arith, ok, err, ◌>>=◌, ◌>>◌, require, ltb,
  leb, ltb→ge, [], ◌∷◌, Bool-cases, Option-cases, inl, inr, length, take, length-take, All-take,
  All-drop,
}
use mathlib.Core.Path.{subst}
use grumpydb.Prelude.Bytes.{Bytes, IsByte, AreBytes, from_le_bytes, from_le_bytes-lt}
use grumpydb.Error.{
  Outcome, GrumpyError, codec, string_length, bytes_length, ref_length, vclock_length,
  payload_length,
}
use grumpydb.Document.Text.{is_utf8}
use grumpydb.Document.Value.{Value, CrdtKind, crdt, from_tag}
use grumpydb.Document.Codec.{
  max_ref_name_len, max_tombstone_vclock_len, max_crdt_payload_len, max_blob_len, read_u8,
  read_u32_le, read_i64_le, read_f64_le, read_hlc, read_bytes, read_string, decode_string,
  decode_bytes, decode_ref, decode_tombstone, decode_crdt,
}
use grumpydb.Document.Codec.Limits.{IsTyped, IsWithin, depth}

-- If the read returns, what it read satisfies `P` and what it left are bytes.
pub data Gives {A : Type 0} (P : A → Type 0) : Outcome (A × Bytes) → Type 0 where
  gives : {a : A} {c : Bytes} → P a → AreBytes c → Gives P (ok (a, c))
  fails : {e : GrumpyError} → Gives P (err e)

module _ {A B : Type 0} {P : A → Type 0} {Q : B → Type 0} where
  pub Gives-bind :
      {r : Outcome (A × Bytes)} {f : A → Bytes → Outcome (B × Bytes)}
      → Gives P r
      → ((a : A) (c : Bytes) → P a → AreBytes c → Gives Q (f a c))
      → Gives Q (r >>= λ x. f x.0 x.1)
  Gives-bind (gives {a = a} {c = c} p b) k = k a c p b
  Gives-bind fails k = fails

module _ {A : Type 0} {P : A → Type 0} where
  pub Gives-require :
      (b : Bool) (e : GrumpyError) {r : Outcome (A × Bytes)}
      → (b ≡ true → Gives P r)
      → Gives P (require b e >> r)
  Gives-require true e k = k refl
  Gives-require false e k = fails

  pub Gives-ok : {r : Outcome (A × Bytes)} (a : A) (c : Bytes) → Gives P r → r ≡ ok (a, c) → P a
  Gives-ok a c (gives p b) e = subst P (cc) p
  Gives-ok a c fails e = cc

-- A number read off `w` bytes.
at_width : (w : ℕ) (c : Bytes) → AreBytes c → w ≤ length c → from_le_bytes (take w c) < 256 ^ w
at_width w c h e =
    let lt = from_le_bytes-lt (take w c) (All-take IsByte w c h) in rw (length-take w c e) at lt

pub zero-lt : (n : ℕ) → 0 < suc n
zero-lt n = omega arith

pub leb→le : (a b : ℕ) → leb a b ≡ true → a ≤ b
leb→le a b h = ground arith

module _ (c : Bytes) (h : AreBytes c) where
  pub read_u32_le-Gives : Gives (λ n. n < 2 ^ 32) (read_u32_le c)
  unfolding read_u32_le
  read_u32_le-Gives = elim (Bool-cases (ltb (length c) 4)) [
    | inl short ↦ rw short fails
    | inr long ↦ rw long (gives (at_width 4 c h (ltb→ge _ _ long)) (All-drop IsByte 4 c h))
  ]

  pub read_i64_le-Gives : Gives (λ n. n < 2 ^ 64) (read_i64_le c)
  unfolding read_i64_le
  read_i64_le-Gives = elim (Bool-cases (ltb (length c) 8)) [
    | inl short ↦ rw short fails
    | inr long ↦ rw long (gives (at_width 8 c h (ltb→ge _ _ long)) (All-drop IsByte 8 c h))
  ]

  pub read_f64_le-Gives : Gives (λ n. n < 2 ^ 64) (read_f64_le c)
  unfolding read_f64_le
  read_f64_le-Gives = elim (Bool-cases (ltb (length c) 8)) [
    | inl short ↦ rw short fails
    | inr long ↦ rw long (gives (at_width 8 c h (ltb→ge _ _ long)) (All-drop IsByte 8 c h))
  ]

  read_hlc-Gives : Gives (λ n. n < 2 ^ 64) (read_hlc c)
  unfolding read_hlc
  read_hlc-Gives = elim (Bool-cases (ltb (length c) 8)) [
    | inl short ↦ rw short fails
    | inr long ↦ rw long (gives (at_width 8 c h (ltb→ge _ _ long)) (All-drop IsByte 8 c h))
  ]

  read_bytes-Gives : (len : ℕ) → Gives (λ b. length b ≡ len) (read_bytes len c)
  unfolding read_bytes
  read_bytes-Gives len = elim (Bool-cases (ltb (length c) len)) [
    | inl short ↦ rw short fails
    | inr long ↦ rw long (gives (length-take len c (ltb→ge _ _ long)) (All-drop IsByte len c h))
  ]

  pub read_string-Gives :
      (len : ℕ) → Gives (λ b. (length b ≡ len) × (is_utf8 b ≡ true)) (read_string len c)
  unfolding read_string
  read_string-Gives len =
      Gives-bind (read_bytes-Gives len) λ b c1 e h1. Gives-require _ _ λ u. gives (e, u) h1

-- A value of the type, within the limits on lengths, nested less than `n` deep.
abbrev pub IsGood : ℕ → Value → Type 0
IsGood n v = IsTyped v × IsWithin v × (depth v < n)

module _ (n : ℕ) (c : Bytes) (h : AreBytes c) where
  pub decode_string-Gives : Gives (IsGood (suc n)) (decode_string c)
  unfolding decode_string
  decode_string-Gives = Gives-bind (read_u32_le-Gives c h) λ len c1 _ h1.
      Gives-require (leb len max_blob_len) (codec (string_length len)) λ fits.
        Gives-bind (read_string-Gives c1 h1 len)
          λ s c2 p h2. gives (p.1, rw p.0 (leb→le _ _ fits), zero-lt n) h2

  pub decode_bytes-Gives : Gives (IsGood (suc n)) (decode_bytes c)
  unfolding decode_bytes
  decode_bytes-Gives = Gives-bind (read_u32_le-Gives c h) λ len c1 _ h1.
      Gives-require (leb len max_blob_len) (codec (bytes_length len)) λ fits.
        Gives-bind (read_bytes-Gives c1 h1 len)
          λ b c2 e h2. gives (tt, rw e (leb→le _ _ fits), zero-lt n) h2

  pub decode_ref-Gives : Gives (IsGood (suc n)) (decode_ref c)
  unfolding decode_ref
  decode_ref-Gives = Gives-bind (read_u32_le-Gives c h) λ len c1 _ h1.
      Gives-require (leb len max_ref_name_len) (codec (ref_length len)) λ fits.
        Gives-bind (read_string-Gives c1 h1 len) λ s c2 p h2.
          Gives-bind (read_bytes-Gives c2 h2 16)
            λ u c3 e h3. gives ((p.1, e), rw p.0 (leb→le _ _ fits), zero-lt n) h3

  pub decode_tombstone-Gives : Gives (IsGood (suc n)) (decode_tombstone c)
  unfolding decode_tombstone
  decode_tombstone-Gives = Gives-bind (read_hlc-Gives c h) λ t c1 small h1.
      Gives-bind (read_u32_le-Gives c1 h1) λ len c2 _ h2.
        Gives-require (leb len max_tombstone_vclock_len) (codec (vclock_length len)) λ fits.
          Gives-bind (read_bytes-Gives c2 h2 len)
            λ vc c3 e h3. gives (small, rw e (leb→le _ _ fits), zero-lt n) h3

  crdt_rest :
      (k : CrdtKind)
      → Gives (IsGood (suc n)) (do
        (len, c2) ← read_u32_le c
        require (leb len max_crdt_payload_len) (codec (payload_length len))
        (p, c3) ← read_bytes len c2
        ok (crdt k p, c3))
  crdt_rest k = Gives-bind (read_u32_le-Gives c h) λ len c2 _ h2.
      Gives-require (leb len max_crdt_payload_len) (codec (payload_length len)) λ fits.
        Gives-bind (read_bytes-Gives c2 h2 len)
          λ p c3 e h3. gives (tt, rw e (leb→le _ _ fits), zero-lt n) h3

pub decode_crdt-Gives : (n : ℕ) (c : Bytes) → AreBytes c → Gives (IsGood (suc n)) (decode_crdt c)
unfolding decode_crdt read_u8
decode_crdt-Gives n [] h = fails
decode_crdt-Gives n (tag ∷ c) h = elim (Option-cases (from_tag tag)) [
  | inl unknown ↦ rw unknown fails
  | inr (k, known) ↦ rw known (crdt_rest n c h.1 k)
]
