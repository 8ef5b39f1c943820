-- ===== src/Document/Crdt/Merge.antt =====
-- `merge_payload` of src/document/crdt.rs: the laws of a replicated type, for each kind.
use grumpydb.Prelude.{
  ℕ, ◌^◌, ◌<◌, ◌≡◌, refl, subst, ap, ◌∙◌, arith, max, ◌++◌, ok, ◌>>=◌, eq→==, length, length-append,
  length-take, length-drop, drop, take, take_front, drop_front, slice, take-length, All-append,
  All-take, All-drop,
}
use grumpydb.Prelude.Bytes.{
  Bytes, IsByte, AreBytes, to_le_bytes, from_le_bytes, length-to_le_bytes, to_le_bytes-AreBytes,
  from_le_bytes-to_le_bytes, from_le_bytes-lt,
}
use grumpydb.Document.Value.{CrdtKind, g_counter, pn_counter, lww_set, or_set, mvr}
use grumpydb.Document.Crdt.{
  LwwSetPayload, OrSetPayload, MvrPayload, Json, decode_u64, decode_pn, decode_payload,
  encode_payload, join_lww, join_or, join_mvr, merge_json, merge_payload,
}
use grumpydb.Document.Crdt.Lattice.{Codec, merge_comm, merge_assoc, merge_absorb}
use grumpydb.Document.Crdt.Joins.{
  IsU64, IsPair, join_pair, IsLwwSet, IsOrSet, IsMvr, max-Semilattice, join_pair-Semilattice,
  join_lww-Semilattice, join_or-Semilattice, join_mvr-Semilattice,
}

-- JSON that is read back as it was written. What is read has sorted maps and sets, and `u64` numbers.
pub record IsLawful {P : Type 0} (Good : P → Type 0) (json : Json P) : Type 0 where
  pub sound : (b : Bytes) (x : P) → json.from_slice b ≡ ok x → Good x
  pub back : (x : P) → Good x → (b : Bytes) × (json.to_vec x ≡ ok b) × (json.from_slice b ≡ ok x)

abbrev pub AnyText : Bytes → Type 0
AnyText b = Unit {0}

json_codec :
    {P : Type 0} {Good : P → Type 0} (kind : CrdtKind) (json : Json P)
    → IsLawful Good json
    → Codec AnyText Good
unfolding decode_payload encode_payload
json_codec kind json lawful = record {
  dec = λ b. decode_payload json b kind;
  enc = λ x. encode_payload json x kind;
  good = λ b x a e. lawful.sound b x (ground arith);
  back = λ x g.
      let (b, one, two) = lawful.back x g in
      (b, rw (one, encode_payload) refl, rw (two, decode_payload) refl, tt);
}

u64_bound : (b : Bytes) → AreBytes b → length b ≡ 8 → from_le_bytes b < 2 ^ 64
u64_bound b a e = subst (λ (n : ℕ). from_le_bytes b < 256 ^ n) e (from_le_bytes-lt b a)

decode_u64_inv :
    (b : Bytes) (x : ℕ) → decode_u64 b g_counter ≡ ok x → (length b ≡ 8) × (from_le_bytes b ≡ x)
unfolding decode_u64
decode_u64_inv b x e = ground arith

decode_pn_inv :
    (b : Bytes) (x : ℕ × ℕ)
    → decode_pn b ≡ ok x
    → (length b ≡ 16) × (from_le_bytes (take 8 b) ≡ x.0) × (from_le_bytes (slice 8 8 b) ≡ x.1)
unfolding decode_pn
decode_pn_inv b x e = ground arith

decode_u64-to_le_bytes : (x : ℕ) → x < 2 ^ 64 → decode_u64 (to_le_bytes 8 x) g_counter ≡ ok x
unfolding decode_u64
decode_u64-to_le_bytes x h =
    rw (eq→== (length (to_le_bytes 8 x)) 8 (length-to_le_bytes 8 x))
      (ap ok (from_le_bytes-to_le_bytes 8 x h))

decode_pn-to_le_bytes :
    (x : ℕ × ℕ) → IsPair x → decode_pn (to_le_bytes 8 x.0 ++ to_le_bytes 8 x.1) ≡ ok x
unfolding decode_pn
decode_pn-to_le_bytes x h =
    let p = to_le_bytes 8 x.0 in
    let n = to_le_bytes 8 x.1 in
    let lp : length p ≡ 8 = length-to_le_bytes 8 x.0 in
    let ln : length n ≡ 8 = length-to_le_bytes 8 x.1 in
    let whole : length (p ++ n) ≡ 16 = omega (arith, length-append p n, lp, ln) in
    let second : slice 8 8 (p ++ n) ≡ n =
      ap (take 8) (drop_front 8 0 p n (omega (arith, lp)))
      ∙ subst (λ (k : ℕ). take k n ≡ n) ln (take-length n) in
    rw (eq→== (length (p ++ n)) 16 whole) (
      cc (
        ap from_le_bytes (take_front 8 p n lp) ∙ from_le_bytes-to_le_bytes 8 x.0 h.0,
        ap from_le_bytes second ∙ from_le_bytes-to_le_bytes 8 x.1 h.1,
      ))

counter_codec : Codec AreBytes IsU64
counter_codec = record {
  dec = λ b. decode_u64 b g_counter;
  enc = λ n. ok (to_le_bytes 8 n);
  good = λ b x a e. let (e8, f) = decode_u64_inv b x e in subst IsU64 f (u64_bound b a e8);
  back = λ x g. (to_le_bytes 8 x, refl, decode_u64-to_le_bytes x g, to_le_bytes-AreBytes 8 x);
}

pn_codec : Codec AreBytes IsPair
pn_codec = record {
  dec = λ b. decode_pn b;
  enc = λ p. ok (to_le_bytes 8 p.0 ++ to_le_bytes 8 p.1);
  good = λ b x a e.
      let (e16, f, g) = decode_pn_inv b x e in
      (
        subst IsU64 f
            (u64_bound (take 8 b) (All-take IsByte 8 b a) (length-take 8 b (omega (arith, e16)))),
        subst IsU64 g (
            u64_bound (slice 8 8 b) (All-take IsByte 8 (drop 8 b) (All-drop IsByte 8 b a))
              (length-take 8 (drop 8 b) (omega (arith, e16, length-drop 8 b)))),
      );
  back = λ x g. (
    to_le_bytes 8 x.0 ++ to_le_bytes 8 x.1,
    refl,
    decode_pn-to_le_bytes x g,
    All-append IsByte (to_le_bytes 8 x.0) (to_le_bytes 8 x.1) (to_le_bytes-AreBytes 8 x.0)
        (to_le_bytes-AreBytes 8 x.1),
  );
}

module _ (lww_json : Json LwwSetPayload) (or_json : Json OrSetPayload)
    (mvr_json : Json MvrPayload) where
  -- A payload that is decoded.
  abbrev pub IsPayload : CrdtKind → Bytes → Type 0
  IsPayload g_counter b = AreBytes b × ((x : ℕ) × (decode_u64 b g_counter ≡ ok x))
  IsPayload pn_counter b = AreBytes b × ((x : ℕ × ℕ) × (decode_pn b ≡ ok x))
  IsPayload lww_set b =
      AnyText b × ((x : LwwSetPayload) × (decode_payload lww_json b lww_set ≡ ok x))
  IsPayload or_set b = AnyText b × ((x : OrSetPayload) × (decode_payload or_json b or_set ≡ ok x))
  IsPayload mvr b = AnyText b × ((x : MvrPayload) × (decode_payload mvr_json b mvr ≡ ok x))

  module _ (lww_laws : IsLawful IsLwwSet lww_json) (or_laws : IsLawful IsOrSet or_json)
      (mvr_laws : IsLawful IsMvr mvr_json) where
    -- The merge of two payloads that are decoded does not depend on their order, whatever their kind.
    -- The JSON is read back as it was written.
    pub merge_payload_comm :
        (kind : CrdtKind) (l r : Bytes)
        → IsPayload kind l
        → IsPayload kind r
        → merge_payload lww_json or_json mvr_json kind l r
          ≡ merge_payload lww_json or_json mvr_json kind r l
    unfolding merge_payload merge_json counter_codec pn_codec json_codec
    merge_payload_comm g_counter l r p q = merge_comm counter_codec max max-Semilattice l r p q
    merge_payload_comm pn_counter l r p q =
        merge_comm pn_codec join_pair join_pair-Semilattice l r p q
    merge_payload_comm lww_set l r p q =
        merge_comm (json_codec lww_set lww_json lww_laws) join_lww join_lww-Semilattice l r p q
    merge_payload_comm or_set l r p q =
        merge_comm (json_codec or_set or_json or_laws) join_or join_or-Semilattice l r p q
    merge_payload_comm mvr l r p q =
        merge_comm (json_codec mvr mvr_json mvr_laws) join_mvr join_mvr-Semilattice l r p q

    -- Three payloads that are decoded merge to the same in whichever grouping, whatever their kind. The
    -- JSON is read back as it was written.
    pub merge_payload_assoc :
        (kind : CrdtKind) (l r s : Bytes)
        → IsPayload kind l
        → IsPayload kind r
        → IsPayload kind s
        → (merge_payload lww_json or_json mvr_json kind l r >>= λ m.
            merge_payload lww_json or_json mvr_json kind m s)
          ≡ (merge_payload lww_json or_json mvr_json kind r s >>= λ m.
              merge_payload lww_json or_json mvr_json kind l m)
    unfolding merge_payload merge_json counter_codec pn_codec json_codec
    merge_payload_assoc g_counter l r s p q t =
        merge_assoc counter_codec max max-Semilattice l r s p q t
    merge_payload_assoc pn_counter l r s p q t =
        merge_assoc pn_codec join_pair join_pair-Semilattice l r s p q t
    merge_payload_assoc lww_set l r s p q t =
        merge_assoc (json_codec lww_set lww_json lww_laws) join_lww join_lww-Semilattice l r s p q t
    merge_payload_assoc or_set l r s p q t =
        merge_assoc (json_codec or_set or_json or_laws) join_or join_or-Semilattice l r s p q t
    merge_payload_assoc mvr l r s p q t =
        merge_assoc (json_codec mvr mvr_json mvr_laws) join_mvr join_mvr-Semilattice l r s p q t

    -- Two payloads that are decoded are merged without an error, and merging either of them into the
    -- result again gives the result, whatever their kind. The JSON is read back as it was written.
    pub merge_payload_absorb :
        (kind : CrdtKind) (l r : Bytes)
        → IsPayload kind l
        → IsPayload kind r
        → (m : Bytes) × (merge_payload lww_json or_json mvr_json kind l r ≡ ok m)
          × (merge_payload lww_json or_json mvr_json kind m r ≡ ok m)
          × (merge_payload lww_json or_json mvr_json kind m l ≡ ok m)
    unfolding merge_payload merge_json counter_codec pn_codec json_codec
    merge_payload_absorb g_counter l r p q = merge_absorb counter_codec max max-Semilattice l r p q
    merge_payload_absorb pn_counter l r p q =
        merge_absorb pn_codec join_pair join_pair-Semilattice l r p q
    merge_payload_absorb lww_set l r p q =
        merge_absorb (json_codec lww_set lww_json lww_laws) join_lww join_lww-Semilattice l r p q
    merge_payload_absorb or_set l r p q =
        merge_absorb (json_codec or_set or_json or_laws) join_or join_or-Semilattice l r p q
    merge_payload_absorb mvr l r p q =
        merge_absorb (json_codec mvr mvr_json mvr_laws) join_mvr join_mvr-Semilattice l r p q
