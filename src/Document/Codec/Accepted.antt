-- ===== src/Document/Codec/Accepted.antt =====
-- What `decode` of src/document/codec.rs accepts, whatever the bytes: arrays, objects and the whole.
use grumpydb.Prelude.{
  ℕ, zero, suc, ◌+◌, ◌≤◌, ◌<◌, ◌≡◌, Bool, true, false, arith, ok, ◌>>=◌, [], ◌∷◌, not, leb, ◌==◌,
  if◌then◌else◌,
}
use grumpydb.Prelude.Bytes.{Bytes, AreBytes}
use grumpydb.Prelude.Int.{to_i64-IsI64}
use grumpydb.Prelude.Order.{
  Ordering, less, same, more, Ordering-cases, cmp_bytes, bytes_lt, bytes_eq, bytes_trans,
}
use grumpydb.Error.{Outcome, codec, array_length, object_keys, key_length}
use grumpydb.Document.Text.{is_utf8}
use grumpydb.Document.Value.{
  Value, Items, Fields, bool, no_fields, field, count_items, count_fields, insert_field,
}
use grumpydb.Document.Codec.{
  max_blob_len, max_array_len, max_object_keys, max_nesting_depth, Read, read_u8, decode_items,
  decode_fields, decode_array, decode_object, decode_tagged, decode_recursive, decode_from_cursor,
}
use grumpydb.Document.Codec.Limits.{
  KeysAbove, IsTyped, AreTyped, AreTypedFields, IsWithin, AreWithin, AreWithinFields, depth,
  depth_items, depth_fields,
}
use grumpydb.Document.Codec.Sound.{
  Gives, gives, fails, Gives-bind, Gives-require, Gives-ok, IsGood, zero-lt, leb→le,
  read_u32_le-Gives, read_i64_le-Gives, read_f64_le-Gives, read_string-Gives, decode_string-Gives,
  decode_bytes-Gives, decode_ref-Gives, decode_tombstone-Gives, decode_crdt-Gives,
}

abbrev AreGood : ℕ → ℕ → Items → Type 0
AreGood n count xs = AreTyped xs × AreWithin xs × (depth_items xs ≤ n) × (count_items xs ≤ count)

abbrev AreGoodFields : ℕ → ℕ → Fields → Type 0
AreGoodFields n count fs =
    AreTypedFields fs × AreWithinFields fs × (depth_fields fs ≤ n) × (count_fields fs ≤ count)

KeysAbove-insert :
    (j k : Bytes) (v : Value) (m : Fields)
    → cmp_bytes j k ≡ Ordering.lt
    → KeysAbove j m
    → KeysAbove j (insert_field k v m)
unfolding insert_field
KeysAbove-insert j k v no_fields h a = (h, tt)
KeysAbove-insert j k v (field i w m) h a = ground (arith, KeysAbove-insert j k v m h a.1)

KeysAbove-trans :
    (j k : Bytes) (m : Fields) → cmp_bytes j k ≡ Ordering.lt → KeysAbove k m → KeysAbove j m
KeysAbove-trans j k no_fields h a = tt
KeysAbove-trans j k (field i w m) h a = (bytes_trans j k i h a.0, KeysAbove-trans j k m h a.1)

-- `map.insert` keeps the keys ascending.
insert_field-typed :
    (k : Bytes) (v : Value) (m : Fields)
    → is_utf8 k ≡ true
    → IsTyped v
    → AreTypedFields m
    → AreTypedFields (insert_field k v m)
unfolding insert_field
insert_field-typed k v no_fields u t a = (u, t, tt, tt)
insert_field-typed k v (field j w m) u t a = ground (
  arith,
  insert_field-typed k v m u t a.3,
  KeysAbove-insert j k v m,
  KeysAbove-trans k j m,
  bytes_eq k j,
  bytes_lt k j,
)

insert_field-within :
    (k : Bytes) (v : Value) (m : Fields) (n : ℕ)
    → AreWithinFields (field k v no_fields)
    → depth v < n
    → AreWithinFields m
    → depth_fields m ≤ n
    → AreWithinFields (insert_field k v m)
      × (depth_fields (insert_field k v m) ≤ n)
      × (count_fields (insert_field k v m) ≤ suc (count_fields m))
unfolding insert_field
insert_field-within k v no_fields n b d w e = ((b.0, b.1, tt), omega arith, omega arith)
insert_field-within k v (field j x m) n b d w e = elim (Ordering-cases (cmp_bytes k j)) [
  | less h ↦ rw (h, insert_field) ((b.0, b.1, w), omega arith, omega arith)
  | same h ↦ rw (h, insert_field) ((b.0, b.1, w.2), omega arith, omega arith)
  | more h ↦
      let (w', d', c') = insert_field-within k v m n b d w.2 (omega arith) in
      rw (h, insert_field) ((w.0, w.1, w'), omega arith, omega arith)
]

module _ (nested : Read Value) (n : ℕ)
    (below : (c : Bytes) → AreBytes c → Gives (IsGood n) (nested c)) where
  decode_items-Gives :
      (count : ℕ) (c : Bytes) → AreBytes c → Gives (AreGood n count) (decode_items nested count c)
  unfolding decode_items
  decode_items-Gives zero c h = gives (tt, tt, omega arith, omega arith) h
  decode_items-Gives (suc k) c h = Gives-bind (below c h) λ v c1 p h1.
      Gives-bind (decode_items-Gives k c1 h1)
        λ xs c2 q h2. gives ((p.0, q.0), (p.1, q.1), omega (arith, p.2, q.2), omega (arith, q.3)) h2

  decode_fields-Gives :
      (count total : ℕ) (m : Fields) (c : Bytes)
      → AreGoodFields n total m
      → AreBytes c
      → Gives (AreGoodFields n (count + total)) (decode_fields nested count m c)
  unfolding decode_fields
  decode_fields-Gives zero total m c g h = gives (g.0, g.1, g.2, omega (arith, g.3)) h
  decode_fields-Gives (suc k) total m c g h = Gives-bind (read_u32_le-Gives c h) λ len c1 _ h1.
      Gives-require (leb len max_blob_len) (codec (key_length len)) λ fits.
        Gives-bind (read_string-Gives c1 h1 len) λ key c2 p h2.
          Gives-bind (below c2 h2) λ v c3 q h3.
            let (w, d, e) =
              insert_field-within key v m n (rw p.0 (leb→le _ _ fits), q.1, tt) q.2 g.1 g.2 in
            let t = insert_field-typed key v m p.1 q.0 g.0 in
            let rest =
              decode_fields-Gives k (suc total) (insert_field key v m) c3
                (t, w, d, omega (arith, g.3, e)) h3 in
            let shift : k + suc total ≡ suc k + total = omega arith in rw shift at rest

  decode_array-Gives : (c : Bytes) → AreBytes c → Gives (IsGood (suc n)) (decode_array nested c)
  unfolding decode_array
  decode_array-Gives c h = Gives-bind (read_u32_le-Gives c h) λ count c1 _ h1.
      Gives-require (leb count max_array_len) (codec (array_length count)) λ fits.
        Gives-bind (decode_items-Gives count c1 h1) λ xs c2 q h2.
          gives (q.0, (omega (arith, q.3, leb→le _ _ fits), q.1), omega (arith, q.2)) h2

  decode_object-Gives : (c : Bytes) → AreBytes c → Gives (IsGood (suc n)) (decode_object nested c)
  unfolding decode_object
  decode_object-Gives c h = Gives-bind (read_u32_le-Gives c h) λ count c1 _ h1.
      Gives-require (leb count max_object_keys) (codec (object_keys count)) λ fits.
        Gives-bind (decode_fields-Gives count 0 no_fields c1 (tt, tt, omega arith, omega arith) h1)
          λ fs c2 q h2.
            gives (q.0, (omega (arith, q.3, leb→le _ _ fits), q.1), omega (arith, q.2)) h2

Gives-if :
    {A : Type 0} {P : A → Type 0} (b : Bool) {r s : Outcome (A × Bytes)}
    → Gives P r
    → Gives P s
    → Gives P (if b then r else s)
Gives-if true h k = h
Gives-if false h k = k

module _ (nested : Read Value) (n : ℕ)
    (below : (c : Bytes) → AreBytes c → Gives (IsGood n) (nested c)) where
  bool-Gives :
      (c : Bytes)
      → AreBytes c
      → Gives (IsGood (suc n)) (do (b, c1) ← read_u8 c; ok (bool (not (b == 0)), c1))
  unfolding read_u8
  bool-Gives [] h = fails
  bool-Gives (b ∷ c) h = gives (tt, tt, zero-lt n) h.1

  decode_tagged-Gives :
      (tag : ℕ) (c : Bytes) → AreBytes c → Gives (IsGood (suc n)) (decode_tagged nested tag c)
  unfolding decode_tagged
  decode_tagged-Gives tag c h = Gives-if (tag == 0x00) (gives (tt, tt, zero-lt n) h) (
      Gives-if (tag == 0x01) (bool-Gives c h) (
        Gives-if (tag == 0x02)
          (Gives-bind (read_i64_le-Gives c h)
            λ i c1 lt h1. gives (to_i64-IsI64 i lt, tt, zero-lt n) h1)
          (Gives-if (tag == 0x03)
            (Gives-bind (read_f64_le-Gives c h) λ f c1 lt h1. gives (lt, tt, zero-lt n) h1)
            (Gives-if (tag == 0x04) (decode_string-Gives n c h) (
              Gives-if (tag == 0x05) (decode_bytes-Gives n c h) (
                Gives-if (tag == 0x06) (decode_array-Gives nested n below c h) (
                  Gives-if (tag == 0x07) (decode_object-Gives nested n below c h) (
                    Gives-if (tag == 0x08) (decode_ref-Gives n c h) (
                      Gives-if (tag == 0x09) (decode_tombstone-Gives n c h)
                        (Gives-if (tag == 0x0a) (decode_crdt-Gives n c h) fails))))))))))

decode_recursive-Gives : (n : ℕ) (c : Bytes) → AreBytes c → Gives (IsGood n) (decode_recursive n c)
unfolding decode_recursive read_u8
decode_recursive-Gives zero c h = fails
decode_recursive-Gives (suc n) [] h = fails
decode_recursive-Gives (suc n) (tag ∷ c) h =
    decode_tagged-Gives (decode_recursive n) n (decode_recursive-Gives n) tag c h.1

-- Whatever the bytes on the cursor, a value that `decode_from_cursor` returns is one of the type
-- (UTF-8 texts, ascending keys, integers in range), within the limits on lengths and counts, and
-- nested at most 64 deep.
pub decode_from_cursor-IsGood :
    (bs rest : Bytes) (v : Value)
    → AreBytes bs
    → decode_from_cursor bs ≡ ok (v, rest)
    → IsTyped v × IsWithin v × (depth v < suc max_nesting_depth)
unfolding decode_from_cursor
decode_from_cursor-IsGood bs rest v h e =
    Gives-ok v rest (decode_recursive-Gives (suc max_nesting_depth) bs h) e
