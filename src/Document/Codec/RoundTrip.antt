-- ===== src/Document/Codec/RoundTrip.antt =====
-- What was encoded is decoded: src/document/codec.rs, `decode` after `encode`.
use grumpydb.Prelude.{
  ℕ, zero, suc, ◌≤◌, ◌≡◌, refl, ap, true, false, arith, ◌++◌, append_assoc, ok, le→leb, length,
}
use grumpydb.Prelude.Bytes.{Bytes}
use grumpydb.Prelude.Int.{to_u64, to_u64-lt, to_i64-to_u64}
use grumpydb.Prelude.Order.{Ordering, cmp_bytes, bytes_gt}
use grumpydb.Document.Value.{
  Value, Items, Fields, null, bool, integer, float, string, bytes, array, object, ref, tombstone,
  crdt, no_items, item, no_fields, field, count_items, count_fields, insert_field,
}
use grumpydb.Document.Codec.{
  max_nesting_depth, encode, encode_items, encode_fields, read_u8, decode_items, decode_fields,
  decode_array, decode_object, decode_tagged, decode_recursive, decode_from_cursor,
}
use grumpydb.Document.Codec.Limits.{
  KeysAbove, IsTyped, AreTyped, AreTypedFields, IsWithin, AreWithin, AreWithinFields, depth,
  depth_items, depth_fields,
}
use grumpydb.Document.Codec.Reads.{
  read_u32_bytes, read_string-append, read_i64_le-append, read_f64_le-append,
}
use grumpydb.Document.Codec.Leaves.{
  decode_string-append, decode_bytes-append, decode_ref-append, decode_tombstone-append,
  decode_crdt-append,
}

-- The entries of `m`, then those of `fs`.
abbrev pub append_fields : Fields → Fields → Fields
append_fields no_fields fs = fs
append_fields (field k v m) fs = field k v (append_fields m fs)

abbrev pub Ascend : Fields → Type 0
Ascend no_fields = Unit
Ascend (field k v fs) = KeysAbove k fs × Ascend fs

Ascend-typed : (fs : Fields) → AreTypedFields fs → Ascend fs
Ascend-typed no_fields t = tt
Ascend-typed (field k v fs) t = (t.2, Ascend-typed fs t.3)

KeysAbove-append :
    (j : Bytes) (m : Fields) (k : Bytes) (v : Value) (fs : Fields)
    → KeysAbove j (append_fields m (field k v fs))
    → cmp_bytes j k ≡ Ordering.lt
KeysAbove-append j no_fields k v fs a = a.0
KeysAbove-append j (field i w m) k v fs a = KeysAbove-append j m k v fs a.1

-- A key above all others is inserted at the end.
insert_last :
    (m : Fields) (k : Bytes) (v : Value) (fs : Fields)
    → Ascend (append_fields m (field k v fs))
    → insert_field k v m ≡ append_fields m (field k v no_fields)
unfolding insert_field
insert_last no_fields k v fs a = refl
insert_last (field j w m) k v fs a =
    rw (bytes_gt j k (KeysAbove-append j m k v fs a.0), insert_field)
      (ap (field j w) (insert_last m k v fs a.1))

append_fields-nil : (m : Fields) → append_fields m no_fields ≡ m
append_fields-nil no_fields = refl
append_fields-nil (field j w m) = ap (field j w) (append_fields-nil m)

append_fields_assoc :
    (m : Fields) (k : Bytes) (v : Value) (fs : Fields)
    → append_fields (append_fields m (field k v no_fields)) fs ≡ append_fields m (field k v fs)
append_fields_assoc no_fields k v fs = refl
append_fields_assoc (field j w m) k v fs = ap (field j w) (append_fields_assoc m k v fs)

-- `n` is the number of levels that are left below the value.
mutual
  unfolding encode decode_recursive decode_tagged read_u8 decode_array decode_object decode_items
      decode_fields

  pub read_value :
      (v : Value) (n : ℕ) (rest : Bytes)
      → IsTyped v
      → IsWithin v
      → depth v ≤ n
      → decode_recursive (suc n) (encode v ++ rest) ≡ ok (v, rest)
  read_value null n rest t w d = refl
  read_value (bool false) n rest t w d = refl
  read_value (bool true) n rest t w d = refl
  read_value (integer z) n rest t w d =
      rw (read_i64_le-append (to_u64 z) rest (to_u64-lt z t)) (rw (to_i64-to_u64 z t))
  read_value (float f) n rest t w d = rw (read_f64_le-append f rest t)
  read_value (string s) n rest t w d = rw append_assoc (decode_string-append rest s t w)
  read_value (bytes b) n rest t w d = rw append_assoc (decode_bytes-append rest b w)
  read_value (array xs) n rest t w d = rw append_assoc (
      rw (read_u32_bytes (count_items xs) (encode_items xs ++ rest) (omega arith))
        (rw (le→leb _ _ w.0) (rw (read_items xs n rest t w.1 d))))
  read_value (object fs) n rest t w d = rw append_assoc (
      rw (read_u32_bytes (count_fields fs) (encode_fields fs ++ rest) (omega arith))
        (rw (le→leb _ _ w.0) (rw (read_fields fs no_fields n rest t (Ascend-typed fs t) w.1 d))))
  read_value (ref c uuid) n rest t w d = simp append_assoc (decode_ref-append rest c uuid t.0 t.1 w)
  read_value (tombstone s vc) n rest t w d =
      simp append_assoc (decode_tombstone-append rest s vc t w)
  read_value (crdt k p) n rest t w d = simp append_assoc (decode_crdt-append rest k p w)

  pub read_items :
      (xs : Items) (n : ℕ) (rest : Bytes)
      → AreTyped xs
      → AreWithin xs
      → depth_items xs ≤ n
      → decode_items (decode_recursive n) (count_items xs) (encode_items xs ++ rest) ≡ ok (xs, rest)
  read_items no_items n rest t w d = refl
  read_items (item v xs) zero rest t w d = absurd (omega arith)
  read_items (item v xs) (suc n) rest t w d = rw append_assoc (
      rw (read_value v n (encode_items xs ++ rest) t.0 w.0 (omega arith))
        (rw (read_items xs (suc n) rest t.1 w.1 (omega arith))))

  pub read_fields :
      (fs m : Fields) (n : ℕ) (rest : Bytes)
      → AreTypedFields fs
      → Ascend (append_fields m fs)
      → AreWithinFields fs
      → depth_fields fs ≤ n
      → decode_fields (decode_recursive n) (count_fields fs) m (encode_fields fs ++ rest)
        ≡ ok (append_fields m fs, rest)
  read_fields no_fields m n rest t a w d = rw (append_fields-nil m)
  read_fields (field k v fs) m zero rest t a w d = absurd (omega arith)
  read_fields (field k v fs) m (suc n) rest t a w d = simp append_assoc (
      rw (read_u32_bytes (length k) (k ++ (encode v ++ (encode_fields fs ++ rest))) (omega arith)) (
        rw (le→leb _ _ w.0) (
          rw (read_string-append _ k (encode v ++ (encode_fields fs ++ rest)) refl t.0) (
            rw (read_value v n (encode_fields fs ++ rest) t.1 w.1 (omega arith)) (
              rw (insert_last m k v fs a) (
                rw (← append_fields_assoc m k v fs) (
                  read_fields fs (append_fields m (field k v no_fields)) (suc n) rest t.3
                    (rw (append_fields_assoc m k v fs) a) w.2 (omega arith))))))))

-- What `encode` writes for a value of the type within the limits, nested at most 64 deep, is read
-- back by `decode_from_cursor` as that value, and what follows it is left on the cursor.
pub decode_from_cursor-encode :
    (v : Value) (rest : Bytes)
    → IsTyped v
    → IsWithin v
    → depth v ≤ max_nesting_depth
    → decode_from_cursor (encode v ++ rest) ≡ ok (v, rest)
unfolding decode_from_cursor
decode_from_cursor-encode v rest t w d = read_value v max_nesting_depth rest t w d
