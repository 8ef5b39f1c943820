-- ===== src/Document/Codec/Nesting.antt =====
-- The limit on nesting of `decode_recursive` in src/document/codec.rs.
use grumpydb.Prelude.{
  ℕ, zero, suc, ◌≤◌, ◌<◌, ◌≡◌, refl, arith, ◌++◌, append_assoc, err, le→leb, length, ◌⊎◌, inl, inr,
}
use grumpydb.Prelude.Bytes.{Bytes}
use grumpydb.Document.Value.{
  Value, Items, Fields, array, object, no_items, item, no_fields, field, count_items, count_fields,
  insert_field,
}
use grumpydb.Error.{codec, nesting_depth}
use grumpydb.Document.Codec.{
  max_nesting_depth, encode, encode_items, encode_fields, read_u8, decode_items, decode_fields,
  decode_array, decode_object, decode_tagged, decode_recursive, decode_from_cursor,
}
use grumpydb.Document.Codec.Limits.{
  IsTyped, AreTyped, AreTypedFields, IsWithin, AreWithin, AreWithinFields, depth, depth_items,
  depth_fields,
}
use grumpydb.Document.Codec.Reads.{read_u32_bytes, read_string-append}
use grumpydb.Document.Codec.RoundTrip.{read_value}

-- The first element is too deep, or only one of the others.
deep_cases : (a n : ℕ) → (a ≤ n) ⊎ (n < a)
deep_cases a n = omega arith

mutual
  unfolding encode decode_recursive decode_tagged read_u8 decode_array decode_object decode_items
      decode_fields

  deep_value :
      (v : Value) (n : ℕ) (rest : Bytes)
      → IsTyped v
      → IsWithin v
      → n < depth v
      → decode_recursive (suc n) (encode v ++ rest) ≡ err (codec nesting_depth)
  deep_value (array xs) n rest t w d = rw append_assoc (
      rw (read_u32_bytes (count_items xs) (encode_items xs ++ rest) (omega arith))
        (rw (le→leb _ _ w.0) (rw (deep_items xs n rest t w.1 d))))
  deep_value (object fs) n rest t w d = rw append_assoc (
      rw (read_u32_bytes (count_fields fs) (encode_fields fs ++ rest) (omega arith))
        (rw (le→leb _ _ w.0) (rw (deep_fields fs no_fields n rest t w.1 d))))
  deep_value _ n rest t w d = absurd (omega arith)

  deep_items :
      (xs : Items) (n : ℕ) (rest : Bytes)
      → AreTyped xs
      → AreWithin xs
      → n < depth_items xs
      → decode_items (decode_recursive n) (count_items xs) (encode_items xs ++ rest)
        ≡ err (codec nesting_depth)
  deep_items no_items n rest t w d = absurd (omega arith)
  deep_items (item v xs) zero rest t w d = refl
  deep_items (item v xs) (suc n) rest t w d = rw append_assoc (elim (deep_cases (depth v) n) [
    | inl other ↦
        rw (read_value v n (encode_items xs ++ rest) t.0 w.0 other)
          (rw (deep_items xs (suc n) rest t.1 w.1 (omega arith)))
    | inr here ↦ rw (deep_value v n (encode_items xs ++ rest) t.0 w.0 here)
  ])

  deep_fields :
      (fs m : Fields) (n : ℕ) (rest : Bytes)
      → AreTypedFields fs
      → AreWithinFields fs
      → n < depth_fields fs
      → decode_fields (decode_recursive n) (count_fields fs) m (encode_fields fs ++ rest)
        ≡ err (codec nesting_depth)
  deep_fields no_fields m n rest t w d = absurd (omega arith)
  deep_fields (field k v fs) m zero rest t w d = simp append_assoc (
      rw (read_u32_bytes (length k) (k ++ (encode v ++ (encode_fields fs ++ rest))) (omega arith)) (
        rw (le→leb _ _ w.0)
          (rw (read_string-append _ k (encode v ++ (encode_fields fs ++ rest)) refl t.0))))
  deep_fields (field k v fs) m (suc n) rest t w d = simp append_assoc (
      rw (read_u32_bytes (length k) (k ++ (encode v ++ (encode_fields fs ++ rest))) (omega arith)) (
        rw (le→leb _ _ w.0) (
          rw (read_string-append _ k (encode v ++ (encode_fields fs ++ rest)) refl t.0)
            (elim (deep_cases (depth v) n) [
              | inl other ↦
                  rw (read_value v n (encode_fields fs ++ rest) t.1 w.1 other)
                    (deep_fields fs (insert_field k v m) (suc n) rest t.3 w.2 (omega arith))
              | inr here ↦ rw (deep_value v n (encode_fields fs ++ rest) t.1 w.1 here)
            ]))))

-- What `encode` writes for a value of the type within the limits on lengths, nested deeper than 64,
-- is refused by `decode_from_cursor` with the nesting error, whatever follows it.
pub decode_from_cursor_deep :
    (v : Value) (rest : Bytes)
    → IsTyped v
    → IsWithin v
    → max_nesting_depth < depth v
    → decode_from_cursor (encode v ++ rest) ≡ err (codec nesting_depth)
unfolding decode_from_cursor
decode_from_cursor_deep v rest t w d = deep_value v max_nesting_depth rest t w d
