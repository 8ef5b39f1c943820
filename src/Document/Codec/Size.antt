-- ===== src/Document/Codec/Size.antt =====
-- `encoded_size` of src/document/codec.rs against `encode`.
use grumpydb.Prelude.{◌+◌, ◌≡◌, ◌++◌, arith, length, length-append}
use grumpydb.Prelude.Bytes.{Bytes, length-to_le_bytes}
use grumpydb.Document.Value.{
  Value, Items, Fields, null, bool, integer, float, string, bytes, array, object, ref, tombstone,
  crdt, no_items, item, no_fields, field,
}
use grumpydb.Document.Codec.{
  encode, encode_items, encode_fields, encoded_size, items_size, fields_size,
}
use grumpydb.Document.Codec.Limits.{IsTyped, AreTyped, AreTypedFields}

length_bytes : (xs ys : Bytes) → length (xs ++ ys) ≡ length xs + length ys
length_bytes = length-append

ruleset lengths = (arith, length_bytes, length-to_le_bytes)

mutual
  unfolding encode encoded_size

  size_value : (v : Value) → IsTyped v → length (encode v) ≡ encoded_size v
  size_value null t = omega arith
  size_value (bool b) t = omega arith
  size_value (integer n) t = omega lengths
  size_value (float f) t = omega lengths
  size_value (string s) t = omega lengths
  size_value (bytes b) t = omega lengths
  size_value (array xs) t = omega (lengths, size_items xs t)
  size_value (object fs) t = omega (lengths, size_fields fs t)
  size_value (ref c uuid) t = omega lengths
  size_value (tombstone s vc) t = omega lengths
  size_value (crdt kind p) t = omega lengths

  size_items : (xs : Items) → AreTyped xs → length (encode_items xs) ≡ items_size xs
  size_items no_items t = omega arith
  size_items (item v xs) t = omega (lengths, size_value v t.0, size_items xs t.1)

  size_fields : (fs : Fields) → AreTypedFields fs → length (encode_fields fs) ≡ fields_size fs
  size_fields no_fields t = omega arith
  size_fields (field k v fs) t = omega (lengths, size_value v t.1, size_fields fs t.3)

-- `encoded_size` is the number of bytes that `encode` appends, for every value of the type, of any
-- length and depth.
pub length-encode : (v : Value) → IsTyped v → length (encode v) ≡ encoded_size v
length-encode = size_value
