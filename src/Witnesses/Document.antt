-- ===== src/Witnesses/Document.antt =====
-- The codec of src/document/codec.rs on concrete values.
use grumpydb.Prelude.{suc, ◌<◌, ◌≡◌, refl, arith, true, [], ◌∷◌, ◌++◌, ok}
use grumpydb.Prelude.Bytes.{Bytes, to_le_bytes}
use grumpydb.Prelude.Int.{negsuc}
use grumpydb.Document.Text.{is_utf8}
use grumpydb.Document.Value.{
  Value, bool, integer, string, array, object, no_items, item, no_fields, field,
}
use grumpydb.Document.Codec.{max_nesting_depth, encode, decode_from_cursor}
use grumpydb.Document.Codec.Limits.{IsTyped, IsWithin, depth}
use grumpydb.Document.Codec.RoundTrip.{decode_from_cursor-encode}
use grumpydb.Document.Codec.Accepted.{decode_from_cursor-IsGood}

-- {"a": [true, "hé"], "b": -7}
abbrev sample : Value
sample = object (
    field (97 ∷ []) (array (item (bool true) (item (string (104 ∷ 195 ∷ 169 ∷ [])) no_items)))
      (field (98 ∷ []) (integer (negsuc 6)) no_fields))

sample-IsTyped : IsTyped sample
unfolding is_utf8
sample-IsTyped = (refl, (tt, (refl, tt)), (refl, tt), (refl, omega arith, tt, tt))

sample-IsWithin : IsWithin sample
sample-IsWithin = ground arith

decode_from_cursor-encode_example :
    decode_from_cursor (encode sample ++ (1 ∷ [])) ≡ ok (sample, 1 ∷ [])
decode_from_cursor-encode_example =
    decode_from_cursor-encode sample (1 ∷ []) sample-IsTyped sample-IsWithin (omega arith)

-- [true], and a byte after it
abbrev input : Bytes
input = 6 ∷ 1 ∷ 0 ∷ 0 ∷ 0 ∷ 1 ∷ 1 ∷ 9 ∷ []

abbrev output : Value
output = array (item (bool true) no_items)

input-decodes : decode_from_cursor input ≡ ok (output, 9 ∷ [])
unfolding encode to_le_bytes
input-decodes = decode_from_cursor-encode output (9 ∷ []) (tt, tt) (ground arith) (omega arith)

decode_from_cursor-IsGood_example :
    IsTyped output × IsWithin output × (depth output < suc max_nesting_depth)
decode_from_cursor-IsGood_example =
    decode_from_cursor-IsGood input (9 ∷ []) output (ground arith) input-decodes
