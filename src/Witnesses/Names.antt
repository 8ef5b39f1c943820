-- ===== src/Witnesses/Names.antt =====
-- Names and index keys on concrete values.
use grumpydb.Prelude.{◌≡◌, refl, arith, [], ◌∷◌}
use grumpydb.Prelude.Bytes.{to_be_bytes}
use grumpydb.Prelude.Int.{pos, negsuc, to_u64}
use grumpydb.Prelude.Order.{cmp_bytes}
use grumpydb.Document.Value.{integer}
use grumpydb.Index.Encoding.{encode_sortable_value, flip_sign}
use grumpydb.Index.Encoding.Order.{cmp_values, encode_sortable_value-ordered}

-- -1 and 3
encode_sortable_value-ordered_example :
    cmp_bytes
      (2 ∷ 127 ∷ 255 ∷ 255 ∷ 255 ∷ 255 ∷ 255 ∷ 255 ∷ 255 ∷ [])
      (2 ∷ 128 ∷ 0 ∷ 0 ∷ 0 ∷ 0 ∷ 0 ∷ 0 ∷ 3 ∷ [])
    ≡ cmp_values (integer (negsuc 0)) (integer (pos 3))
unfolding encode_sortable_value to_be_bytes flip_sign to_u64
encode_sortable_value-ordered_example =
    encode_sortable_value-ordered (integer (negsuc 0)) (integer (pos 3))
      (2 ∷ 127 ∷ 255 ∷ 255 ∷ 255 ∷ 255 ∷ 255 ∷ 255 ∷ 255 ∷ [])
      (2 ∷ 128 ∷ 0 ∷ 0 ∷ 0 ∷ 0 ∷ 0 ∷ 0 ∷ 3 ∷ []) (omega arith) (omega arith) refl refl
