-- ===== src/Index/Encoding.antt =====
-- The sortable keys of src/index/encoding.rs.
pub mod Order
pub mod Path
use grumpydb.Prelude.{
  ℕ, ◌+◌, ◌-◌, ◌%◌, ◌^◌, ◌≡◌, refl, Bool, min, Option, none, some, List, [], ◌∷◌, ◌++◌, ok, err,
  ◌>>=◌, ltb, ◌==◌, if◌then◌else◌, length, take,
}
use grumpydb.Prelude.Bytes.{Bytes, to_be_bytes}
use grumpydb.Prelude.Int.{to_u64}
use grumpydb.Error.{Outcome, not_indexable}
use grumpydb.Document.Value.{
  Value, Fields, null, bool, integer, float, string, bytes, array, object, ref, tombstone, crdt,
  get_field,
}

abbrev pub max_indexed_len : ℕ
max_indexed_len = 128

-- `bits ^ 0x8000_0000_0000_0000` of 64 bits
unfoldable pub flip_sign : ℕ → ℕ
flip_sign bits = if ltb bits (2 ^ 63) then bits + 2 ^ 63 else bits - 2 ^ 63

-- `!bits` where the sign bit is set, and the sign bit flipped elsewhere
unfoldable pub sortable_float : ℕ → ℕ
unfolding flip_sign
sortable_float bits = if ltb bits (2 ^ 63) then flip_sign bits else 2 ^ 64 - 1 - bits

-- `&b[..len.min(MAX_INDEXED_LEN)]`
unfoldable pub indexed : Bytes → Bytes
indexed b = take (min (length b) max_indexed_len) b

unfoldable pub encode_sortable_value : Value → Outcome Bytes
encode_sortable_value null = ok (0x00 ∷ [])
encode_sortable_value (bool b) = ok (0x01 ∷ (if b then 0x01 else 0x00) ∷ [])
encode_sortable_value (integer i) = ok (0x02 ∷ to_be_bytes 8 (flip_sign (to_u64 i)))
encode_sortable_value (float f) = ok (0x03 ∷ to_be_bytes 8 (sortable_float f))
encode_sortable_value (string s) = ok (0x04 ∷ indexed s)
encode_sortable_value (bytes b) = ok (0x05 ∷ indexed b)
encode_sortable_value (ref collection uuid) = ok (0x06 ∷ (indexed collection ++ uuid))
encode_sortable_value (array xs) = err not_indexable
encode_sortable_value (object fs) = err not_indexable
encode_sortable_value (tombstone h vc) = err not_indexable
encode_sortable_value (crdt kind payload) = err not_indexable

unfoldable pub encode_composite_key : Value → Bytes → Outcome Bytes
encode_composite_key value uuid = do key ← encode_sortable_value value; ok (key ++ uuid)

-- `path.split('.')`: the part before the first dot, and the parts after it
unfoldable pub split_dots : Bytes → Bytes × List Bytes
split_dots [] = ([], [])
split_dots (c ∷ cs) =
    let (part, parts) = split_dots cs in if c == 46 then ([], part ∷ parts) else (c ∷ part, parts)

unfoldable pub member : Value → Bytes → Option Value
member (object fs) part = get_field part fs
member _ part = none

-- `?` on an option
abbrev pub and_then : Option Value → (Value → Option Value) → Option Value
and_then none f = none
and_then (some v) f = f v

unfoldable pub walk : Value → Bytes → List Bytes → Option Value
walk v part [] = member v part
walk v part (next ∷ parts) = and_then (member v part) (λ w. walk w next parts)

unfoldable pub extract_field : Value → Bytes → Option Value
extract_field v path = let (part, parts) = split_dots path in walk v part parts
