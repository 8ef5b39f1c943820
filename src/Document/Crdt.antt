-- ===== src/Document/Crdt.antt =====
-- The merge of CRDT payloads: src/document/crdt.rs. The JSON of the crate `serde_json` is a parameter
-- for each payload type; an error holds what its text prints.
pub mod Lattice
pub mod Joins
pub mod Merge
use grumpydb.Prelude.{
  ℕ, ◌+◌, Bool, true, false, Option, none, some, ◌++◌, Result, ok, err, ◌>>=◌, ◌==◌, if◌then◌else◌,
  length, max, take, slice,
}
use grumpydb.Prelude.Bytes.{Bytes, to_le_bytes, from_le_bytes}
use grumpydb.Prelude.Order.{bytes_ord}
use grumpydb.Prelude.Map.{Map}
use grumpydb.Prelude.Map.Union.{union_with}
use grumpydb.Document.Value.{
  Value, crdt, as_crdt, CrdtKind, g_counter, pn_counter, lww_set, or_set, mvr, to_tag,
}

pub data CrdtError : Type 0 where
  invalid_length : CrdtKind → ℕ → CrdtError
  invalid_json encode_failed : CrdtKind → Bytes → CrdtError
  left_not_crdt right_not_crdt : CrdtError
  kind_mismatch : CrdtKind → CrdtKind → CrdtError

-- `BTreeSet<String>`
abbrev pub TextSet : Type 0
TextSet = Map Bytes (Unit {0})

pub record LwwSetPayload : Type 0 where
  pub adds : Map Bytes ℕ
  pub rems : Map Bytes ℕ

pub record OrSetPayload : Type 0 where
  pub adds : Map Bytes TextSet
  pub rems : Map Bytes TextSet

pub record MvrPayload : Type 0 where
  pub values : TextSet

-- `serde_json::from_slice` and `serde_json::to_vec` at a type
pub record Json (P : Type 0) : Type 0 where
  pub from_slice : Bytes → Result P Bytes
  pub to_vec : P → Result Bytes Bytes

abbrev pub both_present : Unit {0} → Unit {0} → Unit {0}
both_present a b = tt

unfoldable pub union : TextSet → TextSet → TextSet
union = union_with both_present

unfoldable pub merge_max_u64_maps : Map Bytes ℕ → Map Bytes ℕ → Map Bytes ℕ
merge_max_u64_maps = union_with max

unfoldable pub merge_set_maps : Map Bytes TextSet → Map Bytes TextSet → Map Bytes TextSet
merge_set_maps = union_with union

unfoldable pub decode_u64 : Bytes → CrdtKind → Result ℕ CrdtError
decode_u64 bs kind =
    if length bs == 8 then ok (from_le_bytes bs) else err (invalid_length kind (length bs))

unfoldable pub decode_pn : Bytes → Result (ℕ × ℕ) CrdtError
decode_pn bs =
    if length bs == 16
    then ok (from_le_bytes (take 8 bs), from_le_bytes (slice 8 8 bs))
    else err (invalid_length pn_counter (length bs))

unfoldable pub decode_payload : {P : Type 0} → Json P → Bytes → CrdtKind → Result P CrdtError
decode_payload json bs kind = elim (json.from_slice bs) [
  | ok p ↦ ok p
  | err e ↦ err (invalid_json kind e)
]

unfoldable pub encode_payload : {P : Type 0} → Json P → P → CrdtKind → Result Bytes CrdtError
encode_payload json p kind = elim (json.to_vec p) [
  | ok bs ↦ ok bs
  | err e ↦ err (encode_failed kind e)
]

unfoldable pub join_lww : LwwSetPayload → LwwSetPayload → LwwSetPayload
join_lww l r = record {
  adds = merge_max_u64_maps l.adds r.adds;
  rems = merge_max_u64_maps l.rems r.rems;
}

unfoldable pub join_or : OrSetPayload → OrSetPayload → OrSetPayload
join_or l r = record { adds = merge_set_maps l.adds r.adds; rems = merge_set_maps l.rems r.rems }

unfoldable pub join_mvr : MvrPayload → MvrPayload → MvrPayload
join_mvr l r = record { values = union l.values r.values }

-- Decode both, join, and encode.
unfoldable pub merge_json :
    {P : Type 0} → Json P → (P → P → P) → CrdtKind → Bytes → Bytes → Result Bytes CrdtError
merge_json json join kind left right = do
  l ← decode_payload json left kind
  r ← decode_payload json right kind
  encode_payload json (join l r) kind

module _ (lww_json : Json LwwSetPayload) (or_json : Json OrSetPayload)
    (mvr_json : Json MvrPayload) where
  unfoldable pub merge_payload : CrdtKind → Bytes → Bytes → Result Bytes CrdtError
  unfolding merge_json
  merge_payload g_counter left right = do
    l ← decode_u64 left g_counter
    r ← decode_u64 right g_counter
    ok (to_le_bytes 8 (max l r))
  merge_payload pn_counter left right = do
    l ← decode_pn left
    r ← decode_pn right
    ok (to_le_bytes 8 (max l.0 r.0) ++ to_le_bytes 8 (max l.1 r.1))
  merge_payload lww_set left right = merge_json lww_json join_lww lww_set left right
  merge_payload or_set left right = merge_json or_json join_or or_set left right
  merge_payload mvr left right = merge_json mvr_json join_mvr mvr left right

  abbrev ok_or : Option (CrdtKind × Bytes) → CrdtError → Result (CrdtKind × Bytes) CrdtError
  ok_or none e = err e
  ok_or (some c) e = ok c

  abbrev merge_same : CrdtKind × Bytes → CrdtKind × Bytes → Result Value CrdtError
  merge_same (kind, left) (other, right) =
      if to_tag kind == to_tag other
      then (merge_payload kind left right >>= λ merged. ok (crdt kind merged))
      else err (kind_mismatch kind other)

  unfoldable pub merge_values : Value → Value → Result Value CrdtError
  merge_values left right = do
    l ← ok_or (as_crdt left) left_not_crdt
    r ← ok_or (as_crdt right) right_not_crdt
    merge_same l r
