-- ===== src/Witnesses/Crdt.antt =====
-- The merge of CRDT payloads on concrete values.
use grumpydb.Prelude.{◌≡◌, refl, arith, [], ◌∷◌, ◌>>=◌}
use grumpydb.Prelude.Bytes.{Bytes, from_le_bytes}
use grumpydb.Document.Value.{g_counter}
use grumpydb.Document.Crdt.{merge_payload, decode_u64}
use grumpydb.Document.Crdt.Merge.{IsPayload, merge_payload_comm, merge_payload_assoc}
use grumpydb.Witnesses.Json.{
  lww_json, or_json, mvr_json, lww_json-IsLawful, or_json-IsLawful, mvr_json-IsLawful,
}

-- Three counters.
abbrev three : Bytes
three = 3 ∷ 0 ∷ 0 ∷ 0 ∷ 0 ∷ 0 ∷ 0 ∷ 0 ∷ []

abbrev many : Bytes
many = 1 ∷ 1 ∷ 0 ∷ 0 ∷ 0 ∷ 0 ∷ 0 ∷ 0 ∷ []

abbrev none_yet : Bytes
none_yet = 0 ∷ 0 ∷ 0 ∷ 0 ∷ 0 ∷ 0 ∷ 0 ∷ 0 ∷ []

three-IsPayload : IsPayload lww_json or_json mvr_json g_counter three
unfolding decode_u64 from_le_bytes
three-IsPayload = (omega arith, (3, refl))

many-IsPayload : IsPayload lww_json or_json mvr_json g_counter many
unfolding decode_u64 from_le_bytes
many-IsPayload = (omega arith, (257, refl))

none_yet-IsPayload : IsPayload lww_json or_json mvr_json g_counter none_yet
unfolding decode_u64 from_le_bytes
none_yet-IsPayload = (omega arith, (0, refl))

merge_payload_comm_example :
    merge_payload lww_json or_json mvr_json g_counter three many
    ≡ merge_payload lww_json or_json mvr_json g_counter many three
merge_payload_comm_example =
    merge_payload_comm lww_json or_json mvr_json lww_json-IsLawful or_json-IsLawful
      mvr_json-IsLawful g_counter three many three-IsPayload many-IsPayload

merge_payload_assoc_example :
    (merge_payload lww_json or_json mvr_json g_counter three many >>= λ m.
    merge_payload lww_json or_json mvr_json g_counter m none_yet)
    ≡ (merge_payload lww_json or_json mvr_json g_counter many none_yet >>= λ m.
        merge_payload lww_json or_json mvr_json g_counter three m)
merge_payload_assoc_example =
    merge_payload_assoc lww_json or_json mvr_json lww_json-IsLawful or_json-IsLawful
      mvr_json-IsLawful g_counter three many none_yet three-IsPayload many-IsPayload
      none_yet-IsPayload
