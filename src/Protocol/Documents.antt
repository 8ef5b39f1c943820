-- ===== src/Protocol/Documents.antt =====
-- grumpydb-protocol/src/parser.rs: the arguments of the commands on documents.
use grumpydb.Prelude.{not, ◌||◌, none, some, ok, ◌>>=◌, ◌>>◌, if◌then◌else◌}
use grumpydb.Protocol.Text.{Text, text, is_empty}
use grumpydb.Protocol.Command.{
  Command, insert, get, update, delete, put_with_vc, scan, query, query_range,
}
use grumpydb.Protocol.Words.{
  Parsed, expect, require_arg, first_word, split_first_word, split_last_word,
}

unfoldable pub parse_insert : Text → Parsed Command
parse_insert rest = do
  (collection, rest) ← first_word rest (text "INSERT requires <collection> <uuid> <json>")
  (key, rest) ← first_word rest (text "INSERT requires <uuid>")
  expect (not (is_empty rest)) (text "INSERT requires <json>")
  ok (insert collection key rest)

unfoldable pub parse_get : Text → Parsed Command
parse_get rest = do
  (collection, rest) ← first_word rest (text "GET requires <collection> <uuid>")
  key ← require_arg rest (text "GET") (text "uuid")
  ok (get collection (split_first_word key).0)

unfoldable pub parse_update : Text → Parsed Command
parse_update rest = do
  (collection, rest) ← first_word rest (text "UPDATE requires <collection> <uuid> <json>")
  (key, rest) ← first_word rest (text "UPDATE requires <uuid>")
  expect (not (is_empty rest)) (text "UPDATE requires <json>")
  ok (update collection key rest)

unfoldable pub parse_delete : Text → Parsed Command
parse_delete rest = do
  (collection, rest) ← first_word rest (text "DELETE requires <collection> <uuid>")
  key ← require_arg rest (text "DELETE") (text "uuid")
  ok (delete collection (split_first_word key).0)

unfoldable pub parse_put_with_vc : Text → Parsed Command
parse_put_with_vc rest = do
  (collection, rest) ←
      first_word rest (text "PUT_WITH_VC requires <collection> <uuid> <json> <vector_clock>")
  (key, rest) ← first_word rest (text "PUT_WITH_VC requires <uuid>")
  expect (not (is_empty rest)) (text "PUT_WITH_VC requires <json> <vector_clock>")
  let p = split_last_word rest
  expect (not (is_empty p.0 || is_empty p.1)) (text "PUT_WITH_VC requires <json> <vector_clock>")
  ok (put_with_vc collection key p.0 p.1)

unfoldable pub parse_scan : Text → Parsed Command
parse_scan rest = do
  (collection, rest) ← first_word rest (text "SCAN requires <collection>")
  let p = split_first_word rest
  let range = do
    expect (not (is_empty p.1)) (text "SCAN range requires both <start_uuid> <end_uuid>")
    ok (scan collection (some p.0) (some (split_first_word p.1).0))
  if is_empty rest then ok (scan collection none none) else range

unfoldable pub parse_query : Text → Parsed Command
parse_query rest = do
  (collection, rest) ←
      first_word rest (text "QUERY requires <collection> <index_name> <json_value>")
  (index_name, rest) ← first_word rest (text "QUERY requires <index_name>")
  expect (not (is_empty rest)) (text "QUERY requires <json_value>")
  ok (query collection index_name rest)

unfoldable pub parse_queryrange : Text → Parsed Command
parse_queryrange rest = do
  (collection, rest) ←
      first_word rest (text "QUERYRANGE requires <collection> <index_name> <start> <end>")
  (index_name, rest) ← first_word rest (text "QUERYRANGE requires <index_name>")
  (start, rest) ← first_word rest (text "QUERYRANGE requires <start>")
  expect (not (is_empty rest)) (text "QUERYRANGE requires <end>")
  ok (query_range collection index_name start rest)
