-- ===== src/Protocol/Cluster.antt =====
-- grumpydb-protocol/src/parser.rs: the arguments of GRANT and REVOKE, and of the commands on the
-- cluster.
use grumpydb.Prelude.{◌||◌, ◌&&◌, none, some, ok, err, ◌>>=◌, ◌>>◌, if◌then◌else◌}
use grumpydb.Prelude.Map.{is_same}
use grumpydb.Protocol.Text.{Text, text, is_empty, to_ascii_uppercase, eq_ignore_ascii_case}
use grumpydb.Protocol.Command.{
  Command, grant, revoke, elect_writer, plan_rebalance_add_node, plan_rebalance_remove_node,
  execute_rebalance_add_node, execute_rebalance_remove_node,
}
use grumpydb.Protocol.Words.{
  Parsed, missing_argument, expect, require_arg, first_word, split_first_word,
}

unfoldable pub parse_elect_writer : Text → Parsed Command
parse_elect_writer rest = do
  (node_id, rest) ← first_word rest (text "ELECT-WRITER requires <node_id> <database> [collection]")
  (database, rest) ← first_word rest (text "ELECT-WRITER requires <database>")
  ok (
      elect_writer node_id database
        (if is_empty rest then none else some (split_first_word rest).0))

plan : Text → (Text → Command) → Text → Parsed Command
plan rest command name = do
  node_id ← require_arg rest name (text "node_id")
  ok (command (split_first_word node_id).0)

execute : Text → (Text → Text → Command) → Text → Text → Parsed Command
execute rest command name message = do
  (node_id, rest) ← first_word rest message
  collection ← require_arg rest name (text "collection")
  ok (command node_id (split_first_word collection).0)

unfoldable pub parse_rebalance : Text → Parsed Command
unfolding plan execute
parse_rebalance rest =
    let p = split_first_word rest in
    let q = split_first_word p.1 in
    let mode = to_ascii_uppercase p.0 in
    let target = to_ascii_uppercase q.0 in
    let is_add = is_same target (text "ADD-NODE") || is_same target (text "ADD_NODE") in
    let is_remove = is_same target (text "REMOVE-NODE") || is_same target (text "REMOVE_NODE") in
    if is_same mode (text "PLAN") && is_add
    then plan q.1 plan_rebalance_add_node (text "REBALANCE PLAN ADD-NODE")
    else if is_same mode (text "PLAN") && is_remove
    then plan q.1 plan_rebalance_remove_node (text "REBALANCE PLAN REMOVE-NODE")
    else if is_same mode (text "EXECUTE") && is_add
    then execute q.1 execute_rebalance_add_node (text "REBALANCE EXECUTE ADD-NODE")
        (text "REBALANCE EXECUTE ADD-NODE requires <node_id> <collection>")
    else if is_same mode (text "EXECUTE") && is_remove
    then execute q.1 execute_rebalance_remove_node (text "REBALANCE EXECUTE REMOVE-NODE")
        (text "REBALANCE EXECUTE REMOVE-NODE requires <node_id> <collection>")
    else err (missing_argument (text "REBALANCE requires PLAN|EXECUTE and ADD-NODE|REMOVE-NODE"))

unfoldable pub parse_grant : Text → Parsed Command
parse_grant rest = do
  (role, rest) ← first_word rest (text "GRANT requires <role> ON <resource> TO <username>")
  let on_kw = split_first_word rest
  expect (eq_ignore_ascii_case on_kw.0 (text "ON"))
      (text "GRANT syntax: GRANT <role> ON <resource> TO <username>")
  (resource, rest) ← first_word on_kw.1 (text "GRANT requires <resource>")
  let to_kw = split_first_word rest
  expect (eq_ignore_ascii_case to_kw.0 (text "TO"))
      (text "GRANT syntax: GRANT <role> ON <resource> TO <username>")
  username ← require_arg to_kw.1 (text "GRANT") (text "username")
  ok (grant role resource (split_first_word username).0)

unfoldable pub parse_revoke : Text → Parsed Command
parse_revoke rest = do
  (role, rest) ← first_word rest (text "REVOKE requires <role> ON <resource> FROM <username>")
  let on_kw = split_first_word rest
  expect (eq_ignore_ascii_case on_kw.0 (text "ON"))
      (text "REVOKE syntax: REVOKE <role> ON <resource> FROM <username>")
  (resource, rest) ← first_word on_kw.1 (text "REVOKE requires <resource>")
  let from_kw = split_first_word rest
  expect (eq_ignore_ascii_case from_kw.0 (text "FROM"))
      (text "REVOKE syntax: REVOKE <role> ON <resource> FROM <username>")
  username ← require_arg from_kw.1 (text "REVOKE") (text "username")
  ok (revoke role resource (split_first_word username).0)
