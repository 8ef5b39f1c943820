-- ===== src/Protocol/Parser.antt =====
-- `parse_command` of grumpydb-protocol/src/parser.rs: the line, the consistency prefix and the verb.
use grumpydb.Prelude.{
  ℕ, not, none, some, Option, List, [], ◌∷◌, ok, err, ◌>>=◌, ◌>>◌, require, ltb, if◌then◌else◌,
}
use grumpydb.Prelude.Map.{is_same}
use grumpydb.Protocol.Text.{Text, text, trim, trim_newlines, is_empty, byte_len, to_ascii_uppercase}
use grumpydb.Protocol.Command.{
  Command, with_consistency, token, refresh, who_am_i, topology, snapshot_hlc, use_database, ping,
  quit, compact, flush, count,
}
use grumpydb.Protocol.Words.{
  Parsed, empty, unknown_command, line_too_long, require_arg, split_first_word,
  parse_consistency_prefix,
}
use grumpydb.Protocol.Documents.{
  parse_insert, parse_get, parse_update, parse_delete, parse_put_with_vc, parse_scan, parse_query,
  parse_queryrange,
}
use grumpydb.Protocol.Admin.{
  parse_login, parse_create, parse_drop, parse_list, parse_alter, parse_show, parse_schema,
}
use grumpydb.Protocol.Cluster.{parse_elect_writer, parse_rebalance, parse_grant, parse_revoke}

abbrev pub max_line_length : ℕ
max_line_length = 1048576

-- the arms of the `match` on a verb
pub data Verb : Type 0 where
  verb_login verb_token verb_refresh verb_who_am_i verb_topology verb_snapshot_hlc : Verb
  verb_use verb_ping verb_quit verb_create verb_drop verb_list verb_alter verb_show : Verb
  verb_schema verb_grant verb_revoke verb_elect_writer verb_rebalance verb_insert : Verb
  verb_get verb_update verb_delete verb_put_with_vc verb_scan verb_query : Verb
  verb_queryrange verb_compact verb_flush verb_count : Verb

verbs : List (Text × Verb)
verbs =
    (text "LOGIN", verb_login)
    ∷ (text "TOKEN", verb_token)
    ∷ (text "REFRESH", verb_refresh)
    ∷ (text "WHOAMI", verb_who_am_i)
    ∷ (text "TOPOLOGY", verb_topology)
    ∷ (text "SNAPSHOT_HLC", verb_snapshot_hlc)
    ∷ (text "SNAPSHOT-HLC", verb_snapshot_hlc)
    ∷ (text "USE", verb_use)
    ∷ (text "PING", verb_ping)
    ∷ (text "QUIT", verb_quit)
    ∷ (text "CREATE", verb_create)
    ∷ (text "DROP", verb_drop)
    ∷ (text "LIST", verb_list)
    ∷ (text "ALTER", verb_alter)
    ∷ (text "SHOW", verb_show)
    ∷ (text "SCHEMA", verb_schema)
    ∷ (text "GRANT", verb_grant)
    ∷ (text "REVOKE", verb_revoke)
    ∷ (text "ELECT-WRITER", verb_elect_writer)
    ∷ (text "ELECT_WRITER", verb_elect_writer)
    ∷ (text "REBALANCE", verb_rebalance)
    ∷ (text "INSERT", verb_insert)
    ∷ (text "GET", verb_get)
    ∷ (text "UPDATE", verb_update)
    ∷ (text "DELETE", verb_delete)
    ∷ (text "PUT_WITH_VC", verb_put_with_vc)
    ∷ (text "SCAN", verb_scan)
    ∷ (text "QUERY", verb_query)
    ∷ (text "QUERYRANGE", verb_queryrange)
    ∷ (text "COMPACT", verb_compact)
    ∷ (text "FLUSH", verb_flush)
    ∷ (text "COUNT", verb_count)
    ∷ []

find_verb : List (Text × Verb) → Text → Option Verb
find_verb [] word = none
find_verb ((name, verb) ∷ more) word = if is_same word name then some verb else find_verb more word

parse_verb : Verb → Text → Parsed Command
parse_verb verb_login rest = parse_login rest
parse_verb verb_token rest = do jwt ← require_arg rest (text "TOKEN") (text "jwt"); ok (token jwt)
parse_verb verb_refresh rest = do
  refresh_token ← require_arg rest (text "REFRESH") (text "refresh_token")
  ok (refresh refresh_token)
parse_verb verb_who_am_i rest = ok who_am_i
parse_verb verb_topology rest = ok topology
parse_verb verb_snapshot_hlc rest = ok snapshot_hlc
parse_verb verb_use rest = do
  db ← require_arg rest (text "USE") (text "database")
  ok (use_database db)
parse_verb verb_ping rest = ok ping
parse_verb verb_quit rest = ok quit
parse_verb verb_create rest = parse_create rest
parse_verb verb_drop rest = parse_drop rest
parse_verb verb_list rest = parse_list rest
parse_verb verb_alter rest = parse_alter rest
parse_verb verb_show rest = parse_show rest
parse_verb verb_schema rest = parse_schema rest
parse_verb verb_grant rest = parse_grant rest
parse_verb verb_revoke rest = parse_revoke rest
parse_verb verb_elect_writer rest = parse_elect_writer rest
parse_verb verb_rebalance rest = parse_rebalance rest
parse_verb verb_insert rest = parse_insert rest
parse_verb verb_get rest = parse_get rest
parse_verb verb_update rest = parse_update rest
parse_verb verb_delete rest = parse_delete rest
parse_verb verb_put_with_vc rest = parse_put_with_vc rest
parse_verb verb_scan rest = parse_scan rest
parse_verb verb_query rest = parse_query rest
parse_verb verb_queryrange rest = parse_queryrange rest
parse_verb verb_compact rest = do
  coll ← require_arg rest (text "COMPACT") (text "collection")
  ok (compact coll)
parse_verb verb_flush rest = ok flush
parse_verb verb_count rest = do
  coll ← require_arg rest (text "COUNT") (text "collection")
  ok (count coll)

unfoldable pub parse_word : Text → Text → Parsed Command
unfolding find_verb verbs parse_verb
parse_word verb rest = elim (find_verb verbs (to_ascii_uppercase verb)) [
  | none ↦ err (unknown_command verb)
  | some v ↦ parse_verb v rest
]

-- the command without its consistency prefix
unfoldable pub parse_base : Text → Parsed Command
parse_base trimmed = let p = split_first_word trimmed in parse_word p.0 p.1

unfoldable pub wrap : Option ℕ → Option ℕ → Command → Command
wrap none none base = base
wrap r w base = with_consistency r w base

unfoldable pub parse_command : Text → Parsed Command
unfolding wrap
parse_command line = do
  let line = trim_newlines line
  require (not (ltb max_line_length (byte_len line))) (line_too_long (byte_len line))
  let trimmed = trim line
  require (not (is_empty trimmed)) empty
  (rest, r, w) ← parse_consistency_prefix trimmed
  base ← parse_base rest
  ok (wrap r w base)
