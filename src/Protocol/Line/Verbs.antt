-- ===== src/Protocol/Line/Verbs.antt =====
-- What stands on the line of a command, and what the verbs make of it:
-- grumpydb-protocol/src/parser.rs.
use grumpydb.Prelude.{◌≡◌, refl, none, some, [], ok}
use grumpydb.Protocol.Text.{text, is_whitespace, to_ascii_uppercase}
use grumpydb.Protocol.Command.{
  Command, with_consistency, login, token, refresh, who_am_i, topology, snapshot_hlc,
  schema_version, schema_status, use_database, ping, quit, create_database, drop_database,
  list_databases, set_database_consistency, reset_database_consistency, show_database_consistency,
  create_collection, drop_collection, list_collections, insert, get, update, delete, put_with_vc,
  scan, create_index, drop_index, list_indexes, query, query_range, compact, flush, count,
  create_user, drop_user, list_users, grant, revoke, create_tenant, drop_tenant, list_tenants,
  elect_writer, plan_rebalance_add_node, plan_rebalance_remove_node, execute_rebalance_add_node,
  execute_rebalance_remove_node,
}
use grumpydb.Protocol.Wire.{
  IsWord, IsTrimmed, lead, lead_arg, IsArg-lead_arg, IsWord-IsTrimmed, IsTrimmed-lead,
  require_arg-IsArg,
}
use grumpydb.Protocol.Parser.{parse_word}
use grumpydb.Protocol.Line.{IsPlain, verb_text, args, concerns}
use grumpydb.Protocol.Line.Concerns.{concerns-IsTrimmed}
use grumpydb.Protocol.Line.Documents.{
  parse_insert_lem, parse_update_lem, parse_query_lem, parse_queryrange_lem, parse_put_with_vc_lem,
  parse_get_lem, parse_delete_lem, parse_scan_lem, parse_scan_all,
}
use grumpydb.Protocol.Line.Admin.{
  parse_login_lem, create_database_line, create_collection_line, create_tenant_line,
  drop_database_line, drop_collection_line, drop_user_line, drop_tenant_line, list_indexes_line,
  list_users_line, list_databases_line, list_collections_line, list_tenants_line,
  schema_version_line, schema_status_line, list_users_all, create_user_line, drop_index_line,
  create_index_line, show_line, reset_line, set_line,
}
use grumpydb.Protocol.Line.Cluster.{
  elect_database_line, elect_collection_line, execute_add_line, execute_remove_line, plan_add_line,
  plan_remove_line, grant_line, revoke_line,
}

pub verb_text-IsWord : (c : Command) → IsPlain c → IsWord (verb_text c)
unfolding verb_text text is_whitespace
verb_text-IsWord (with_consistency r w c) h = absurd h
verb_text-IsWord _ h = (refl, refl)

pub args-IsTrimmed : (c : Command) → IsPlain c → IsTrimmed (args c)
unfolding args text is_whitespace
args-IsTrimmed (with_consistency r w c) h = absurd h
args-IsTrimmed (login t u p) h = IsTrimmed-lead t (lead u p) h.0 (IsTrimmed-lead u p h.1 h.2.1)
args-IsTrimmed (token t) h = h.1
args-IsTrimmed (refresh t) h = h.1
args-IsTrimmed who_am_i h = (tt, tt)
args-IsTrimmed topology h = (tt, tt)
args-IsTrimmed snapshot_hlc h = (tt, tt)
args-IsTrimmed schema_version h = (refl, refl)
args-IsTrimmed schema_status h = (refl, refl)
args-IsTrimmed (use_database d) h = h.1
args-IsTrimmed ping h = (tt, tt)
args-IsTrimmed quit h = (tt, tt)
args-IsTrimmed (create_database d) h = IsTrimmed-lead (text "DATABASE") d (refl, refl) h.1
args-IsTrimmed (drop_database d) h = IsTrimmed-lead (text "DATABASE") d (refl, refl) h.1
args-IsTrimmed list_databases h = (refl, refl)
args-IsTrimmed (set_database_consistency d r w) h =
    IsTrimmed-lead (text "DATABASE")
      (lead d (lead (text "SET") (lead (text "CONSISTENCY") (concerns r w [])))) (refl, refl)
      (IsTrimmed-lead d (lead (text "SET") (lead (text "CONSISTENCY") (concerns r w []))) h.0 (
        IsTrimmed-lead (text "SET") (lead (text "CONSISTENCY") (concerns r w [])) (refl, refl)
          (IsTrimmed-lead (text "CONSISTENCY") (concerns r w []) (refl, refl)
            (concerns-IsTrimmed r w [] (tt, tt)))))
args-IsTrimmed (reset_database_consistency d) h =
    IsTrimmed-lead (text "DATABASE") (lead d (lead (text "RESET") (text "CONSISTENCY")))
      (refl, refl)
      (IsTrimmed-lead d (lead (text "RESET") (text "CONSISTENCY")) h
        (IsTrimmed-lead (text "RESET") (text "CONSISTENCY") (refl, refl) (refl, refl)))
args-IsTrimmed (show_database_consistency d) h =
    IsTrimmed-lead (text "DATABASE") (lead d (text "CONSISTENCY")) (refl, refl)
      (IsTrimmed-lead d (text "CONSISTENCY") h (refl, refl))
args-IsTrimmed (create_collection c) h = IsTrimmed-lead (text "COLLECTION") c (refl, refl) h.1
args-IsTrimmed (drop_collection c) h = IsTrimmed-lead (text "COLLECTION") c (refl, refl) h.1
args-IsTrimmed list_collections h = (refl, refl)
args-IsTrimmed (insert c k v) h = IsTrimmed-lead c (lead k v) h.0 (IsTrimmed-lead k v h.1 h.2.1)
args-IsTrimmed (get c k) h = IsTrimmed-lead c k h.0 (IsWord-IsTrimmed k h.1)
args-IsTrimmed (update c k v) h = IsTrimmed-lead c (lead k v) h.0 (IsTrimmed-lead k v h.1 h.2.1)
args-IsTrimmed (delete c k) h = IsTrimmed-lead c k h.0 (IsWord-IsTrimmed k h.1)
args-IsTrimmed (put_with_vc c k v vc) h =
    IsTrimmed-lead c (lead k (lead_arg v vc)) h.0
      (IsTrimmed-lead k (lead_arg v vc) h.1 (IsArg-lead_arg v vc h.2 h.3).1)
args-IsTrimmed (scan c none none) h = IsWord-IsTrimmed c h
args-IsTrimmed (scan c (some s) (some e)) h =
    IsTrimmed-lead c (lead s e) h.0 (IsTrimmed-lead s e h.1 (IsWord-IsTrimmed e h.2))
args-IsTrimmed (scan c none (some e)) h = absurd h
args-IsTrimmed (scan c (some s) none) h = absurd h
args-IsTrimmed (create_index c i f) h =
    IsTrimmed-lead (text "INDEX") (lead c (lead i f)) (refl, refl)
      (IsTrimmed-lead c (lead i f) h.0 (IsTrimmed-lead i f h.1 h.2.1))
args-IsTrimmed (drop_index c i) h =
    IsTrimmed-lead (text "INDEX") (lead c i) (refl, refl) (IsTrimmed-lead c i h.0 h.1.1)
args-IsTrimmed (list_indexes c) h = IsTrimmed-lead (text "INDEXES") c (refl, refl) h.1
args-IsTrimmed (query c i v) h = IsTrimmed-lead c (lead i v) h.0 (IsTrimmed-lead i v h.1 h.2.1)
args-IsTrimmed (query_range c i s e) h =
    IsTrimmed-lead c (lead i (lead s e)) h.0
      (IsTrimmed-lead i (lead s e) h.1 (IsTrimmed-lead s e h.2 h.3.1))
args-IsTrimmed (compact c) h = h.1
args-IsTrimmed flush h = (tt, tt)
args-IsTrimmed (count c) h = h.1
args-IsTrimmed (create_user u p) h =
    IsTrimmed-lead (text "USER") (lead u p) (refl, refl) (IsTrimmed-lead u p h.0 h.1.1)
args-IsTrimmed (drop_user u) h = IsTrimmed-lead (text "USER") u (refl, refl) h.1
args-IsTrimmed (list_users none) h = (refl, refl)
args-IsTrimmed (list_users (some t)) h = IsTrimmed-lead (text "USERS") t (refl, refl) h.1
args-IsTrimmed (grant r o u) h =
    IsTrimmed-lead r (lead (text "ON") (lead o (lead (text "TO") u))) h.0 (
      IsTrimmed-lead (text "ON") (lead o (lead (text "TO") u)) (refl, refl)
        (IsTrimmed-lead o (lead (text "TO") u) h.1
          (IsTrimmed-lead (text "TO") u (refl, refl) (IsWord-IsTrimmed u h.2))))
args-IsTrimmed (revoke r o u) h =
    IsTrimmed-lead r (lead (text "ON") (lead o (lead (text "FROM") u))) h.0 (
      IsTrimmed-lead (text "ON") (lead o (lead (text "FROM") u)) (refl, refl)
        (IsTrimmed-lead o (lead (text "FROM") u) h.1
          (IsTrimmed-lead (text "FROM") u (refl, refl) (IsWord-IsTrimmed u h.2))))
args-IsTrimmed (create_tenant t) h = IsTrimmed-lead (text "TENANT") t (refl, refl) h.1
args-IsTrimmed (drop_tenant t) h = IsTrimmed-lead (text "TENANT") t (refl, refl) h.1
args-IsTrimmed list_tenants h = (refl, refl)
args-IsTrimmed (elect_writer n d none) h = IsTrimmed-lead n d h.0 (IsWord-IsTrimmed d h.1)
args-IsTrimmed (elect_writer n d (some c)) h =
    IsTrimmed-lead n (lead d c) h.0 (IsTrimmed-lead d c h.1 (IsWord-IsTrimmed c h.2))
args-IsTrimmed (plan_rebalance_add_node n) h =
    IsTrimmed-lead (text "PLAN") (lead (text "ADD-NODE") n) (refl, refl)
      (IsTrimmed-lead (text "ADD-NODE") n (refl, refl) (IsWord-IsTrimmed n h))
args-IsTrimmed (plan_rebalance_remove_node n) h =
    IsTrimmed-lead (text "PLAN") (lead (text "REMOVE-NODE") n) (refl, refl)
      (IsTrimmed-lead (text "REMOVE-NODE") n (refl, refl) (IsWord-IsTrimmed n h))
args-IsTrimmed (execute_rebalance_add_node n c) h =
    IsTrimmed-lead (text "EXECUTE") (lead (text "ADD-NODE") (lead n c)) (refl, refl)
      (IsTrimmed-lead (text "ADD-NODE") (lead n c) (refl, refl)
        (IsTrimmed-lead n c h.0 (IsWord-IsTrimmed c h.1)))
args-IsTrimmed (execute_rebalance_remove_node n c) h =
    IsTrimmed-lead (text "EXECUTE") (lead (text "REMOVE-NODE") (lead n c)) (refl, refl)
      (IsTrimmed-lead (text "REMOVE-NODE") (lead n c) (refl, refl)
        (IsTrimmed-lead n c h.0 (IsWord-IsTrimmed c h.1)))

pub parse_word-line : (c : Command) → IsPlain c → parse_word (verb_text c) (args c) ≡ ok c
unfolding parse_word verb_text args text to_ascii_uppercase
parse_word-line (with_consistency r w c) h = absurd h
parse_word-line (login t u p) h = parse_login_lem t u p h.0 h.1 h.2
parse_word-line (token t) h = rw (require_arg-IsArg t (text "TOKEN") (text "jwt") h.0) refl
parse_word-line (refresh t) h =
    rw (require_arg-IsArg t (text "REFRESH") (text "refresh_token") h.0) refl
parse_word-line who_am_i h = refl
parse_word-line topology h = refl
parse_word-line snapshot_hlc h = refl
parse_word-line schema_version h = schema_version_line
parse_word-line schema_status h = schema_status_line
parse_word-line (use_database d) h =
    rw (require_arg-IsArg d (text "USE") (text "database") h.0) refl
parse_word-line ping h = refl
parse_word-line quit h = refl
parse_word-line (create_database d) h = create_database_line d h
parse_word-line (drop_database d) h = drop_database_line d h
parse_word-line list_databases h = list_databases_line
parse_word-line (set_database_consistency d r w) h = set_line d h.0 r w h.1 h.2 h.3
parse_word-line (reset_database_consistency d) h = reset_line d h
parse_word-line (show_database_consistency d) h = show_line d h
parse_word-line (create_collection c) h = create_collection_line c h
parse_word-line (drop_collection c) h = drop_collection_line c h
parse_word-line list_collections h = list_collections_line
parse_word-line (insert c k v) h = parse_insert_lem c k h.0 h.1 v h.2
parse_word-line (get c k) h = parse_get_lem c k h.0 h.1
parse_word-line (update c k v) h = parse_update_lem c k h.0 h.1 v h.2
parse_word-line (delete c k) h = parse_delete_lem c k h.0 h.1
parse_word-line (put_with_vc c k v vc) h = parse_put_with_vc_lem c k h.0 h.1 v vc h.2 h.3
parse_word-line (scan c none none) h = parse_scan_all c h
parse_word-line (scan c (some s) (some e)) h = parse_scan_lem c s h.0 h.1 e h.2
parse_word-line (scan c none (some e)) h = absurd h
parse_word-line (scan c (some s) none) h = absurd h
parse_word-line (create_index c i f) h = create_index_line c h.0 i f h.1 h.2
parse_word-line (drop_index c i) h = drop_index_line c h.0 i h.1
parse_word-line (list_indexes c) h = list_indexes_line c h
parse_word-line (query c i v) h = parse_query_lem c i h.0 h.1 v h.2
parse_word-line (query_range c i s e) h = parse_queryrange_lem c i h.0 h.1 s e h.2 h.3
parse_word-line (compact c) h =
    rw (require_arg-IsArg c (text "COMPACT") (text "collection") h.0) refl
parse_word-line flush h = refl
parse_word-line (count c) h = rw (require_arg-IsArg c (text "COUNT") (text "collection") h.0) refl
parse_word-line (create_user u p) h = create_user_line u h.0 p h.1
parse_word-line (drop_user u) h = drop_user_line u h
parse_word-line (list_users none) h = list_users_all
parse_word-line (list_users (some t)) h = list_users_line t h
parse_word-line (grant r o u) h = grant_line r o u h.0 h.1 h.2
parse_word-line (revoke r o u) h = revoke_line r o u h.0 h.1 h.2
parse_word-line (create_tenant t) h = create_tenant_line t h
parse_word-line (drop_tenant t) h = drop_tenant_line t h
parse_word-line list_tenants h = list_tenants_line
parse_word-line (elect_writer n d none) h = elect_database_line n d h.0 h.1
parse_word-line (elect_writer n d (some c)) h = elect_collection_line n d h.0 h.1 c h.2
parse_word-line (plan_rebalance_add_node n) h = plan_add_line n h
parse_word-line (plan_rebalance_remove_node n) h = plan_remove_line n h
parse_word-line (execute_rebalance_add_node n c) h = execute_add_line n c h.0 h.1
parse_word-line (execute_rebalance_remove_node n c) h = execute_remove_line n c h.0 h.1
