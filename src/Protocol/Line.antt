-- ===== src/Protocol/Line.antt =====
-- The grammar of the lines that grumpydb-protocol/src/parser.rs documents in its messages: the line
-- of a command, and the arguments that the line can hold.
pub mod Documents
pub mod Admin
pub mod Concerns
pub mod Verbs
pub mod RoundTrip
pub mod Cluster
use grumpydb.Prelude.{ℕ, ◌^◌, ◌<◌, ◌≡◌, false, Option, none, some, [], ◌∷◌, ◌++◌}
use grumpydb.Protocol.Text.{Text, text, is_empty}
use grumpydb.Protocol.Decimal.{decimal}
use grumpydb.Protocol.Command.{
  Command, with_consistency, login, token, refresh, who_am_i, topology, snapshot_hlc,
  schema_version, schema_status, use_database, ping, quit, create_database, drop_database,
  list_databases, set_database_consistency, reset_database_consistency, show_database_consistency,
  create_collection, drop_collection, list_collections, insert, get, update, delete, put_with_vc,
  scan, create_index, drop_index, list_indexes, query, query_range, compact, flush, count,
  create_user, drop_user, list_users, grant, revoke, create_tenant, drop_tenant, list_tenants,
  elect_writer, plan_rebalance_add_node, plan_rebalance_remove_node, execute_rebalance_add_node,
  execute_rebalance_remove_node,
}
use grumpydb.Protocol.Wire.{IsWord, IsArg, lead, lead_arg}

-- ` READ_CONCERN R=<n>` and ` WRITE_CONCERN W=<n>`, where they are there, and what follows
abbrev pub read_concern : Option ℕ → Text → Text
read_concern none rest = rest
read_concern (some n) rest = lead (text "READ_CONCERN") (lead (b'R' ∷ (b'=' ∷ decimal n)) rest)

abbrev pub write_concern : Option ℕ → Text → Text
write_concern none rest = rest
write_concern (some n) rest = lead (text "WRITE_CONCERN") (lead (b'W' ∷ (b'=' ∷ decimal n)) rest)

abbrev pub concerns : Option ℕ → Option ℕ → Text → Text
concerns r w rest = read_concern r (write_concern w rest)

unfoldable pub verb_text : Command → Text
verb_text (with_consistency r w command) = verb_text command
verb_text (login t u p) = text "LOGIN"
verb_text (token t) = text "TOKEN"
verb_text (refresh t) = text "REFRESH"
verb_text who_am_i = text "WHOAMI"
verb_text topology = text "TOPOLOGY"
verb_text snapshot_hlc = text "SNAPSHOT_HLC"
verb_text schema_version = text "SCHEMA"
verb_text schema_status = text "SCHEMA"
verb_text (use_database d) = text "USE"
verb_text ping = text "PING"
verb_text quit = text "QUIT"
verb_text (create_database d) = text "CREATE"
verb_text (drop_database d) = text "DROP"
verb_text list_databases = text "LIST"
verb_text (set_database_consistency d r w) = text "ALTER"
verb_text (reset_database_consistency d) = text "ALTER"
verb_text (show_database_consistency d) = text "SHOW"
verb_text (create_collection c) = text "CREATE"
verb_text (drop_collection c) = text "DROP"
verb_text list_collections = text "LIST"
verb_text (insert c k v) = text "INSERT"
verb_text (get c k) = text "GET"
verb_text (update c k v) = text "UPDATE"
verb_text (delete c k) = text "DELETE"
verb_text (put_with_vc c k v vc) = text "PUT_WITH_VC"
verb_text (scan c s e) = text "SCAN"
verb_text (create_index c i f) = text "CREATE"
verb_text (drop_index c i) = text "DROP"
verb_text (list_indexes c) = text "LIST"
verb_text (query c i v) = text "QUERY"
verb_text (query_range c i s e) = text "QUERYRANGE"
verb_text (compact c) = text "COMPACT"
verb_text flush = text "FLUSH"
verb_text (count c) = text "COUNT"
verb_text (create_user u p) = text "CREATE"
verb_text (drop_user u) = text "DROP"
verb_text (list_users t) = text "LIST"
verb_text (grant r o u) = text "GRANT"
verb_text (revoke r o u) = text "REVOKE"
verb_text (create_tenant t) = text "CREATE"
verb_text (drop_tenant t) = text "DROP"
verb_text list_tenants = text "LIST"
verb_text (elect_writer n d c) = text "ELECT-WRITER"
verb_text (plan_rebalance_add_node n) = text "REBALANCE"
verb_text (plan_rebalance_remove_node n) = text "REBALANCE"
verb_text (execute_rebalance_add_node n c) = text "REBALANCE"
verb_text (execute_rebalance_remove_node n c) = text "REBALANCE"

-- what follows the verb
unfoldable pub args : Command → Text
args (with_consistency r w command) = args command
args (login t u p) = lead t (lead u p)
args (token t) = t
args (refresh t) = t
args who_am_i = []
args topology = []
args snapshot_hlc = []
args schema_version = text "VERSION"
args schema_status = text "STATUS"
args (use_database d) = d
args ping = []
args quit = []
args (create_database d) = lead (text "DATABASE") d
args (drop_database d) = lead (text "DATABASE") d
args list_databases = text "DATABASES"
args (set_database_consistency d r w) =
    lead (text "DATABASE")
      (lead d (lead (text "SET") (lead (text "CONSISTENCY") (concerns r w []))))
args (reset_database_consistency d) =
    lead (text "DATABASE") (lead d (lead (text "RESET") (text "CONSISTENCY")))
args (show_database_consistency d) = lead (text "DATABASE") (lead d (text "CONSISTENCY"))
args (create_collection c) = lead (text "COLLECTION") c
args (drop_collection c) = lead (text "COLLECTION") c
args list_collections = text "COLLECTIONS"
args (insert c k v) = lead c (lead k v)
args (get c k) = lead c k
args (update c k v) = lead c (lead k v)
args (delete c k) = lead c k
args (put_with_vc c k v vc) = lead c (lead k (lead_arg v vc))
args (scan c none none) = c
args (scan c (some s) (some e)) = lead c (lead s e)
args (scan c none (some e)) = c
args (scan c (some s) none) = c
args (create_index c i f) = lead (text "INDEX") (lead c (lead i f))
args (drop_index c i) = lead (text "INDEX") (lead c i)
args (list_indexes c) = lead (text "INDEXES") c
args (query c i v) = lead c (lead i v)
args (query_range c i s e) = lead c (lead i (lead s e))
args (compact c) = c
args flush = []
args (count c) = c
args (create_user u p) = lead (text "USER") (lead u p)
args (drop_user u) = lead (text "USER") u
args (list_users none) = text "USERS"
args (list_users (some t)) = lead (text "USERS") t
args (grant r o u) = lead r (lead (text "ON") (lead o (lead (text "TO") u)))
args (revoke r o u) = lead r (lead (text "ON") (lead o (lead (text "FROM") u)))
args (create_tenant t) = lead (text "TENANT") t
args (drop_tenant t) = lead (text "TENANT") t
args list_tenants = text "TENANTS"
args (elect_writer n d none) = lead n d
args (elect_writer n d (some c)) = lead n (lead d c)
args (plan_rebalance_add_node n) = lead (text "PLAN") (lead (text "ADD-NODE") n)
args (plan_rebalance_remove_node n) = lead (text "PLAN") (lead (text "REMOVE-NODE") n)
args (execute_rebalance_add_node n c) = lead (text "EXECUTE") (lead (text "ADD-NODE") (lead n c))
args (execute_rebalance_remove_node n c) =
    lead (text "EXECUTE") (lead (text "REMOVE-NODE") (lead n c))

-- a concern of 16 bits, and one of two at least
abbrev pub IsConcern : Option ℕ → Type 0
IsConcern none = Unit
IsConcern (some n) = n < 2 ^ 16

abbrev pub IsSome : Option ℕ → Option ℕ → Type 0
IsSome none none = ⊥
IsSome _ _ = Unit

-- A command without a prefix, whose arguments a line can hold.
abbrev pub IsPlain : Command → Type 0
IsPlain (with_consistency r w command) = ⊥
IsPlain (login t u p) = IsWord t × IsWord u × IsArg p
IsPlain (token t) = IsArg t
IsPlain (refresh t) = IsArg t
IsPlain who_am_i = Unit
IsPlain topology = Unit
IsPlain snapshot_hlc = Unit
IsPlain schema_version = Unit
IsPlain schema_status = Unit
IsPlain (use_database d) = IsArg d
IsPlain ping = Unit
IsPlain quit = Unit
IsPlain (create_database d) = IsArg d
IsPlain (drop_database d) = IsArg d
IsPlain list_databases = Unit
IsPlain (set_database_consistency d r w) = IsWord d × IsConcern r × IsConcern w × IsSome r w
IsPlain (reset_database_consistency d) = IsWord d
IsPlain (show_database_consistency d) = IsWord d
IsPlain (create_collection c) = IsArg c
IsPlain (drop_collection c) = IsArg c
IsPlain list_collections = Unit
IsPlain (insert c k v) = IsWord c × IsWord k × IsArg v
IsPlain (get c k) = IsWord c × IsWord k
IsPlain (update c k v) = IsWord c × IsWord k × IsArg v
IsPlain (delete c k) = IsWord c × IsWord k
IsPlain (put_with_vc c k v vc) = IsWord c × IsWord k × IsArg v × IsWord vc
IsPlain (scan c none none) = IsWord c
IsPlain (scan c (some s) (some e)) = IsWord c × IsWord s × IsWord e
IsPlain (scan c none (some e)) = ⊥
IsPlain (scan c (some s) none) = ⊥
IsPlain (create_index c i f) = IsWord c × IsWord i × IsArg f
IsPlain (drop_index c i) = IsWord c × IsArg i
IsPlain (list_indexes c) = IsArg c
IsPlain (query c i v) = IsWord c × IsWord i × IsArg v
IsPlain (query_range c i s e) = IsWord c × IsWord i × IsWord s × IsArg e
IsPlain (compact c) = IsArg c
IsPlain flush = Unit
IsPlain (count c) = IsArg c
IsPlain (create_user u p) = IsWord u × IsArg p
IsPlain (drop_user u) = IsArg u
IsPlain (list_users none) = Unit
IsPlain (list_users (some t)) = IsArg t
IsPlain (grant r o u) = IsWord r × IsWord o × IsWord u
IsPlain (revoke r o u) = IsWord r × IsWord o × IsWord u
IsPlain (create_tenant t) = IsArg t
IsPlain (drop_tenant t) = IsArg t
IsPlain list_tenants = Unit
IsPlain (elect_writer n d none) = IsWord n × IsWord d
IsPlain (elect_writer n d (some c)) = IsWord n × IsWord d × IsWord c
IsPlain (plan_rebalance_add_node n) = IsWord n
IsPlain (plan_rebalance_remove_node n) = IsWord n
IsPlain (execute_rebalance_add_node n c) = IsWord n × IsWord c
IsPlain (execute_rebalance_remove_node n c) = IsWord n × IsWord c

abbrev pub IsWire : Command → Type 0
IsWire (with_consistency r w command) = IsConcern r × IsConcern w × IsSome r w × IsPlain command
IsWire command = IsPlain command

abbrev pub plain_line : Command → Text
plain_line c = lead (verb_text c) (args c)

-- the line of a command
unfoldable pub line_of : Command → Text
unfolding verb_text args
line_of (with_consistency r w command) = concerns r w (plain_line command)
line_of command = plain_line command
