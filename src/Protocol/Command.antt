-- ===== src/Protocol/Command.antt =====
-- grumpydb-protocol/src/command.rs: the commands, and what each of them asks for.
use grumpydb.Prelude.{ℕ, Bool, true, false, Option, none, some, []}
use grumpydb.Protocol.Text.{Text}

pub data Command : Type 0 where
  with_consistency : Option ℕ → Option ℕ → Command → Command
  login : Text → Text → Text → Command
  token refresh : Text → Command
  who_am_i topology snapshot_hlc schema_version schema_status : Command
  use_database : Text → Command
  ping quit : Command
  create_database drop_database : Text → Command
  list_databases : Command
  set_database_consistency : Text → Option ℕ → Option ℕ → Command
  reset_database_consistency show_database_consistency : Text → Command
  create_collection drop_collection : Text → Command
  list_collections : Command
  insert : Text → Text → Text → Command
  get : Text → Text → Command
  update : Text → Text → Text → Command
  delete : Text → Text → Command
  put_with_vc : Text → Text → Text → Text → Command
  scan : Text → Option Text → Option Text → Command
  create_index : Text → Text → Text → Command
  drop_index : Text → Text → Command
  list_indexes : Text → Command
  query : Text → Text → Text → Command
  query_range : Text → Text → Text → Text → Command
  compact : Text → Command
  flush : Command
  count : Text → Command
  create_user : Text → Text → Command
  drop_user : Text → Command
  list_users : Option Text → Command
  grant revoke : Text → Text → Text → Command
  create_tenant drop_tenant : Text → Command
  list_tenants : Command
  elect_writer : Text → Text → Option Text → Command
  plan_rebalance_add_node plan_rebalance_remove_node : Text → Command
  execute_rebalance_add_node execute_rebalance_remove_node : Text → Text → Command

pub data Action : Type 0 where
  read write admin manage_users manage_databases manage_server manage_cluster session : Action

pub data Resource : Type 0 where
  server no_resource : Resource
  database : Text → Resource
  collection : Text → Text → Resource

unfoldable pub required_action : Command → Action
required_action (with_consistency r w command) = required_action command
required_action (get c k) = read
required_action (scan c s e) = read
required_action (query c i v) = read
required_action (query_range c i s e) = read
required_action (count c) = read
required_action (insert c k v) = write
required_action (update c k v) = write
required_action (delete c k) = write
required_action (put_with_vc c k v vc) = write
required_action (create_collection c) = admin
required_action (drop_collection c) = admin
required_action (create_index c i f) = admin
required_action (drop_index c i) = admin
required_action list_collections = admin
required_action (list_indexes c) = admin
required_action (compact c) = admin
required_action flush = admin
required_action (create_database d) = manage_databases
required_action (drop_database d) = manage_databases
required_action list_databases = manage_databases
required_action (set_database_consistency d r w) = manage_databases
required_action (reset_database_consistency d) = manage_databases
required_action (show_database_consistency d) = manage_databases
required_action (create_user u p) = manage_users
required_action (drop_user u) = manage_users
required_action (list_users t) = manage_users
required_action (grant r o u) = manage_users
required_action (revoke r o u) = manage_users
required_action (create_tenant t) = manage_server
required_action (drop_tenant t) = manage_server
required_action list_tenants = manage_server
required_action (elect_writer n d c) = manage_cluster
required_action (plan_rebalance_add_node n) = manage_cluster
required_action (plan_rebalance_remove_node n) = manage_cluster
required_action (execute_rebalance_add_node n c) = manage_cluster
required_action (execute_rebalance_remove_node n c) = manage_cluster
required_action (login t u p) = session
required_action (token t) = session
required_action (refresh t) = session
required_action who_am_i = session
required_action topology = session
required_action snapshot_hlc = session
required_action schema_version = session
required_action schema_status = session
required_action (use_database d) = session
required_action ping = session
required_action quit = session

-- `current_db.unwrap_or("")`
abbrev pub or_empty : Option Text → Text
or_empty none = []
or_empty (some d) = d

unfoldable pub target_resource : Option Text → Command → Resource
target_resource db (with_consistency r w command) = target_resource db command
target_resource db (create_tenant t) = server
target_resource db (drop_tenant t) = server
target_resource db list_tenants = server
target_resource db (create_database d) = database d
target_resource db (drop_database d) = database d
target_resource db (set_database_consistency d r w) = database d
target_resource db (reset_database_consistency d) = database d
target_resource db (show_database_consistency d) = database d
target_resource db list_databases = no_resource
target_resource db (insert c k v) = collection (or_empty db) c
target_resource db (get c k) = collection (or_empty db) c
target_resource db (update c k v) = collection (or_empty db) c
target_resource db (delete c k) = collection (or_empty db) c
target_resource db (put_with_vc c k v vc) = collection (or_empty db) c
target_resource db (scan c s e) = collection (or_empty db) c
target_resource db (query c i v) = collection (or_empty db) c
target_resource db (query_range c i s e) = collection (or_empty db) c
target_resource db (count c) = collection (or_empty db) c
target_resource db (compact c) = collection (or_empty db) c
target_resource db (create_index c i f) = collection (or_empty db) c
target_resource db (drop_index c i) = collection (or_empty db) c
target_resource db (list_indexes c) = collection (or_empty db) c
target_resource db (create_collection c) = database (or_empty db)
target_resource db (drop_collection c) = database (or_empty db)
target_resource db list_collections = database (or_empty db)
target_resource db snapshot_hlc = database (or_empty db)
target_resource db flush = database (or_empty db)
target_resource db (create_user u p) = server
target_resource db (drop_user u) = server
target_resource db (list_users t) = server
target_resource db (grant r o u) = server
target_resource db (revoke r o u) = server
target_resource db (elect_writer n d c) = server
target_resource db (plan_rebalance_add_node n) = server
target_resource db (plan_rebalance_remove_node n) = server
target_resource db (execute_rebalance_add_node n c) = server
target_resource db (execute_rebalance_remove_node n c) = server
target_resource db (login t u p) = no_resource
target_resource db (token t) = no_resource
target_resource db (refresh t) = no_resource
target_resource db who_am_i = no_resource
target_resource db topology = no_resource
target_resource db schema_version = no_resource
target_resource db schema_status = no_resource
target_resource db (use_database d) = no_resource
target_resource db ping = no_resource
target_resource db quit = no_resource

unfoldable pub is_pre_auth : Command → Bool
is_pre_auth (with_consistency r w command) = is_pre_auth command
is_pre_auth (login t u p) = true
is_pre_auth ping = true
is_pre_auth quit = true
is_pre_auth (token t) = true
is_pre_auth (refresh t) = true
is_pre_auth _ = false
