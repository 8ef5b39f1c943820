-- ===== src/Auth/Session/Cases.antt =====
-- The commands by the action that they need and the resource that they are about, as `authorize` of
-- grumpydb-server/src/session/mod.rs tells them apart.
use grumpydb.Prelude.{◌≡◌, ◌≢◌, ◌⊎◌, inl, inr, refl, arith, true, false, Option, some}
use grumpydb.Protocol.Text.{Text}
use grumpydb.Protocol.Command
use grumpydb.Protocol.Command.{
  Command, Resource, required_action, target_resource, is_pre_auth, or_empty,
}
use grumpydb.Auth.Role
use grumpydb.Auth.Role.{RoleName, ResourceScope, permits_action}
use grumpydb.Auth.Session.{auth_action, auth_resource}

-- the command behind the consistency prefixes
unfoldable pub base_of : Command → Command
base_of (Command.with_consistency r w c) = base_of c
base_of c = c

pub is_pre_auth-session :
    (c : Command) → is_pre_auth c ≡ true → required_action c ≡ Command.Action.session
unfolding is_pre_auth required_action
is_pre_auth-session (Command.with_consistency r w c) h = is_pre_auth-session c h
is_pre_auth-session _ h = ground (arith, h)

-- Every command is one of the session, the list of databases, or has a resource.
abbrev pub HasResource : Option Text → Command → Type 0
HasResource db c =
    (required_action c ≡ Command.Action.session)
    ⊎ ((base_of c ≡ Command.list_databases)
        ⊎ ((r : ResourceScope) × (auth_resource (target_resource db c) ≡ some r)))

pub resource_cases : (db : Option Text) (c : Command) → HasResource db c
unfolding required_action base_of auth_resource target_resource
resource_cases db (Command.with_consistency r w c) = resource_cases db c
resource_cases db (Command.login t u p) = inl refl
resource_cases db (Command.token t) = inl refl
resource_cases db (Command.refresh t) = inl refl
resource_cases db Command.who_am_i = inl refl
resource_cases db Command.topology = inl refl
resource_cases db Command.snapshot_hlc = inl refl
resource_cases db Command.schema_version = inl refl
resource_cases db Command.schema_status = inl refl
resource_cases db (Command.use_database d) = inl refl
resource_cases db Command.ping = inl refl
resource_cases db Command.quit = inl refl
resource_cases db (Command.create_database d) = inr (inr (_, refl))
resource_cases db (Command.drop_database d) = inr (inr (_, refl))
resource_cases db Command.list_databases = inr (inl refl)
resource_cases db (Command.set_database_consistency d r w) = inr (inr (_, refl))
resource_cases db (Command.reset_database_consistency d) = inr (inr (_, refl))
resource_cases db (Command.show_database_consistency d) = inr (inr (_, refl))
resource_cases db (Command.create_collection c) = inr (inr (_, refl))
resource_cases db (Command.drop_collection c) = inr (inr (_, refl))
resource_cases db Command.list_collections = inr (inr (_, refl))
resource_cases db (Command.insert c k v) = inr (inr (_, refl))
resource_cases db (Command.get c k) = inr (inr (_, refl))
resource_cases db (Command.update c k v) = inr (inr (_, refl))
resource_cases db (Command.delete c k) = inr (inr (_, refl))
resource_cases db (Command.put_with_vc c k v vc) = inr (inr (_, refl))
resource_cases db (Command.scan c s e) = inr (inr (_, refl))
resource_cases db (Command.create_index c i f) = inr (inr (_, refl))
resource_cases db (Command.drop_index c i) = inr (inr (_, refl))
resource_cases db (Command.list_indexes c) = inr (inr (_, refl))
resource_cases db (Command.query c i v) = inr (inr (_, refl))
resource_cases db (Command.query_range c i s e) = inr (inr (_, refl))
resource_cases db (Command.compact c) = inr (inr (_, refl))
resource_cases db Command.flush = inr (inr (_, refl))
resource_cases db (Command.count c) = inr (inr (_, refl))
resource_cases db (Command.create_user u p) = inr (inr (_, refl))
resource_cases db (Command.drop_user u) = inr (inr (_, refl))
resource_cases db (Command.list_users t) = inr (inr (_, refl))
resource_cases db (Command.grant r o u) = inr (inr (_, refl))
resource_cases db (Command.revoke r o u) = inr (inr (_, refl))
resource_cases db (Command.create_tenant t) = inr (inr (_, refl))
resource_cases db (Command.drop_tenant t) = inr (inr (_, refl))
resource_cases db Command.list_tenants = inr (inr (_, refl))
resource_cases db (Command.elect_writer n d c) = inr (inr (_, refl))
resource_cases db (Command.plan_rebalance_add_node n) = inr (inr (_, refl))
resource_cases db (Command.plan_rebalance_remove_node n) = inr (inr (_, refl))
resource_cases db (Command.execute_rebalance_add_node n c) = inr (inr (_, refl))
resource_cases db (Command.execute_rebalance_remove_node n c) = inr (inr (_, refl))

-- What the role permits of an action of the protocol.
pub action_cases :
    (a : Command.Action)
    → (a ≡ Command.Action.read)
      ⊎ ((a ≡ Command.Action.session)
          ⊎ ((action : Role.Action) × (auth_action a ≡ some action)
              × (permits_action RoleName.read_only action ≡ false)))
unfolding auth_action permits_action
action_cases Command.Action.read = inl refl
action_cases Command.Action.session = inr (inl refl)
action_cases Command.Action.write = inr (inr (Role.Action.write, refl, refl))
action_cases Command.Action.admin = inr (inr (Role.Action.admin, refl, refl))
action_cases Command.Action.manage_users = inr (inr (Role.Action.manage_users, refl, refl))
action_cases Command.Action.manage_databases = inr (inr (Role.Action.manage_databases, refl, refl))
action_cases Command.Action.manage_server = inr (inr (Role.Action.manage_server, refl, refl))
action_cases Command.Action.manage_cluster = inr (inr (Role.Action.manage_server, refl, refl))

abbrev pub IsDataAction : Command.Action → Type 0
IsDataAction Command.Action.read = Unit
IsDataAction Command.Action.write = Unit
IsDataAction _ = ⊥

-- Commands that read or write documents are about a collection of the database in use.
pub data_resource :
    (db : Option Text) (c : Command)
    → IsDataAction (required_action c)
    → (coll : Text) × (target_resource db c ≡ Resource.collection (or_empty db) coll)
unfolding required_action target_resource
data_resource db (Command.with_consistency r w c) h = data_resource db c h
data_resource db (Command.get c k) h = (c, refl)
data_resource db (Command.scan c s e) h = (c, refl)
data_resource db (Command.query c i v) h = (c, refl)
data_resource db (Command.query_range c i s e) h = (c, refl)
data_resource db (Command.count c) h = (c, refl)
data_resource db (Command.insert c k v) h = (c, refl)
data_resource db (Command.update c k v) h = (c, refl)
data_resource db (Command.delete c k) h = (c, refl)
data_resource db (Command.put_with_vc c k v vc) h = (c, refl)
data_resource db _ h = absurd h

pub data_action :
    (a : Command.Action)
    → IsDataAction a
    → (action : Role.Action) × (auth_action a ≡ some action) × (a ≢ Command.Action.session)
unfolding auth_action
data_action Command.Action.read h = (Role.Action.read, refl, λ e. cc)
data_action Command.Action.write h = (Role.Action.write, refl, λ e. cc)
data_action _ h = absurd h
