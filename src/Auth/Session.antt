-- ===== src/Auth/Session.antt =====
-- The session of a connection, grumpydb-server/src/session/mod.rs: which commands it may send.
pub mod Cases
pub mod Limits
use grumpydb.Prelude.{
  ℕ, Bool, true, false, ◌||◌, Option, none, some, List, [], ◌∷◌, Result, ok, err, if◌then◌else◌,
}
use grumpydb.Protocol.Text.{Text}
use grumpydb.Protocol.Command
use grumpydb.Protocol.Command.{Command, Resource, required_action, target_resource, is_pre_auth}
use grumpydb.Auth.Role
use grumpydb.Auth.Role.{RoleAssignment, ResourceScope, permits}

pub record Claims : Type 0 where
  pub sub : Text
  pub tenant : Text
  pub roles : List RoleAssignment
  pub iat : ℕ
  pub exp : ℕ
  pub token_type : Text

pub record SessionContext : Type 0 where
  pub claims : Option Claims
  pub current_db : Option Text

-- The second is formatted with the action, the resource and the user.
pub data AuthError : Type 0 where
  not_authenticated : AuthError
  access_denied : Role.Action → ResourceScope → Text → AuthError

abbrev pub new_session : SessionContext
new_session = record { claims = none; current_db = none }

unfoldable pub set_claims : Claims → SessionContext → SessionContext
set_claims claims s = record s { claims = some claims }

unfoldable pub set_database : Text → SessionContext → SessionContext
set_database name s = record s { current_db = some name }

unfoldable pub any_permits : List RoleAssignment → Role.Action → ResourceScope → Bool
any_permits [] action resource = false
any_permits (role ∷ roles) action resource =
    permits role action resource || any_permits roles action resource

-- the action of the role model; `none` for one of the session itself
unfoldable pub auth_action : Command.Action → Option Role.Action
auth_action Command.Action.read = some Role.Action.read
auth_action Command.Action.write = some Role.Action.write
auth_action Command.Action.admin = some Role.Action.admin
auth_action Command.Action.manage_users = some Role.Action.manage_users
auth_action Command.Action.manage_databases = some Role.Action.manage_databases
auth_action Command.Action.manage_server = some Role.Action.manage_server
auth_action Command.Action.manage_cluster = some Role.Action.manage_server
auth_action Command.Action.session = none

unfoldable pub auth_resource : Resource → Option ResourceScope
auth_resource Resource.server = some ResourceScope.server
auth_resource (Resource.database name) = some (ResourceScope.database name)
auth_resource (Resource.collection db coll) = some (ResourceScope.collection db coll)
auth_resource Resource.no_resource = none

-- the check of a command that needs a role
unfoldable pub check : Claims → Role.Action → ResourceScope → Result (Unit {0}) AuthError
check claims action resource =
    if any_permits claims.roles action resource
    then ok tt
    else err (access_denied action resource claims.sub)

unfoldable pub authorize_claims : Option Text → Claims → Command → Result (Unit {0}) AuthError
authorize_claims db claims command = elim (auth_action (required_action command)) [
  | none ↦ ok tt
  | some action ↦ elim (auth_resource (target_resource db command)) [
    | none ↦ ok tt
    | some resource ↦ check claims action resource
  ]
]

unfoldable pub authorize : SessionContext → Command → Result (Unit {0}) AuthError
authorize s command = if is_pre_auth command then ok tt else elim s.claims [
  | none ↦ err not_authenticated
  | some claims ↦ authorize_claims s.current_db claims command
]
