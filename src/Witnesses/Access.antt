-- ===== src/Witnesses/Access.antt =====
-- Sessions on concrete values.
use grumpydb.Prelude.{◌≡◌, ◌≢◌, ◌⊎◌, refl, arith, some, List, [], ◌∷◌, ok}
use grumpydb.Protocol.Text.{Text, text}
use grumpydb.Protocol.Command
use grumpydb.Protocol.Command.{Command, required_action, is_pre_auth}
use grumpydb.Auth.Role.{RoleAssignment, permits, read_only, read_write, database, collection}
use grumpydb.Auth.Session.{
  Claims, authorize, authorize_claims, auth_action, auth_resource, check, any_permits,
}
use grumpydb.Auth.Session.Cases.{base_of}
use grumpydb.Auth.Session.Limits.{authorize-read_only, authorize-elsewhere}

-- two names of databases
abbrev s : Text
s = 115 ∷ []

abbrev b : Text
b = 98 ∷ []

abbrev claims_of : List RoleAssignment → Claims
claims_of roles = record {
  sub = text "alice";
  tenant = text "acme";
  roles = roles;
  iat = 0;
  exp = 10;
  token_type = text "access";
}

abbrev reader : Claims
reader = claims_of (record { role = read_only; scope = database s } ∷ [])

reads :
    authorize
      (record { claims = some reader; current_db = some s })
      (Command.get (text "users") (text "k"))
    ≡ ok tt
unfolding authorize is_pre_auth authorize_claims auth_action required_action auth_resource
    Command.target_resource check any_permits permits text
reads = refl

authorize-read_only_example :
    (required_action (Command.get (text "users") (text "k")) ≡ Command.Action.read)
    ⊎ ((required_action (Command.get (text "users") (text "k")) ≡ Command.Action.session)
        ⊎ (base_of (Command.get (text "users") (text "k")) ≡ Command.list_databases))
authorize-read_only_example =
    authorize-read_only reader (some s) (Command.get (text "users") (text "k")) (refl, tt) reads

abbrev writer : Claims
writer = claims_of (record { role = read_write; scope = collection s (text "users") } ∷ [])

b_is_not_s : b ≢ s
b_is_not_s e = ground (arith, e)

authorize-elsewhere_example :
    authorize
      (record { claims = some writer; current_db = some b })
      (Command.delete (text "users") (text "k"))
    ≢ ok tt
unfolding required_action
authorize-elsewhere_example =
    authorize-elsewhere writer s b (Command.delete (text "users") (text "k")) (refl, tt) b_is_not_s
      tt
