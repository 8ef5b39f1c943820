-- ===== src/Auth/Session/Limits.antt =====
-- What a session may not do: grumpydb-server/src/session/mod.rs.
use grumpydb.Prelude.{
  ◌≡◌, ◌≢◌, ◌↔◌, ◌⊎◌, inl, inr, refl, sym, ◌∙◌, arith, true, false, Bool-cases, Option, none, some,
  List, [], ◌∷◌, ok, err, All, All-map,
}
use grumpydb.Protocol.Text.{Text}
use grumpydb.Protocol.Command
use grumpydb.Protocol.Command.{
  Command, Resource, required_action, target_resource, is_pre_auth, or_empty,
}
use grumpydb.Prelude.Map.{is_same, is_same-true}
use grumpydb.Auth.Role
use grumpydb.Auth.Role.{RoleAssignment, RoleName, ResourceScope, permits, permits_action, covers}
use grumpydb.Auth.Session.{
  Claims, access_denied, any_permits, auth_action, auth_resource, check, authorize_claims,
  authorize,
}
use grumpydb.Auth.Session.Cases.{
  base_of, is_pre_auth-session, resource_cases, action_cases, IsDataAction, data_resource,
  data_action,
}

-- A session without claims may send exactly the commands that come before a login.
pub authorize-anonymous_iff :
    (db : Option Text) (c : Command)
    → (authorize (record { claims = none; current_db = db }) c ≡ ok tt) ↔ (is_pre_auth c ≡ true)
unfolding authorize
authorize-anonymous_iff db c = ground arith

any_permits-false :
    (roles : List RoleAssignment) (action : Role.Action) (resource : ResourceScope)
    → All (λ a. permits a action resource ≡ false) roles
    → any_permits roles action resource ≡ false
unfolding any_permits
any_permits-false [] action resource h = refl
any_permits-false (a ∷ roles) action resource h =
    rw (h.0, any_permits-false roles action resource h.1) refl

-- A refusal, from roles that do not permit the action.
check-refuses :
    (claims : Claims) (action : Role.Action) (resource : ResourceScope)
    → All (λ a. permits a action resource ≡ false) claims.roles
    → check claims action resource ≢ ok tt
unfolding check
check-refuses claims action resource h e =
    let no_role = any_permits-false claims.roles action resource h in
    let same : err (access_denied action resource claims.sub) ≡ ok tt = rw no_role at e in cc

abbrev pub IsReadOnly : RoleAssignment → Type 0
IsReadOnly a = a.role ≡ RoleName.read_only

module _ (db : Option Text) (claims : Claims) (c : Command) where
  authorize_claims-check :
      (action : Role.Action) (resource : ResourceScope)
      → auth_action (required_action c) ≡ some action
      → auth_resource (target_resource db c) ≡ some resource
      → authorize_claims db claims c ≡ check claims action resource
  unfolding authorize_claims
  authorize_claims-check action resource e f = rw (authorize_claims, e) (rw (f) refl)

  authorize-claims :
      authorize (record { claims = some claims; current_db = db }) c ≡ ok tt
      → required_action c ≢ Command.Action.session
      → authorize_claims db claims c ≡ ok tt
  unfolding authorize
  authorize-claims h other = elim (Bool-cases (is_pre_auth c)) [
    | inl pre ↦ absurd (other (is_pre_auth-session c pre))
    | inr not_pre ↦ rw not_pre at h
  ]

  not_permitted :
      (action : Role.Action) (resource : ResourceScope)
      → auth_action (required_action c) ≡ some action
      → auth_resource (target_resource db c) ≡ some resource
      → All (λ a. permits a action resource ≡ false) claims.roles
      → authorize_claims db claims c ≢ ok tt
  not_permitted action resource e f h granted =
      check-refuses claims action resource h
        (sym (authorize_claims-check action resource e f) ∙ granted)

read_only-permits :
    (action : Role.Action) (resource : ResourceScope) (a : RoleAssignment)
    → permits_action RoleName.read_only action ≡ false
    → IsReadOnly a
    → permits a action resource ≡ false
unfolding permits permits_action
read_only-permits action resource a no_action e = ground (arith, e, no_action)

-- A session whose roles are all read-only may send no command but those that read, those of the
-- session itself, and LIST DATABASES, also behind consistency prefixes.
pub authorize-read_only :
    (claims : Claims) (db : Option Text) (c : Command)
    → All IsReadOnly claims.roles
    → authorize (record { claims = some claims; current_db = db }) c ≡ ok tt
    → (required_action c ≡ Command.Action.read)
      ⊎ ((required_action c ≡ Command.Action.session) ⊎ (base_of c ≡ Command.list_databases))
unfolding auth_action
authorize-read_only claims db c all_read_only granted = elim (action_cases (required_action c)) [
  | inl read ↦ inl read
  | inr (inl session) ↦ inr (inl session)
  | inr (inr (action, e, no_action)) ↦ elim (resource_cases db c) [
    | inl session ↦ inr (inl session)
    | inr (inl list) ↦ inr (inr list)
    | inr (inr (resource, f)) ↦
        let other : required_action c ≢ Command.Action.session =
          λ h. let none_of : none ≡ some action = rw h at e in cc in
        absurd (
          not_permitted db claims c action resource e f
            (All-map claims.roles (λ a. read_only-permits action resource a no_action)
              all_read_only)
            (authorize-claims db claims c granted other))
  ]
]

no_role :
    (a : RoleAssignment) (action : Role.Action) (resource : ResourceScope)
    → covers a.scope resource ≡ false
    → permits a action resource ≡ false
unfolding permits permits_action
no_role a action resource e = ground (arith, e)

-- The scope lies in a database.
abbrev pub Within : Text → ResourceScope → Type 0
Within d (ResourceScope.database n) = n ≡ d
Within d (ResourceScope.all_collections n) = n ≡ d
Within d (ResourceScope.collection n c) = n ≡ d
Within d _ = ⊥

is_same-false : (a b : Text) → a ≢ b → is_same a b ≡ false
is_same-false a b other = elim (Bool-cases (is_same a b)) [
  | inl same ↦ absurd (other ((is_same-true a b).0 same))
  | inr no_match ↦ no_match
]

covers_elsewhere :
    (d e c : Text) (scope : ResourceScope)
    → Within d scope
    → e ≢ d
    → covers scope (ResourceScope.collection e c) ≡ false
unfolding covers
covers_elsewhere d e c (ResourceScope.database n) h other =
    is_same-false n e (λ same. other (sym same ∙ h))
covers_elsewhere d e c (ResourceScope.all_collections n) h other =
    is_same-false n e (λ same. other (sym same ∙ h))
covers_elsewhere d e c (ResourceScope.collection n m) h other =
    rw (is_same-false n e (λ same. other (sym same ∙ h))) refl
covers_elsewhere d e c ResourceScope.server h other = absurd h
covers_elsewhere d e c ResourceScope.tenant h other = absurd h
covers_elsewhere d e c ResourceScope.all_databases h other = absurd h

-- A session whose roles are all scoped to one database may read or write no document of another:
-- no command that needs the action of reading or of writing is allowed while that other database is
-- in use.
pub authorize-elsewhere :
    (claims : Claims) (d e : Text) (c : Command)
    → All (λ a. Within d a.scope) claims.roles
    → e ≢ d
    → IsDataAction (required_action c)
    → authorize (record { claims = some claims; current_db = some e }) c ≢ ok tt
unfolding permits auth_resource
authorize-elsewhere claims d e c within other h granted =
    let act = data_action (required_action c) h in
    let target = data_resource (some e) c h in
    let scope = ResourceScope.collection e target.0 in
    not_permitted (some e) claims c act.0 scope act.1 (rw (target.1) refl)
      (All-map claims.roles
        (λ a inside. no_role a act.0 scope (covers_elsewhere d e target.0 a.scope inside other))
        within)
      (authorize-claims (some e) claims c granted act.2)
