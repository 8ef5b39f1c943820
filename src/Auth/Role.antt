-- ===== src/Auth/Role.antt =====
-- Roles, actions and scopes of grumpydb-server/src/auth/role.rs.
use grumpydb.Prelude.{◌≡◌, ◌↔◌, refl, arith, Bool, true, false, ◌&&◌}
use grumpydb.Prelude.Bytes.{Bytes}
use grumpydb.Prelude.Map.{is_same, is_same-true}

pub data RoleName : Type 0 where
  server_admin tenant_admin db_admin read_write read_only cluster_peer : RoleName

pub data Action : Type 0 where
  read write admin manage_users manage_databases manage_server replication_peer : Action

unfoldable pub is_cluster_peer_only : Action → Bool
is_cluster_peer_only replication_peer = true
is_cluster_peer_only _ = false

unfoldable pub permits_action : RoleName → Action → Bool
permits_action server_admin replication_peer = false
permits_action server_admin _ = true
permits_action tenant_admin manage_server = false
permits_action tenant_admin replication_peer = false
permits_action tenant_admin _ = true
permits_action db_admin read = true
permits_action db_admin write = true
permits_action db_admin admin = true
permits_action db_admin _ = false
permits_action read_write read = true
permits_action read_write write = true
permits_action read_write _ = false
permits_action read_only read = true
permits_action read_only _ = false
permits_action cluster_peer replication_peer = true
permits_action cluster_peer _ = false

pub data ResourceScope : Type 0 where
  server tenant all_databases : ResourceScope
  database all_collections : Bytes → ResourceScope
  collection : Bytes → Bytes → ResourceScope

unfoldable pub covers : ResourceScope → ResourceScope → Bool
covers server target = true
covers tenant server = false
covers tenant _ = true
covers all_databases server = false
covers all_databases tenant = false
covers all_databases _ = true
covers (database name) (database t) = is_same name t
covers (database name) (all_collections d) = is_same name d
covers (database name) (collection d c) = is_same name d
covers (database name) _ = false
covers (all_collections d) (all_collections t) = is_same d t
covers (all_collections d) (collection t c) = is_same d t
covers (all_collections d) _ = false
covers (collection d c) (collection td tc) = is_same d td && is_same c tc
covers (collection d c) _ = false

pub record RoleAssignment : Type 0 where
  pub role : RoleName
  pub scope : ResourceScope

unfoldable pub permits : RoleAssignment → Action → ResourceScope → Bool
unfolding permits_action covers
permits a action target = permits_action a.role action && covers a.scope target

-- A scope covers itself.
pub covers_refl : (a : ResourceScope) → covers a a ≡ true
unfolding covers
covers_refl (database n) = (is_same-true n n).1 refl
covers_refl (all_collections n) = (is_same-true n n).1 refl
covers_refl (collection d c) = ground (arith, is_same-true d d, is_same-true c c)
covers_refl _ = refl

-- What is covered by a scope that is covered is covered.
covers-covers : (a b c : ResourceScope) → covers a b ≡ true → covers b c ≡ true → covers a c ≡ true
unfolding covers
covers-covers server b c h k = refl
covers-covers tenant b c h k = ground arith
covers-covers all_databases b c h k = ground arith
covers-covers (database n) (database m) c h k = rw ((is_same-true n m).0 h) k
covers-covers (database n) (all_collections m) c h k =
    rw ((is_same-true n m).0 h) (ground (arith, k))
covers-covers (database n) (collection m e) c h k = rw ((is_same-true n m).0 h) (ground (arith, k))
covers-covers (all_collections n) (all_collections m) c h k = rw ((is_same-true n m).0 h) k
covers-covers (all_collections n) (collection m e) c h k =
    rw ((is_same-true n m).0 h) (ground (arith, k))
covers-covers (collection d e) (collection m g) c h k =
    let same : (is_same d m ≡ true) × (is_same e g ≡ true) = ground (arith, h) in
    rw ((is_same-true d m).0 same.0, (is_same-true e g).0 same.1) k
covers-covers a b c h k = ground (arith, h)

-- The replication action is permitted by the role of a cluster peer alone, which permits no other
-- action, whatever the scopes.
pub permits-cluster_peer_iff :
    (a : RoleAssignment) (action : Action) (target : ResourceScope)
    → permits a action target ≡ true
    → (is_cluster_peer_only action ≡ true) ↔ (a.role ≡ cluster_peer)
unfolding permits permits_action is_cluster_peer_only
permits-cluster_peer_iff a action target h = ground arith
