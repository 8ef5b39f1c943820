-- ===== src/Witnesses/Ring.antt =====
-- The ring on concrete nodes, with a linear search for the binary searches.
use grumpydb.Prelude.{
  ℕ, suc, ◌+◌, ◌-◌, ◌%◌, ◌^◌, ◌≡◌, refl, arith, min, true, some, List, [], ◌∷◌, ltb, if◌then◌else◌,
  length, take,
}
use grumpydb.Prelude.Bytes.{Bytes}
use grumpydb.Prelude.Members.{contains, Distinct}
use grumpydb.Ring.{
  RoutingKey, Vnode, Ring, new, owners, canonical_bytes, preference_list, add_node, diff_owners,
}
use grumpydb.Ring.Walk.{rotation, first_seen, preference_list-take}
use grumpydb.Ring.Topology.{IsRing, new-IsRing, add_node-IsRing, preference_list-Distinct}

-- The sum of the bytes, and the number of a vnode behind its node's.
abbrev byte_sum : Bytes → ℕ
byte_sum [] = 0
byte_sum (b ∷ bs) = b + byte_sum bs

abbrev tag : ℕ → ℕ → Bytes
tag node i = 10 ∷ node ∷ i ∷ []

abbrev below_position : List Vnode → ℕ → ℕ
below_position [] p = 0
below_position ((q, o) ∷ vs) p = if ltb q p then suc (below_position vs p) else 0

abbrev below_vnode : List Vnode → Vnode → ℕ
below_vnode vs (p, o) = below_position vs p

abbrev below_node : List ℕ → ℕ → ℕ
below_node [] n = 0
below_node (m ∷ ms) n = if ltb m n then suc (below_node ms n) else 0

-- A ring of two nodes with two vnodes each.
abbrev ring : Ring
ring =
    (add_node byte_sum tag below_vnode below_position below_node 7
      (add_node byte_sum tag below_vnode below_position below_node 3 (new 2)).0).0

abbrev key : RoutingKey
key = record { database = 1 ∷ []; collection = 2 ∷ []; key_bytes = 9 ∷ [] }

one-IsRing : IsRing (add_node byte_sum tag below_vnode below_position below_node 3 (new 2)).0
one-IsRing =
    (add_node-IsRing byte_sum tag below_vnode below_position below_node 3 (new 2)
      (new-IsRing 2 (omega arith))).0

ring-IsRing : IsRing ring
ring-IsRing =
    (add_node-IsRing byte_sum tag below_vnode below_position below_node 7
      (add_node byte_sum tag below_vnode below_position below_node 3 (new 2)).0 one-IsRing).0

preference_list-take_example :
    preference_list byte_sum tag below_vnode below_position below_node ring key 2
    ≡ take (min 2 (length ring.physical_nodes)) (
        first_seen [] (
          owners (
            rotation
              (below_position ring.vnodes (byte_sum (canonical_bytes key) % 2 ^ 64)
                % length ring.vnodes)
              ring.vnodes)))
preference_list-take_example =
    preference_list-take byte_sum tag below_vnode below_position below_node ring key 2

preference_list-Distinct_example :
    (length (preference_list byte_sum tag below_vnode below_position below_node ring key 5)
      ≡ min 5 (length ring.physical_nodes))
    × Distinct (preference_list byte_sum tag below_vnode below_position below_node ring key 5)
    × ((k : ℕ)
        → contains k (preference_list byte_sum tag below_vnode below_position below_node ring key 5)
          ≡ true
        → contains k ring.physical_nodes ≡ true)
preference_list-Distinct_example =
    preference_list-Distinct byte_sum tag below_vnode below_position below_node ring key 5
      ring-IsRing

-- Node 2 takes over the keys of (10, 20] from node 1, which owned every key; the range that is
-- reported is that of the keys that stay with node 1.
moved_range :
    diff_owners byte_sum tag below_vnode below_position below_node
      ((10, 1) ∷ [])
      ((10, 1) ∷ (20, 2) ∷ [])
    ≡ record { start_inclusive = 20; end_exclusive = 2 ^ 64 - 1; from = some 1; to = 2 } ∷ []
unfolding diff_owners
moved_range = refl
