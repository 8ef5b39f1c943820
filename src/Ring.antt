-- ===== src/Ring.antt =====
-- The consistent-hash ring: grumpydb-ring/src/ring.rs and grumpydb-ring/src/hash.rs, for nodes that are
-- UUIDs, read as their 128-bit numbers. Murmur3, the text of `{node}#{i}` and the two binary searches
-- of the standard library are parameters; a range names its nodes by number, not by text; a position is the low 64 bits of the hash.
pub mod Walk
pub mod Nodes
pub mod Topology
pub mod Key
use grumpydb.Prelude.{
  ℕ, zero, suc, ◌+◌, ◌-◌, ◌%◌, ◌^◌, min, Bool, true, false, not, ◌&&◌, ◌||◌, Option, none, some,
  List, [], ◌∷◌, ◌++◌, map, leb, ◌==◌, if◌then◌else◌, length, get_elem?, take, drop,
}
use grumpydb.Prelude.Bytes.{Bytes}
use grumpydb.Prelude.Members.{contains}

pub record RoutingKey : Type 0 where
  pub database : Bytes
  pub collection : Bytes
  pub key_bytes : Bytes

unfoldable pub canonical_bytes : RoutingKey → Bytes
canonical_bytes k = k.database ++ 0 ∷ (k.collection ++ 0 ∷ k.key_bytes)

abbrev pub Vnode : Type 0
Vnode = ℕ × ℕ

pub record Ring : Type 0 where
  pub vnodes_per_node : ℕ
  pub vnodes : List Vnode
  pub physical_nodes : List ℕ

unfoldable pub new : ℕ → Ring
new per_node = record { vnodes_per_node = per_node; vnodes = []; physical_nodes = [] }

pub record KeyRange : Type 0 where
  pub start_inclusive : ℕ
  pub end_exclusive : ℕ
  pub from : Option ℕ
  pub to : ℕ

-- `Vec::insert`
abbrev pub insert_at {ℓ} : {A : Type ℓ} → ℕ → A → List A → List A
insert_at i x xs = take i xs ++ x ∷ drop i xs

abbrev pub owners : List Vnode → List ℕ
owners [] = []
owners ((pos, owner) ∷ vs) = owner ∷ owners vs

abbrev pub positions : List Vnode → List ℕ
positions [] = []
positions ((pos, owner) ∷ vs) = pos ∷ positions vs

unfoldable pub retain_other_vnodes : ℕ → List Vnode → List Vnode
retain_other_vnodes node [] = []
retain_other_vnodes node ((pos, owner) ∷ vs) =
    if owner == node
    then retain_other_vnodes node vs
    else (pos, owner) ∷ retain_other_vnodes node vs

unfoldable pub retain_other_nodes : ℕ → List ℕ → List ℕ
retain_other_nodes node [] = []
retain_other_nodes node (n ∷ ns) =
    if n == node then retain_other_nodes node ns else n ∷ retain_other_nodes node ns

-- The walk of `preference_list`: so many steps are left, from a step on.
unfoldable pub walk : ℕ → List Vnode → ℕ → ℕ → ℕ → List ℕ → List ℕ → List ℕ
walk n vs start zero step seen out = out
walk n vs start (suc left) step seen out = elim (get_elem? vs ((start + step) % length vs)) [
  | none ↦ out
  | some (pos, owner) ↦ elim (contains owner seen) [
    | true ↦ walk n vs start left (step + 1) seen out
    | false ↦ elim (length (out ++ owner ∷ []) == n) [
      | true ↦ out ++ owner ∷ []
      | false ↦ walk n vs start left (step + 1) (owner ∷ seen) (out ++ owner ∷ [])
    ]
  ]
]

-- `owners_at`, on the vnodes and the index that the search gives
unfoldable pub owner_from : List Vnode → ℕ → Option ℕ
owner_from vs i = elim (get_elem? (owners vs) i) [
  | some owner ↦ some owner
  | none ↦ get_elem? (owners vs) 0
]

abbrev pub same_owner : Option ℕ → Option ℕ → Bool
same_owner none none = true
same_owner (some a) (some b) = a == b
same_owner _ _ = false

-- The sorted set of the boundaries.
unfoldable pub insert_sorted : ℕ → List ℕ → List ℕ
insert_sorted p [] = p ∷ []
insert_sorted p (q ∷ qs) =
    if p == q then q ∷ qs else if leb p q then p ∷ q ∷ qs else q ∷ insert_sorted p qs

unfoldable pub boundaries_of : List ℕ → List ℕ
unfolding insert_sorted
boundaries_of [] = insert_sorted (2 ^ 64 - 1) (insert_sorted 0 [])
boundaries_of (p ∷ ps) = insert_sorted p (boundaries_of ps)

-- The last range of `out`, made longer if the new one continues it; `out` is held backwards.
unfoldable pub push_range : KeyRange → List KeyRange → List KeyRange
push_range r [] = r ∷ []
push_range r (last ∷ out) =
    if last.end_exclusive == r.start_inclusive && (same_owner last.from r.from && last.to == r.to)
    then record last { end_exclusive = r.end_exclusive } ∷ out
    else r ∷ last ∷ out

module _ (murmur3 : Bytes → ℕ) (tag : ℕ → ℕ → Bytes) (search_vnode : List Vnode → Vnode → ℕ)
    (search_position : List Vnode → ℕ → ℕ) (search_node : List ℕ → ℕ → ℕ) where
  unfoldable pub murmur3_hash : Bytes → ℕ
  murmur3_hash input = murmur3 input % 2 ^ 64

  unfoldable pub preference_list : Ring → RoutingKey → ℕ → List ℕ
  preference_list r key n =
      if length r.physical_nodes == 0 || n == 0
      then []
      else walk (min n (length r.physical_nodes)) r.vnodes
          (search_position r.vnodes (murmur3_hash (canonical_bytes key))) (length r.vnodes) 0 [] []

  unfoldable pub owns : Ring → ℕ → RoutingKey → ℕ → Bool
  owns r node key n = contains node (preference_list r key n)

  unfoldable pub vnodes_from : ℕ → ℕ → ℕ → List Vnode
  unfolding murmur3_hash
  vnodes_from node zero i = []
  vnodes_from node (suc left) i = (murmur3_hash (tag node i), node) ∷ vnodes_from node left (i + 1)

  unfoldable pub compute_vnodes_for : Ring → ℕ → List Vnode
  unfolding vnodes_from
  compute_vnodes_for r node = vnodes_from node r.vnodes_per_node 0

  unfoldable pub insert_vnodes : List Vnode → List Vnode → List Vnode
  insert_vnodes [] vs = vs
  insert_vnodes (v ∷ more) vs = insert_vnodes more (insert_at (search_vnode vs v) v vs)

  -- The sweep over the boundaries.
  unfoldable pub sweep : List Vnode → List Vnode → List ℕ → List KeyRange → List KeyRange
  unfolding push_range owner_from
  sweep before after [] out = out
  sweep before after (start ∷ []) out = out
  sweep before after (start ∷ end ∷ bounds) out =
      let before_owner = owner_from before (search_position before start) in
      let after_owner = owner_from after (search_position after start) in
      sweep before after (end ∷ bounds) (
        if same_owner before_owner after_owner then out else elim after_owner [
          | none ↦ out
          | some to ↦
              push_range
                (record {
                  start_inclusive = start;
                  end_exclusive = end;
                  from = before_owner;
                  to = to;
                })
                out
        ])

  abbrev reversed_ranges : List KeyRange → List KeyRange
  reversed_ranges [] = []
  reversed_ranges (r ∷ rs) = reversed_ranges rs ++ r ∷ []

  unfoldable pub diff_owners : List Vnode → List Vnode → List KeyRange
  unfolding sweep boundaries_of
  diff_owners [] [] = []
  diff_owners [] ((pos, owner) ∷ vs) =
      record { start_inclusive = 0; end_exclusive = 2 ^ 64 - 1; from = none; to = owner } ∷ []
  diff_owners (u ∷ us) [] = []
  diff_owners (u ∷ us) (v ∷ vs) =
      reversed_ranges
        (sweep (u ∷ us) (v ∷ vs) (boundaries_of (positions (u ∷ us) ++ positions (v ∷ vs))) [])

  unfoldable pub add_node : ℕ → Ring → Ring × List KeyRange
  add_node node r =
      if contains node r.physical_nodes
      then (r, [])
      else let vs = insert_vnodes (compute_vnodes_for r node) r.vnodes in
        (
          record r {
            vnodes = vs;
            physical_nodes = insert_at (search_node r.physical_nodes node) node r.physical_nodes;
          },
          diff_owners r.vnodes vs,
        )

  unfoldable pub remove_node : ℕ → Ring → Ring × List KeyRange
  remove_node node r =
      let vs = retain_other_vnodes node r.vnodes in
      if not (contains node r.physical_nodes) then (r, []) else (
        record r { vnodes = vs; physical_nodes = retain_other_nodes node r.physical_nodes },
        diff_owners r.vnodes vs,
      )
