-- ===== src/Ring/Topology.antt =====
-- Adding and removing nodes, and the nodes of a preference list: grumpydb-ring/src/ring.rs.
use grumpydb.Prelude.{
  ℕ, zero, suc, ◌+◌, ◌%◌, ◌^◌, ◌<◌, ◌≡◌, refl, sym, ap, ◌∙◌, arith, min, true, not, ◌&&◌, ◌||◌, inl,
  inr, Bool-cases, List, [], ◌∷◌, ◌++◌, ltb, ◌==◌, length, length-take, take, drop,
  take-append-drop,
}
use grumpydb.Prelude.Bytes.{Bytes}
use grumpydb.Prelude.Members.{contains, Distinct, contains-append}
use grumpydb.Ring.{
  Ring, RoutingKey, Vnode, new, owners, insert_at, retain_other_vnodes, canonical_bytes,
  preference_list, vnodes_from, compute_vnodes_for, insert_vnodes, add_node, remove_node,
}
use grumpydb.Ring.Walk.{rotation, first_seen, preference_list-take}
use grumpydb.Ring.Nodes.{
  contains-retain, retain-Distinct, same_length, contains-first_seen, first_seen-Distinct,
  contains_of_take, take-Distinct, contains-insert_at, insert_at-Distinct,
}

-- The nodes are different, and they are the owners of the vnodes; a node has at least one vnode.
pub record IsRing (r : Ring) : Type 0 where
  pub distinct : Distinct r.physical_nodes
  pub owned : (k : ℕ) → contains k (owners r.vnodes) ≡ contains k r.physical_nodes
  pub some_vnodes : 0 < r.vnodes_per_node

owners-append : (us vs : List Vnode) → owners (us ++ vs) ≡ owners us ++ owners vs
owners-append [] vs = refl
owners-append ((pos, o) ∷ us) vs = ap (◌∷◌ o) (owners-append us vs)

owns-append :
    (k : ℕ) (us vs : List Vnode)
    → contains k (owners (us ++ vs)) ≡ (contains k (owners us) || contains k (owners vs))
owns-append k us vs =
    ap (contains k) (owners-append us vs) ∙ contains-append k (owners us) (owners vs)

owns-insert_at :
    (k i pos o : ℕ) (vs : List Vnode)
    → contains k (owners (insert_at i (pos, o) vs)) ≡ (k == o || contains k (owners vs))
owns-insert_at k i pos o vs = ground (
  arith,
  owns-append k (take i vs) ((pos, o) ∷ drop i vs),
  owns-append k (take i vs) (drop i vs),
  ap (λ (l : List Vnode). contains k (owners l)) (take-append-drop i vs),
)

owns-rotation :
    (k i : ℕ) (vs : List Vnode) → contains k (owners (rotation i vs)) ≡ contains k (owners vs)
owns-rotation k i vs = ground (
  arith,
  owns-append k (drop i vs) (take i vs),
  owns-append k (take i vs) (drop i vs),
  ap (λ (l : List Vnode). contains k (owners l)) (take-append-drop i vs),
)

owns-retain :
    (k node : ℕ) (vs : List Vnode)
    → contains k (owners (retain_other_vnodes node vs))
      ≡ (not (k == node) && contains k (owners vs))
unfolding retain_other_vnodes
owns-retain k node [] = ground arith
owns-retain k node ((pos, o) ∷ vs) = ground (arith, owns-retain k node vs)

-- A new ring has no nodes.
pub new-IsRing : (per_node : ℕ) → 0 < per_node → IsRing (new per_node)
unfolding new
new-IsRing per_node h = record { distinct = tt; owned = λ k. refl; some_vnodes = h }

module _ (murmur3 : Bytes → ℕ) (tag : ℕ → ℕ → Bytes) (search_vnode : List Vnode → Vnode → ℕ)
    (search_position : List Vnode → ℕ → ℕ) (search_node : List ℕ → ℕ → ℕ) where
  owns-insert_vnodes :
      (k : ℕ) (more vs : List Vnode)
      → contains k
          (owners (insert_vnodes murmur3 tag search_vnode search_position search_node more vs))
        ≡ (contains k (owners more) || contains k (owners vs))
  unfolding insert_vnodes
  owns-insert_vnodes k [] vs = refl
  owns-insert_vnodes k ((pos, o) ∷ more) vs =
      let i = search_vnode vs (pos, o) in
      ground
        (arith, owns-insert_vnodes k more (insert_at i (pos, o) vs), owns-insert_at k i pos o vs)

  owns-vnodes_from :
      (k node left i : ℕ)
      → contains k
          (owners (vnodes_from murmur3 tag search_vnode search_position search_node node left i))
        ≡ (k == node && ltb 0 left)
  unfolding vnodes_from
  owns-vnodes_from k node zero i = ground arith
  owns-vnodes_from k node (suc left) i = ground (arith, owns-vnodes_from k node left (i + 1))

  -- `add_node` keeps the ring well-formed, and its nodes are then those it had and the new one.
  pub add_node-IsRing :
      (node : ℕ) (r : Ring)
      → IsRing r
      → IsRing (add_node murmur3 tag search_vnode search_position search_node node r).0
        × ((k : ℕ)
            → contains k
                (add_node murmur3 tag search_vnode search_position search_node node
                  r).0.physical_nodes
              ≡ (k == node || contains k r.physical_nodes))
  unfolding add_node compute_vnodes_for
  add_node-IsRing node r v = elim (Bool-cases (contains node r.physical_nodes)) [
    | inl old ↦ rw old (
      v,
      λ k. ground (arith, old, ap (λ (i : ℕ). contains i r.physical_nodes) {x = k} {y = node}),
    )
    | inr fresh ↦
        let made =
          vnodes_from murmur3 tag search_vnode search_position search_node node r.vnodes_per_node
            0 in
        let i = search_node r.physical_nodes node in
        rw fresh (
          record {
            distinct = insert_at-Distinct i node r.physical_nodes v.distinct fresh;
            owned = λ k. ground (
              arith,
              owns-insert_vnodes k made r.vnodes,
              owns-vnodes_from k node r.vnodes_per_node 0,
              contains-insert_at k i node r.physical_nodes,
              v.owned k,
              v.some_vnodes,
            );
            some_vnodes = v.some_vnodes;
          },
          λ k. contains-insert_at k i node r.physical_nodes,
        )
  ]

  -- `remove_node` keeps the ring well-formed, and its nodes are then those it had but the one.
  pub remove_node-IsRing :
      (node : ℕ) (r : Ring)
      → IsRing r
      → IsRing (remove_node murmur3 tag search_vnode search_position search_node node r).0
        × ((k : ℕ)
            → contains k
                (remove_node murmur3 tag search_vnode search_position search_node node
                  r).0.physical_nodes
              ≡ (not (k == node) && contains k r.physical_nodes))
  unfolding remove_node
  remove_node-IsRing node r v = elim (Bool-cases (contains node r.physical_nodes)) [
    | inr absent ↦ rw absent (
      v,
      λ k. ground (arith, absent, ap (λ (i : ℕ). contains i r.physical_nodes) {x = k} {y = node}),
    )
    | inl there ↦ rw there (
      record {
        distinct = retain-Distinct node r.physical_nodes v.distinct;
        owned = λ k. ground (
          arith,
          owns-retain k node r.vnodes,
          contains-retain k node r.physical_nodes,
          v.owned k,
        );
        some_vnodes = v.some_vnodes;
      },
      λ k. contains-retain k node r.physical_nodes,
    )
  ]

  -- A preference list of a well-formed ring has `n` nodes, or all of them if there are fewer; they are
  -- different, and each is a node of the ring.
  pub preference_list-Distinct :
      (r : Ring) (key : RoutingKey) (n : ℕ)
      → IsRing r
      → (length (preference_list murmur3 tag search_vnode search_position search_node r key n)
          ≡ min n (length r.physical_nodes))
        × Distinct (preference_list murmur3 tag search_vnode search_position search_node r key n)
        × ((k : ℕ)
            → contains k
                (preference_list murmur3 tag search_vnode search_position search_node r key n)
              ≡ true
            → contains k r.physical_nodes ≡ true)
  preference_list-Distinct r key n v =
      let i = search_position r.vnodes (murmur3 (canonical_bytes key) % 2 ^ 64) % length r.vnodes in
      let visited = owners (rotation i r.vnodes) in
      let chosen = first_seen [] visited in
      let m = min n (length r.physical_nodes) in
      let same : (k : ℕ) → contains k chosen ≡ contains k r.physical_nodes = λ k.
        ground (arith, contains-first_seen k [] visited, owns-rotation k i r.vnodes, v.owned k) in
      let many : length chosen ≡ length r.physical_nodes =
        same_length chosen r.physical_nodes (first_seen-Distinct [] visited) v.distinct same in
      rw (preference_list-take murmur3 tag search_vnode search_position search_node r key n) (
        length-take m chosen (omega (arith, many)),
        take-Distinct m chosen (first_seen-Distinct [] visited),
        λ k h. sym (same k) ∙ contains_of_take k m chosen h,
      )
