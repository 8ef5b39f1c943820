-- ===== src/Btree/Layout/Split.antt =====
-- How full the halves of a split node are: src/btree/node.rs and src/btree/ops.rs.
use native.Mathlib.Nat.{div-le_self}
use grumpydb.Prelude.{
  ℕ, ◌+◌, ◌-◌, ◌*◌, ◌/◌, ◌%◌, ◌^◌, ◌≤◌, ◌<◌, ◌≡◌, arith, false, some, ge→ltb, length, length-take,
  length-drop, take, drop, subst, [], ◌∷◌,
}
use grumpydb.Btree.Key.{Key}
use grumpydb.Btree.Node.{Entries, InternalNode, LeafNode, split_leaf, split_internal, halves}
use grumpydb.Btree.Layout.{
  leaf_max_entries, leaf_min_entries, internal_max_keys, internal_min_keys, is_overfull_leaf,
  is_underfull_leaf, is_overfull_internal, is_underfull_internal,
}

module _ {K C : Type 0} (key : Key K C) where
  leaf_max_entries-le : (c : C) → leaf_max_entries key c ≤ 8160
  unfolding leaf_max_entries
  leaf_max_entries-le c =
      omega (arith, div-le_self (8160 - (10 + key.node_meta_bytes)) (key.slot_key_size c + 6))

  internal_max_keys-le : (c : C) → internal_max_keys key c ≤ 8160
  unfolding internal_max_keys
  internal_max_keys-le c =
      omega (arith, div-le_self (8160 - (6 + key.node_meta_bytes)) (key.slot_key_size c + 4))

  -- The node holds from the smallest to the largest number of entries, and counts them.
  abbrev pub IsBalancedLeaf : LeafNode K C → Type 0
  IsBalancedLeaf leaf =
      (leaf.num_entries ≡ length leaf.entries)
      × (is_overfull_leaf key leaf ≡ false)
      × (is_underfull_leaf key leaf ≡ false)

  abbrev pub IsBalancedInternal : InternalNode K C → Type 0
  IsBalancedInternal node =
      (node.num_keys ≡ length node.entries)
      × (is_overfull_internal key node ≡ false)
      × (is_underfull_internal key node ≡ false)

  balanced_leaf :
      (leaf : LeafNode K C)
      → leaf.num_entries ≡ length leaf.entries
      → length leaf.entries ≤ leaf_max_entries key leaf.config
      → leaf_max_entries key leaf.config * 40 / 100 ≤ length leaf.entries
      → IsBalancedLeaf leaf
  unfolding is_overfull_leaf is_underfull_leaf leaf_min_entries
  balanced_leaf leaf e most least = (
    e,
    ge→ltb (leaf_max_entries key leaf.config) leaf.num_entries (omega arith),
    ge→ltb leaf.num_entries (leaf_max_entries key leaf.config * 40 / 100) (omega arith),
  )

  balanced_internal :
      (node : InternalNode K C)
      → node.num_keys ≡ length node.entries
      → length node.entries ≤ internal_max_keys key node.config
      → internal_max_keys key node.config * 40 / 100 ≤ length node.entries
      → IsBalancedInternal node
  unfolding is_overfull_internal is_underfull_internal internal_min_keys
  balanced_internal node e most least = (
    e,
    ge→ltb (internal_max_keys key node.config) node.num_keys (omega arith),
    ge→ltb node.num_keys (internal_max_keys key node.config * 40 / 100) (omega arith),
  )

  -- A leaf with one entry more than a leaf may hold is split into two leaves that are neither
  -- overfull nor underfull. A leaf may hold an entry.
  pub split_leaf-IsBalancedLeaf :
      (full : LeafNode K C) (id : ℕ)
      → 0 < leaf_max_entries key full.config
      → length full.entries ≡ leaf_max_entries key full.config + 1
      → IsBalancedLeaf (split_leaf id full).0 × IsBalancedLeaf (split_leaf id full).1
  unfolding split_leaf
  split_leaf-IsBalancedLeaf full id some_room overfull =
      let most = leaf_max_entries-le full.config in
      let mid = length full.entries / 2 in
      let left = length-take mid full.entries (omega arith) in
      let right = length-drop mid full.entries in
      (
        balanced_leaf (split_leaf id full).0 (omega arith) (omega arith) (omega arith),
        balanced_leaf (split_leaf id full).1 (omega arith) (omega arith) (omega arith),
      )

  halves-IsBalancedInternal :
      (full left right : InternalNode K C) (id : ℕ) (p : K) (ls ds : Entries K ℕ)
      → halves id full ls ds ≡ some (left, right, p)
      → length ls ≡ (internal_max_keys key full.config + 1) / 2
      → length ls + length ds ≡ internal_max_keys key full.config + 1
      → IsBalancedInternal left × IsBalancedInternal right
  unfolding halves
  halves-IsBalancedInternal full left right id p ls [] e l total = cc
  halves-IsBalancedInternal full left right id p ls ((q, middle) ∷ rs) e l total =
      let most = internal_max_keys-le full.config in
      let new_left : InternalNode K C = record full {
        entries = ls;
        num_keys = length ls % 2 ^ 16;
        right_child = middle;
      } in
      let new_right : InternalNode K C = record {
        page_id = id;
        num_keys = length rs % 2 ^ 16;
        right_child = full.right_child;
        config = full.config;
        entries = rs;
      } in
      let both : IsBalancedInternal new_left × IsBalancedInternal new_right = (
        balanced_internal new_left (omega arith) (omega arith) (omega arith),
        balanced_internal new_right (omega arith) (omega arith) (omega arith),
      ) in
      let same : ◌≡◌ {A = InternalNode K C × InternalNode K C × K} (new_left, new_right, q)
          (left, right, p) =
        cc in
      subst {A = InternalNode K C × InternalNode K C × K}
        (λ t. IsBalancedInternal t.0 × IsBalancedInternal t.1) same both

  -- An internal node with one key more than a node may hold is split into two nodes that are neither
  -- overfull nor underfull.
  pub split_internal-IsBalancedInternal :
      (full left right : InternalNode K C) (id : ℕ) (p : K)
      → length full.entries ≡ internal_max_keys key full.config + 1
      → split_internal id full ≡ some (left, right, p)
      → IsBalancedInternal left × IsBalancedInternal right
  unfolding split_internal
  split_internal-IsBalancedInternal full left right id p overfull e =
      let mid = length full.entries / 2 in
      let left_length = length-take mid full.entries (omega arith) in
      let right_length = length-drop mid full.entries in
      halves-IsBalancedInternal full left right id p (take mid full.entries) (drop mid full.entries)
        e (omega arith) (omega arith)
