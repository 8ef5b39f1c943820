-- ===== src/Btree/Layout/Capacity.antt =====
-- How full a node is, and how many entries its page holds: src/btree/node.rs.
use native.Mathlib.Nat.{div-mul-le_self, mul-le-mul_right}
use grumpydb.Prelude.{ℕ, ◌+◌, ◌-◌, ◌*◌, ◌/◌, ◌≤◌, ◌≡◌, arith, false, ltb→ge, length}
use grumpydb.Page.{page_size}
use grumpydb.Btree.Key.{Key}
use grumpydb.Btree.Node.{InternalNode, LeafNode}
use grumpydb.Btree.Layout.{
  child_ptr_size, data_ptr_size, internal_max_keys, leaf_max_entries, internal_entries_start,
  leaf_entries_start, is_overfull_internal, is_overfull_leaf,
}

-- As many entries as the space over their size, or fewer, lie in the space.
within : (space size n : ℕ) → n ≤ space / size → n * size ≤ space
within space size n h = omega (arith, mul-le-mul_right size h, div-mul-le_self space size)

module _ {K C : Type 0} (key : Key K C) where
  pub internal_entries-fit :
      (node : InternalNode K C)
      → node.num_keys ≡ length node.entries
      → internal_entries_start key ≤ page_size
      → is_overfull_internal key node ≡ false
      → internal_entries_start key
          + length node.entries * (key.slot_key_size node.config + child_ptr_size)
        ≤ page_size
  unfolding is_overfull_internal internal_max_keys
  internal_entries-fit node counted start not_over =
      let size = key.slot_key_size node.config + child_ptr_size in
      let most = ltb→ge (internal_max_keys key node.config) node.num_keys not_over in
      omega
        (arith, within (8160 - (6 + key.node_meta_bytes)) size (length node.entries) (omega arith))

  pub leaf_entries-fit :
      (leaf : LeafNode K C)
      → leaf.num_entries ≡ length leaf.entries
      → leaf_entries_start key ≤ page_size
      → is_overfull_leaf key leaf ≡ false
      → leaf_entries_start key
          + length leaf.entries * (key.slot_key_size leaf.config + data_ptr_size)
        ≤ page_size
  unfolding is_overfull_leaf leaf_max_entries
  leaf_entries-fit leaf counted start not_over =
      let size = key.slot_key_size leaf.config + data_ptr_size in
      let most = ltb→ge (leaf_max_entries key leaf.config) leaf.num_entries not_over in
      omega
        (arith, within (8160 - (10 + key.node_meta_bytes)) size (length leaf.entries) (omega arith))
