-- ===== src/Witnesses/Btree.antt =====
-- Nodes of a B+ tree on concrete keys.
use grumpydb.Prelude.{
  ℕ, ◌≡◌, refl, none, some, [], ◌∷◌, ◌&&◌, not, ◌==◌, if◌then◌else◌, false, ok, length, replicate,
  arith, ◌+◌, ◌<◌, ◌^◌,
}
use grumpydb.Prelude.Order.{nat_ord}
use grumpydb.Prelude.Map.{is_eq, IsSorted}
use grumpydb.Btree.Node.{
  InternalNode, LeafNode, search, insert_entry, remove_entry, find_in_leaf, split_leaf,
  split_internal, is_found, position, insert_separator, find_child, find_child_index, is_lt,
}
use grumpydb.Prelude.Bytes.{Bytes}
use grumpydb.Page.{page_size}
use grumpydb.Btree.Key.{uuid_key, uuid_laws, vec_key, vec_laws, FitsSlot}
use grumpydb.Btree.Layout.{
  leaf_to_bytes, leaf_from_bytes, internal_to_bytes, internal_from_bytes, is_overfull_leaf,
  is_overfull_internal, leaf_max_entries, internal_max_keys,
}
use grumpydb.Btree.Layout.Leaf.{IsLeaf, leaf_from_bytes-to_bytes}
use grumpydb.Btree.Layout.Internal.{IsInternal, internal_from_bytes-to_bytes}
use grumpydb.Btree.Layout.Split.{
  IsBalancedLeaf, IsBalancedInternal, split_leaf-IsBalancedLeaf, split_internal-IsBalancedInternal,
}
use grumpydb.Btree.Node.Leaf.{
  find_in_leaf-insert_entry, find_in_leaf-remove_entry, find_in_leaf-split_leaf,
}
use grumpydb.Btree.Node.Routing.{find_child-insert_separator, find_child-split_internal}

abbrev leaf : LeafNode ℕ (Unit {0})
leaf = record {
  page_id = 2;
  num_entries = 3;
  next_leaf = 0;
  prev_leaf = 0;
  config = tt;
  entries = (10, (5, 0)) ∷ (20, (5, 1)) ∷ (30, (6, 0)) ∷ [];
}

leaf-IsSorted : IsSorted leaf.entries
leaf-IsSorted = ((refl, (refl, tt)), ((refl, tt), (tt, tt)))

no_25 : search leaf 25 ≡ none
unfolding search is_found
no_25 = refl

find_in_leaf-insert_entry_example :
    IsSorted (insert_entry 25 (7, 3) leaf).entries
    × ((j : ℕ)
        → find_in_leaf (insert_entry 25 (7, 3) leaf) j
          ≡ (if is_eq (nat_ord.cmp j 25) then some (7, 3) else find_in_leaf leaf j))
find_in_leaf-insert_entry_example = find_in_leaf-insert_entry leaf 25 (7, 3) leaf-IsSorted no_25

leaf_at_20 : find_in_leaf leaf 20 ≡ some (5, 1)
unfolding find_in_leaf search is_found position
leaf_at_20 = refl

find_in_leaf-remove_entry_example :
    (rest : LeafNode ℕ (Unit {0})) × (remove_entry 20 leaf ≡ some ((20, (5, 1)), rest))
    × IsSorted rest.entries
    × ((j : ℕ)
        → find_in_leaf rest j ≡ (if is_eq (nat_ord.cmp j 20) then none else find_in_leaf leaf j))
find_in_leaf-remove_entry_example =
    find_in_leaf-remove_entry leaf 20 (5, 1) leaf-IsSorted leaf_at_20

promoted : (split_leaf 9 leaf).2 ≡ some 20
unfolding split_leaf
promoted = refl

find_in_leaf-split_leaf_example :
    IsSorted (split_leaf 9 leaf).0.entries
    × IsSorted (split_leaf 9 leaf).1.entries
    × ((k : ℕ)
        → find_in_leaf leaf k ≡ (
            if is_lt (nat_ord.cmp k 20)
            then find_in_leaf (split_leaf 9 leaf).0 k
            else find_in_leaf (split_leaf 9 leaf).1 k))
find_in_leaf-split_leaf_example = find_in_leaf-split_leaf leaf 9 20 leaf-IsSorted promoted

abbrev node : InternalNode ℕ (Unit {0})
node = record {
  page_id = 3;
  num_keys = 3;
  right_child = 14;
  config = tt;
  entries = (10, 11) ∷ (20, 12) ∷ (30, 13) ∷ [];
}

node-IsSorted : IsSorted node.entries
node-IsSorted = ((refl, (refl, tt)), ((refl, tt), (tt, tt)))

no_separator : is_found 25 node.entries ≡ false
unfolding is_found
no_separator = refl

find_child-insert_separator_example : find_child (insert_separator 25 99 node) 27 ≡ (
    if (find_child_index node 27 == find_child_index node 25) && not (is_lt (nat_ord.cmp 27 25))
    then 99
    else find_child node 27)
find_child-insert_separator_example =
    find_child-insert_separator node 25 27 99 node-IsSorted no_separator

abbrev left_half : InternalNode ℕ (Unit {0})
left_half = record {
  page_id = 3;
  num_keys = 1;
  right_child = 12;
  config = tt;
  entries = (10, 11) ∷ [];
}

abbrev right_half : InternalNode ℕ (Unit {0})
right_half = record {
  page_id = 8;
  num_keys = 1;
  right_child = 14;
  config = tt;
  entries = (30, 13) ∷ [];
}

halved : split_internal 8 node ≡ some (left_half, right_half, 20)
unfolding split_internal
halved = refl

find_child-split_internal_example :
    find_child node 25
    ≡ (if is_lt (nat_ord.cmp 25 20) then find_child left_half 25 else find_child right_half 25)
find_child-split_internal_example =
    find_child-split_internal node left_half right_half 8 20 25 node-IsSorted halved

abbrev uuid_of : ℕ → Bytes
uuid_of n = n ∷ replicate 15 0

abbrev uuid_leaf : LeafNode Bytes (Unit {0})
uuid_leaf = record {
  page_id = 2;
  num_entries = 2;
  next_leaf = 7;
  prev_leaf = 0;
  config = tt;
  entries = (uuid_of 1, (5, 0)) ∷ (uuid_of 2, (70000, 515)) ∷ [];
}

uuid_leaf-IsLeaf : IsLeaf (λ c. Unit {0}) (λ c k. length k ≡ 16) uuid_leaf
uuid_leaf-IsLeaf = record {
  id_fits = omega arith;
  count_fits = omega arith;
  next_fits = omega arith;
  prev_fits = omega arith;
  config_fits = tt;
  counted = refl;
  entries_fit = ((refl, omega arith, omega arith), ((refl, omega arith, omega arith), tt));
}

uuid_leaf-fits : is_overfull_leaf uuid_key uuid_leaf ≡ false
unfolding is_overfull_leaf leaf_max_entries
uuid_leaf-fits = refl

leaf_from_bytes-to_bytes_example :
    (page : Bytes) × (leaf_to_bytes uuid_key uuid_leaf ≡ ok page)
    × (length page ≡ page_size)
    × (leaf_from_bytes uuid_key page ≡ ok uuid_leaf)
leaf_from_bytes-to_bytes_example =
    leaf_from_bytes-to_bytes uuid_key uuid_laws uuid_leaf uuid_leaf-IsLeaf (omega arith)
      uuid_leaf-fits

abbrev vec_node : InternalNode Bytes ℕ
vec_node = record {
  page_id = 3;
  num_keys = 2;
  right_child = 14;
  config = 145;
  entries = (1 ∷ 2 ∷ [], 11) ∷ (1 ∷ 3 ∷ 0 ∷ [], 12) ∷ [];
}

vec_node-IsInternal : IsInternal (λ c. c < 2 ^ 16) FitsSlot vec_node
vec_node-IsInternal = record {
  id_fits = omega arith;
  count_fits = omega arith;
  child_fits = omega arith;
  config_fits = omega arith;
  counted = refl;
  entries_fit =
      (((omega arith, omega arith), omega arith), (((omega arith, omega arith), omega arith), tt));
}

vec_node-fits : is_overfull_internal vec_key vec_node ≡ false
unfolding is_overfull_internal internal_max_keys
vec_node-fits = refl

internal_from_bytes-to_bytes_example :
    (page : Bytes) × (internal_to_bytes vec_key vec_node ≡ ok page)
    × (length page ≡ page_size)
    × (internal_from_bytes vec_key page ≡ ok vec_node)
internal_from_bytes-to_bytes_example =
    internal_from_bytes-to_bytes vec_key vec_laws vec_node vec_node-IsInternal (omega arith)
      vec_node-fits

-- Keys of up to 2000 bytes: four entries fit.
abbrev wide_leaf : LeafNode Bytes ℕ
wide_leaf = record {
  page_id = 2;
  num_entries = 5;
  next_leaf = 0;
  prev_leaf = 0;
  config = 2000;
  entries =
      (1 ∷ [], (5, 0))
      ∷ (2 ∷ [], (5, 1))
      ∷ (3 ∷ [], (5, 2))
      ∷ (4 ∷ [], (5, 3))
      ∷ (5 ∷ [], (6, 0))
      ∷ [];
}

wide_leaf-overfull : (0 < leaf_max_entries vec_key 2000) × (5 ≡ leaf_max_entries vec_key 2000 + 1)
unfolding leaf_max_entries
wide_leaf-overfull = (omega arith, refl)

split_leaf-IsBalancedLeaf_example :
    IsBalancedLeaf vec_key (split_leaf 9 wide_leaf).0
    × IsBalancedLeaf vec_key (split_leaf 9 wide_leaf).1
split_leaf-IsBalancedLeaf_example =
    split_leaf-IsBalancedLeaf vec_key wide_leaf 9 wide_leaf-overfull.0 wide_leaf-overfull.1

abbrev wide_node : InternalNode Bytes ℕ
wide_node = record {
  page_id = 3;
  num_keys = 5;
  right_child = 16;
  config = 2000;
  entries = (1 ∷ [], 11) ∷ (2 ∷ [], 12) ∷ (3 ∷ [], 13) ∷ (4 ∷ [], 14) ∷ (5 ∷ [], 15) ∷ [];
}

wide_node-overfull : 5 ≡ internal_max_keys vec_key 2000 + 1
unfolding internal_max_keys
wide_node-overfull = refl

abbrev wide_left : InternalNode Bytes ℕ
wide_left = record wide_node {
  num_keys = 2;
  right_child = 13;
  entries = (1 ∷ [], 11) ∷ (2 ∷ [], 12) ∷ [];
}

abbrev wide_right : InternalNode Bytes ℕ
wide_right = record wide_node {
  page_id = 8;
  num_keys = 2;
  entries = (4 ∷ [], 14) ∷ (5 ∷ [], 15) ∷ [];
}

wide_halved : split_internal 8 wide_node ≡ some (wide_left, wide_right, 3 ∷ [])
unfolding split_internal
wide_halved = refl

split_internal-IsBalancedInternal_example :
    IsBalancedInternal vec_key wide_left × IsBalancedInternal vec_key wide_right
split_internal-IsBalancedInternal_example =
    split_internal-IsBalancedInternal vec_key wide_node wide_left wide_right 8 (3 ∷ [])
      wide_node-overfull wide_halved
