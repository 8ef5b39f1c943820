-- ===== src/Btree/Layout.antt =====
-- The bytes of a node's page, src/btree/node.rs, and how many entries fit in it.
pub mod Slots
pub mod Capacity
pub mod Header
pub mod Internal
pub mod Leaf
pub mod Split
use grumpydb.Prelude.{
  ℕ, zero, suc, ◌+◌, ◌-◌, ◌*◌, ◌/◌, Bool, [], ◌∷◌, ◌++◌, List, ok, ◌>>=◌, ◌>>◌, require, ltb, leb,
  length, slice,
}
use grumpydb.Prelude.Bytes.{Bytes, to_le_bytes, number_at}
use grumpydb.Prelude.Splice.{splice}
use grumpydb.Page.{page_size, page_header_size, b_tree_internal, b_tree_leaf, new_header, read_from}
use grumpydb.Page.Manager.{blank}
use grumpydb.Btree.Key.{Key, Checked, panic}
use grumpydb.Btree.Node.{InternalNode, LeafNode, Entries, Location}

abbrev pub internal_fixed_header : ℕ
internal_fixed_header = 6

abbrev pub leaf_fixed_header : ℕ
leaf_fixed_header = 10

abbrev pub child_ptr_size : ℕ
child_ptr_size = 4

abbrev pub data_ptr_size : ℕ
data_ptr_size = 6

abbrev pub usable_space : ℕ
usable_space = page_size - page_header_size

abbrev pub min_occupancy_percent : ℕ
min_occupancy_percent = 40

-- the pointers behind the keys, as bytes and back
abbrev pub child_bytes : ℕ → Bytes
child_bytes child_page_id = to_le_bytes 4 child_page_id

abbrev pub read_child : Bytes → ℕ
read_child p = number_at 4 0 p

abbrev pub location_bytes : Location → Bytes
location_bytes (page_id, slot_id) = to_le_bytes 4 page_id ++ to_le_bytes 2 slot_id

abbrev pub read_location : Bytes → Location
read_location p = (number_at 4 0 p, number_at 2 4 p)

module _ {K C : Type 0} (key : Key K C) where
  abbrev pub internal_entries_start : ℕ
  internal_entries_start = page_header_size + internal_fixed_header + key.node_meta_bytes

  abbrev pub leaf_entries_start : ℕ
  leaf_entries_start = page_header_size + leaf_fixed_header + key.node_meta_bytes

  unfoldable pub internal_max_keys : C → ℕ
  internal_max_keys cfg =
      let entry_size = key.slot_key_size cfg + child_ptr_size in
      let header_overhead = internal_fixed_header + key.node_meta_bytes in
      (usable_space - header_overhead) / entry_size

  unfoldable pub leaf_max_entries : C → ℕ
  leaf_max_entries cfg =
      let entry_size = key.slot_key_size cfg + data_ptr_size in
      let header_overhead = leaf_fixed_header + key.node_meta_bytes in
      (usable_space - header_overhead) / entry_size

  unfoldable pub internal_min_keys : C → ℕ
  internal_min_keys cfg = internal_max_keys cfg * min_occupancy_percent / 100

  unfoldable pub leaf_min_entries : C → ℕ
  leaf_min_entries cfg = leaf_max_entries cfg * min_occupancy_percent / 100

  unfoldable pub is_overfull_internal : InternalNode K C → Bool
  is_overfull_internal node = ltb (internal_max_keys node.config) node.num_keys

  unfoldable pub is_underfull_internal : InternalNode K C → Bool
  unfolding internal_min_keys
  is_underfull_internal node = ltb node.num_keys (internal_min_keys node.config)

  unfoldable pub is_overfull_leaf : LeafNode K C → Bool
  is_overfull_leaf leaf = ltb (leaf_max_entries leaf.config) leaf.num_entries

  unfoldable pub is_underfull_leaf : LeafNode K C → Bool
  unfolding leaf_min_entries
  is_underfull_leaf leaf = ltb leaf.num_entries (leaf_min_entries leaf.config)

  -- One round of the loop that writes the entries: the key into its slot, and what it points to.
  unfoldable pub write_slot : C → K → Bytes → ℕ → Bytes → Checked Bytes
  write_slot c k pointer base buf = do
    let slot_key = key.slot_key_size c
    require (leb (base + slot_key) (length buf)) panic
    slot ← key.write_key k (slice base slot_key buf) c
    let buf' = splice base slot buf
    require (leb (base + slot_key + length pointer) (length buf')) panic
    ok (splice (base + slot_key) pointer buf')

  -- The loops over the entries of a node, of either kind; each starts where the last slot ended.
  unfoldable pub write_slots :
      {V : Type 0} → (V → Bytes) → C → ℕ → Entries K V → Bytes → Checked Bytes
  write_slots to_pointer c base [] buf = ok buf
  write_slots to_pointer c base ((k, v) ∷ es) buf = do
    buf' ← write_slot c k (to_pointer v) base buf
    write_slots to_pointer c (base + (key.slot_key_size c + length (to_pointer v))) es buf'

  unfoldable pub read_slots :
      {V : Type 0} → (Bytes → V) → ℕ → C → ℕ → ℕ → Bytes → Checked (Entries K V)
  read_slots of_pointer pointer_size c base zero buf = ok []
  read_slots of_pointer pointer_size c base (suc n) buf = do
    let slot_key = key.slot_key_size c
    require (leb (base + slot_key) (length buf)) panic
    k ← key.read_key (slice base slot_key buf) c
    require (leb (base + slot_key + pointer_size) (length buf)) panic
    let v = of_pointer (slice (base + slot_key) pointer_size buf)
    es ← read_slots of_pointer pointer_size c (base + (slot_key + pointer_size)) n buf
    ok ((k, v) ∷ es)

  -- the page before the entries are written
  unfoldable pub internal_header : InternalNode K C → Bytes
  internal_header node =
      let buf = blank (new_header node.page_id b_tree_internal) in
      let buf = splice 32 (to_le_bytes 2 node.num_keys) buf in
      let buf = splice 34 (to_le_bytes 4 node.right_child) buf in
      key.write_node_config node.config buf (page_header_size + internal_fixed_header)

  unfoldable pub leaf_header : LeafNode K C → Bytes
  leaf_header leaf =
      let buf = blank (new_header leaf.page_id b_tree_leaf) in
      let buf = splice 32 (to_le_bytes 2 leaf.num_entries) buf in
      let buf = splice 34 (to_le_bytes 4 leaf.next_leaf) buf in
      let buf = splice 38 (to_le_bytes 4 leaf.prev_leaf) buf in
      key.write_node_config leaf.config buf (page_header_size + leaf_fixed_header)

  unfoldable pub internal_to_bytes : InternalNode K C → Checked Bytes
  internal_to_bytes node =
      write_slots child_bytes node.config internal_entries_start node.entries (internal_header node)

  unfoldable pub leaf_to_bytes : LeafNode K C → Checked Bytes
  leaf_to_bytes leaf =
      write_slots location_bytes leaf.config leaf_entries_start leaf.entries (leaf_header leaf)

  unfoldable pub internal_from_bytes : Bytes → Checked (InternalNode K C)
  internal_from_bytes buf = do
    let num_keys = number_at 2 32 buf
    let config = key.read_node_config buf (page_header_size + internal_fixed_header)
    entries ← read_slots read_child child_ptr_size config internal_entries_start num_keys buf
    ok (record {
      page_id = (read_from buf).page_id;
      num_keys = num_keys;
      right_child = number_at 4 34 buf;
      config = config;
      entries = entries;
    })

  unfoldable pub leaf_from_bytes : Bytes → Checked (LeafNode K C)
  leaf_from_bytes buf = do
    let num_entries = number_at 2 32 buf
    let config = key.read_node_config buf (page_header_size + leaf_fixed_header)
    entries ← read_slots read_location data_ptr_size config leaf_entries_start num_entries buf
    ok (record {
      page_id = (read_from buf).page_id;
      num_entries = num_entries;
      next_leaf = number_at 4 34 buf;
      prev_leaf = number_at 4 38 buf;
      config = config;
      entries = entries;
    })
