-- ===== src/Btree/Layout/Leaf.antt =====
-- A leaf and its page: `from_bytes` and `to_bytes` of src/btree/node.rs.
use grumpydb.Prelude.{
  ◌^◌, ◌≤◌, ◌<◌, ◌≡◌, refl, ap, ◌∙◌, arith, false, ok, subst, All, All-map, append-nil, sym, [],
  length-append, length, take,
}
use grumpydb.Prelude.Bytes.{
  Bytes, to_le_bytes, from_le_bytes, number_at, number_front, past_le, length-to_le_bytes,
}
use grumpydb.Prelude.Splice.{splice, length-splice, slice-splice_before, number_written}
use grumpydb.Page.{page_size, new_header, read_from, b_tree_leaf}
use grumpydb.Btree.Layout.Header.{blank-page_id}
use grumpydb.Page.Manager.{blank}
use grumpydb.Page.Manager.Entries.{length-blank}
use grumpydb.Btree.Key.{Key, KeyLaws}
use grumpydb.Btree.Node.{LeafNode, Location}
use grumpydb.Btree.Layout.{
  read_slots, data_ptr_size, location_bytes, read_location, leaf_entries_start, is_overfull_leaf,
  leaf_header, leaf_to_bytes, leaf_from_bytes,
}
use grumpydb.Btree.Layout.Slots.{AgreeBelow, read_slots-write_slots}
use grumpydb.Btree.Layout.Capacity.{leaf_entries-fit}

read_location_lem :
    (l : Location)
    → l.0 < 2 ^ 32
    → l.1 < 2 ^ 16
    → (length (location_bytes l) ≡ data_ptr_size) × (read_location (location_bytes l) ≡ l)
read_location_lem (page_id, slot_id) h k =
    let page = to_le_bytes 4 page_id in
    let slot = to_le_bytes 2 slot_id in
    let slot_read : from_le_bytes (take 2 slot) ≡ slot_id =
      rw (← append-nil slot) (number_front 2 slot_id [] k) in
    (
      length-append page slot
          ∙ omega (arith, length-to_le_bytes 4 page_id, length-to_le_bytes 2 slot_id),
      rw (number_front 4 page_id slot h, past_le 4 page_id 4 0 slot (omega arith), slot_read) refl,
    )

-- The header fields of a leaf, as they stand in a page.
record LeafFields {K C : Type 0} (key : Key K C) (leaf : LeafNode K C) (page : Bytes) : Type 0 where
  page_id_at : number_at 4 0 page ≡ leaf.page_id
  num_entries_at : number_at 2 32 page ≡ leaf.num_entries
  next_leaf_at : number_at 4 34 page ≡ leaf.next_leaf
  prev_leaf_at : number_at 4 38 page ≡ leaf.prev_leaf
  config_at : key.read_node_config page 42 ≡ leaf.config

-- A leaf of a page: its fields are of their types, the count is the number of the entries, and the
-- keys fit their slots.
pub record IsLeaf {K C : Type 0} (IsConfig : C → Type 0) (Fits : C → K → Type 0)
    (leaf : LeafNode K C) : Type 0 where
  pub id_fits : leaf.page_id < 2 ^ 32
  pub count_fits : leaf.num_entries < 2 ^ 16
  pub next_fits : leaf.next_leaf < 2 ^ 32
  pub prev_fits : leaf.prev_leaf < 2 ^ 32
  pub config_fits : IsConfig leaf.config
  pub counted : leaf.num_entries ≡ length leaf.entries
  pub entries_fit :
      All (λ e. Fits leaf.config e.0 × (e.1.0 < 2 ^ 32) × (e.1.1 < 2 ^ 16)) leaf.entries

module _ {K C : Type 0} (key : Key K C) {IsConfig : C → Type 0} {Fits : C → K → Type 0}
    (laws : KeyLaws key IsConfig Fits) where
  length-leaf_header : (leaf : LeafNode K C) → length (leaf_header key leaf) ≡ page_size
  unfolding leaf_header
  length-leaf_header leaf =
      let buf0 = blank (new_header leaf.page_id b_tree_leaf) in
      let buf1 = splice 32 (to_le_bytes 2 leaf.num_entries) buf0 in
      let buf2 = splice 34 (to_le_bytes 4 leaf.next_leaf) buf1 in
      let buf3 = splice 38 (to_le_bytes 4 leaf.prev_leaf) buf2 in
      (laws.write_within leaf.config buf3 42).0
      ∙ length-splice 38 (to_le_bytes 4 leaf.prev_leaf) buf2
      ∙ length-splice 34 (to_le_bytes 4 leaf.next_leaf) buf1
      ∙ length-splice 32 (to_le_bytes 2 leaf.num_entries) buf0
      ∙ length-blank (new_header leaf.page_id b_tree_leaf)

  leaf_fields :
      (leaf : LeafNode K C) (page : Bytes)
      → IsLeaf IsConfig Fits leaf
      → leaf_entries_start key ≤ page_size
      → AgreeBelow (leaf_entries_start key) page (leaf_header key leaf)
      → LeafFields key leaf page
  unfolding leaf_header
  leaf_fields leaf page typed start agree =
      let buf0 = blank (new_header leaf.page_id b_tree_leaf) in
      let count = to_le_bytes 2 leaf.num_entries in
      let buf1 = splice 32 count buf0 in
      let next = to_le_bytes 4 leaf.next_leaf in
      let buf2 = splice 34 next buf1 in
      let prev = to_le_bytes 4 leaf.prev_leaf in
      let buf3 = splice 38 prev buf2 in
      let full0 = length-blank (new_header leaf.page_id b_tree_leaf) in
      let full1 = length-splice 32 count buf0 in
      let full2 = length-splice 34 next buf1 in
      let full3 = length-splice 38 prev buf2 in
      let before = (laws.write_within leaf.config buf3 42).1 in
      record {
        page_id_at =
            ap from_le_bytes (
              agree.1 0 4 (omega arith)
              ∙ before 0 4 (omega arith)
              ∙ slice-splice_before 0 4 38 prev buf2 (omega arith)
              ∙ slice-splice_before 0 4 34 next buf1 (omega arith)
              ∙ slice-splice_before 0 4 32 count buf0 (omega arith))
            ∙ blank-page_id leaf.page_id b_tree_leaf typed.id_fits;
        num_entries_at =
            number_written 2 32 leaf.num_entries buf0 page typed.count_fits (omega arith) (
              agree.1 32 2 (omega arith)
              ∙ before 32 2 (omega arith)
              ∙ slice-splice_before 32 2 38 prev buf2 (omega arith)
              ∙ slice-splice_before 32 2 34 next buf1 (omega arith));
        next_leaf_at = number_written 4 34 leaf.next_leaf buf1 page typed.next_fits (omega arith) (
            agree.1 34 4 (omega arith)
            ∙ before 34 4 (omega arith)
            ∙ slice-splice_before 34 4 38 prev buf2 (omega arith));
        prev_leaf_at =
            number_written 4 38 leaf.prev_leaf buf2 page typed.prev_fits (omega arith)
              (agree.1 38 4 (omega arith) ∙ before 38 4 (omega arith));
        config_at =
            laws.read_config leaf.config buf3 page 42 typed.config_fits (omega arith)
              (agree.1 42 key.node_meta_bytes (omega arith));
      }

  leaf_read :
      (leaf : LeafNode K C) (page : Bytes)
      → LeafFields key leaf page
      → read_slots key read_location data_ptr_size leaf.config
          (leaf_entries_start key)
          leaf.num_entries
          page
        ≡ ok leaf.entries
      → leaf_from_bytes key page ≡ ok leaf
  unfolding leaf_from_bytes read_from
  leaf_read leaf page f read =
      rw (f.num_entries_at, f.config_at, read, f.page_id_at, f.next_leaf_at, f.prev_leaf_at) refl

  -- A leaf that is not overfull is written to a page, and the page is read back as the leaf: the
  -- keys fit their slots, the count is that of the entries, and the fields are of their types. The
  -- entries start within the page.
  pub leaf_from_bytes-to_bytes :
      (leaf : LeafNode K C)
      → IsLeaf IsConfig Fits leaf
      → leaf_entries_start key ≤ page_size
      → is_overfull_leaf key leaf ≡ false
      → (page : Bytes) × (leaf_to_bytes key leaf ≡ ok page)
        × (length page ≡ page_size)
        × (leaf_from_bytes key page ≡ ok leaf)
  unfolding leaf_to_bytes
  leaf_from_bytes-to_bytes leaf typed start not_over =
      let full = length-leaf_header leaf in
      let room = leaf_entries-fit key leaf typed.counted start not_over in
      let (page, written, agree, read) =
        read_slots-write_slots key laws leaf.config data_ptr_size location_bytes read_location
          leaf.entries (leaf_entries_start key) (leaf_header key leaf)
          (All-map leaf.entries (λ e h. let p = read_location_lem e.1 h.1 h.2 in (h.0, p.0, p.1))
            typed.entries_fit)
          (omega arith) in
      (
        page,
        written,
        agree.0 ∙ full,
        leaf_read leaf page (leaf_fields leaf page typed start agree) (
            subst
              (λ n.
                read_slots key read_location data_ptr_size leaf.config (leaf_entries_start key) n
                  page
                ≡ ok leaf.entries)
              (sym typed.counted) read),
      )
