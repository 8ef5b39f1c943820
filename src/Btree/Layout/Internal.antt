-- ===== src/Btree/Layout/Internal.antt =====
-- An internal node and its page: `from_bytes` and `to_bytes` of src/btree/node.rs.
use grumpydb.Prelude.{
  ℕ, ◌^◌, ◌≤◌, ◌<◌, ◌≡◌, refl, ap, ◌∙◌, arith, false, ok, subst, All, All-map, append-nil, sym, [],
  length,
}
use grumpydb.Prelude.Bytes.{
  Bytes, to_le_bytes, from_le_bytes, number_at, number_front, length-to_le_bytes,
}
use grumpydb.Prelude.Splice.{splice, length-splice, slice-splice_before, number_written}
use grumpydb.Page.{page_size, new_header, read_from, b_tree_internal}
use grumpydb.Btree.Layout.Header.{blank-page_id}
use grumpydb.Page.Manager.{blank}
use grumpydb.Page.Manager.Entries.{length-blank}
use grumpydb.Btree.Key.{Key, KeyLaws}
use grumpydb.Btree.Node.{InternalNode}
use grumpydb.Btree.Layout.{
  read_slots, child_ptr_size, child_bytes, read_child, internal_entries_start, is_overfull_internal,
  internal_header, internal_to_bytes, internal_from_bytes,
}
use grumpydb.Btree.Layout.Slots.{AgreeBelow, read_slots-write_slots}
use grumpydb.Btree.Layout.Capacity.{internal_entries-fit}

read_child_lem : (n : ℕ) → n < 2 ^ 32 → read_child (child_bytes n) ≡ n
read_child_lem n h = rw (← append-nil (to_le_bytes 4 n)) (number_front 4 n [] h)

-- The header fields of an internal node, as they stand in a page.
record InternalFields {K C : Type 0} (key : Key K C) (node : InternalNode K C) (page : Bytes)
    : Type 0 where
  page_id_at : number_at 4 0 page ≡ node.page_id
  num_keys_at : number_at 2 32 page ≡ node.num_keys
  right_child_at : number_at 4 34 page ≡ node.right_child
  config_at : key.read_node_config page 38 ≡ node.config

-- A node of an internal page: its fields are of their types, the count is the number of the
-- entries, and the keys fit their slots.
pub record IsInternal {K C : Type 0} (IsConfig : C → Type 0) (Fits : C → K → Type 0)
    (node : InternalNode K C) : Type 0 where
  pub id_fits : node.page_id < 2 ^ 32
  pub count_fits : node.num_keys < 2 ^ 16
  pub child_fits : node.right_child < 2 ^ 32
  pub config_fits : IsConfig node.config
  pub counted : node.num_keys ≡ length node.entries
  pub entries_fit : All (λ e. Fits node.config e.0 × (e.1 < 2 ^ 32)) node.entries

module _ {K C : Type 0} (key : Key K C) {IsConfig : C → Type 0} {Fits : C → K → Type 0}
    (laws : KeyLaws key IsConfig Fits) where
  length-internal_header : (node : InternalNode K C) → length (internal_header key node) ≡ page_size
  unfolding internal_header
  length-internal_header node =
      let buf0 = blank (new_header node.page_id b_tree_internal) in
      let buf1 = splice 32 (to_le_bytes 2 node.num_keys) buf0 in
      let buf2 = splice 34 (to_le_bytes 4 node.right_child) buf1 in
      (laws.write_within node.config buf2 38).0
      ∙ length-splice 34 (to_le_bytes 4 node.right_child) buf1
      ∙ length-splice 32 (to_le_bytes 2 node.num_keys) buf0
      ∙ length-blank (new_header node.page_id b_tree_internal)

  internal_fields :
      (node : InternalNode K C) (page : Bytes)
      → IsInternal IsConfig Fits node
      → internal_entries_start key ≤ page_size
      → AgreeBelow (internal_entries_start key) page (internal_header key node)
      → InternalFields key node page
  unfolding internal_header
  internal_fields node page typed start agree =
      let buf0 = blank (new_header node.page_id b_tree_internal) in
      let keys = to_le_bytes 2 node.num_keys in
      let buf1 = splice 32 keys buf0 in
      let child = to_le_bytes 4 node.right_child in
      let buf2 = splice 34 child buf1 in
      let full0 = length-blank (new_header node.page_id b_tree_internal) in
      let full1 = length-splice 32 keys buf0 in
      let full2 = length-splice 34 child buf1 in
      let before = (laws.write_within node.config buf2 38).1 in
      record {
        page_id_at =
            ap from_le_bytes (
              agree.1 0 4 (omega arith)
              ∙ before 0 4 (omega arith)
              ∙ slice-splice_before 0 4 34 child buf1 (omega arith)
              ∙ slice-splice_before 0 4 32 keys buf0 (omega arith))
            ∙ blank-page_id node.page_id b_tree_internal typed.id_fits;
        num_keys_at = number_written 2 32 node.num_keys buf0 page typed.count_fits (omega arith) (
            agree.1 32 2 (omega arith)
            ∙ before 32 2 (omega arith)
            ∙ slice-splice_before 32 2 34 child buf1 (omega arith));
        right_child_at =
            number_written 4 34 node.right_child buf1 page typed.child_fits (omega arith)
              (agree.1 34 4 (omega arith) ∙ before 34 4 (omega arith));
        config_at =
            laws.read_config node.config buf2 page 38 typed.config_fits (omega arith)
              (agree.1 38 key.node_meta_bytes (omega arith));
      }

  internal_read :
      (node : InternalNode K C) (page : Bytes)
      → InternalFields key node page
      → read_slots key read_child child_ptr_size node.config
          (internal_entries_start key)
          node.num_keys
          page
        ≡ ok node.entries
      → internal_from_bytes key page ≡ ok node
  unfolding internal_from_bytes read_from
  internal_read node page f read =
      rw (f.num_keys_at, f.config_at, read, f.page_id_at, f.right_child_at) refl

  -- An internal node that is not overfull is written to a page, and the page is read back as the
  -- node: the keys fit their slots, the count is that of the entries, and the fields are of their
  -- types. The entries start within the page.
  pub internal_from_bytes-to_bytes :
      (node : InternalNode K C)
      → IsInternal IsConfig Fits node
      → internal_entries_start key ≤ page_size
      → is_overfull_internal key node ≡ false
      → (page : Bytes) × (internal_to_bytes key node ≡ ok page)
        × (length page ≡ page_size)
        × (internal_from_bytes key page ≡ ok node)
  unfolding internal_to_bytes
  internal_from_bytes-to_bytes node typed start not_over =
      let full = length-internal_header node in
      let room = internal_entries-fit key node typed.counted start not_over in
      let (page, written, agree, read) =
        read_slots-write_slots key laws node.config child_ptr_size child_bytes read_child
          node.entries (internal_entries_start key) (internal_header key node)
          (All-map node.entries (λ e h. (h.0, length-to_le_bytes 4 e.1, read_child_lem e.1 h.1))
            typed.entries_fit)
          (omega arith) in
      (
        page,
        written,
        agree.0 ∙ full,
        internal_read node page (internal_fields node page typed start agree) (
            subst
              (λ n.
                read_slots key read_child child_ptr_size node.config (internal_entries_start key) n
                  page
                ≡ ok node.entries)
              (sym typed.counted) read),
      )
