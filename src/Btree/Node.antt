-- ===== src/Btree/Node.antt =====
-- The nodes of src/btree/node.rs in memory, and how src/btree/ops.rs splits them. The order of the
-- keys is an instance; a key type comes with a type of configurations, which nodes carry along. The
-- searches of the standard library, on a sorted list, count the entries in front.
pub mod Leaf
pub mod Routing
use grumpydb.Prelude.{
  ℕ, zero, suc, ◌+◌, ◌-◌, ◌*◌, ◌/◌, ◌%◌, ◌^◌, Bool, true, false, Option, none, some, List, [], ◌∷◌,
  ◌++◌, ltb, ◌==◌, if◌then◌else◌, length, get_elem?, take, drop,
}
use mathlib.Core.Option
use grumpydb.Prelude.Order.{Ord, Ordering}

-- `page_id` and `slot_id` of a leaf's entry
abbrev pub Location : Type 0
Location = ℕ × ℕ

abbrev pub is_lt : Ordering → Bool
is_lt Ordering.lt = true
is_lt _ = false

-- a key with its child or its location
abbrev pub Entries : Type 0 → Type 0 → Type 0
Entries K V = List (K × V)

pub record InternalNode (K C : Type 0) : Type 0 where
  pub page_id : ℕ
  pub num_keys : ℕ
  pub right_child : ℕ
  pub config : C
  pub entries : Entries K ℕ

pub record LeafNode (K C : Type 0) : Type 0 where
  pub page_id : ℕ
  pub num_entries : ℕ
  pub next_leaf : ℕ
  pub prev_leaf : ℕ
  pub config : C
  pub entries : Entries K Location

module _ {K C : Type 0} where
  unfoldable pub new_internal : ℕ → C → InternalNode K C
  new_internal page_id config = record {
    page_id = page_id;
    num_keys = 0;
    right_child = 0;
    config = config;
    entries = [];
  }

  unfoldable pub new_leaf : ℕ → C → LeafNode K C
  new_leaf page_id config = record {
    page_id = page_id;
    num_entries = 0;
    next_leaf = 0;
    prev_leaf = 0;
    config = config;
    entries = [];
  }

module _ {A : Type 0} where
  -- `Vec::insert` and `Vec::remove`
  unfoldable pub insert_at : ℕ → A → List A → List A
  insert_at zero x xs = x ∷ xs
  insert_at (suc i) x [] = x ∷ []
  insert_at (suc i) x (y ∷ ys) = y ∷ insert_at i x ys

  unfoldable pub remove_at : ℕ → List A → List A
  remove_at i [] = []
  remove_at zero (y ∷ ys) = ys
  remove_at (suc i) (y ∷ ys) = y ∷ remove_at i ys

module _ {K : Type 0} ⦃o : Ord K⦄ where
  -- `partition_point(|e| e.key <= *key)`
  unfoldable pub partition_point : {V : Type 0} → K → Entries K V → ℕ
  partition_point key [] = 0
  partition_point key ((k, v) ∷ es) = elim (o.cmp key k) [
    | Ordering.lt ↦ 0
    | _ ↦ suc (partition_point key es)
  ]

  -- `binary_search_by(|e| e.key.cmp(key))`: the position, and whether the key stands there
  unfoldable pub position : {V : Type 0} → K → Entries K V → ℕ
  position key [] = 0
  position key ((k, v) ∷ es) = elim (o.cmp key k) [ Ordering.gt ↦ suc (position key es) | _ ↦ 0 ]

  unfoldable pub is_found : {V : Type 0} → K → Entries K V → Bool
  is_found key [] = false
  is_found key ((k, v) ∷ es) = elim (o.cmp key k) [
    | Ordering.lt ↦ false
    | Ordering.eq ↦ true
    | Ordering.gt ↦ is_found key es
  ]

  unfoldable pub child_at : Entries K ℕ → ℕ → ℕ → ℕ
  child_at [] right_child i = right_child
  child_at ((k, child) ∷ es) right_child zero = child
  child_at ((k, child) ∷ es) right_child (suc i) = child_at es right_child i

  unfoldable pub get_child_at : {C : Type 0} → InternalNode K C → ℕ → ℕ
  unfolding child_at
  get_child_at node i = child_at node.entries node.right_child i

  unfoldable pub find_child_index : {C : Type 0} → InternalNode K C → K → ℕ
  find_child_index node key = partition_point key node.entries

  unfoldable pub find_child : {C : Type 0} → InternalNode K C → K → ℕ
  unfolding get_child_at find_child_index
  find_child node key = get_child_at node (find_child_index node key)

  -- The child of the entry behind the inserted one is the new one.
  unfoldable pub set_child : ℕ → ℕ → Entries K ℕ → Entries K ℕ
  set_child i child [] = []
  set_child zero child ((k, c) ∷ es) = (k, child) ∷ es
  set_child (suc i) child ((k, c) ∷ es) = (k, c) ∷ set_child i child es

  -- The entries and the right child with a separator and the child on its right.
  unfoldable pub with_separator : K → ℕ → Entries K ℕ → ℕ → Entries K ℕ × ℕ
  unfolding insert_at set_child child_at
  with_separator key right_child_page_id es right_child =
      let pos = position key es in
      let entries = insert_at pos (key, child_at es right_child pos) es in
      if ltb pos (length es)
      then (set_child (suc pos) right_child_page_id entries, right_child)
      else (entries, right_child_page_id)

  unfoldable pub insert_separator : {C : Type 0} → K → ℕ → InternalNode K C → InternalNode K C
  insert_separator key right_child_page_id node =
      let (entries, right_child) =
        with_separator key right_child_page_id node.entries node.right_child in
      record node {
        entries = entries;
        right_child = right_child;
        num_keys = (node.num_keys + 1) % 2 ^ 16;
      }

  unfoldable pub search : {C : Type 0} → LeafNode K C → K → Option ℕ
  search leaf key = if is_found key leaf.entries then some (position key leaf.entries) else none

  unfoldable pub insert_entry : {C : Type 0} → K → Location → LeafNode K C → LeafNode K C
  unfolding insert_at
  insert_entry key location leaf = record leaf {
    entries = insert_at (position key leaf.entries) (key, location) leaf.entries;
    num_entries = (leaf.num_entries + 1) % 2 ^ 16;
  }

  -- The entry that was removed, and the leaf without it.
  unfoldable pub remove_entry :
      {C : Type 0} → K → LeafNode K C → Option ((K × Location) × LeafNode K C)
  unfolding remove_at
  remove_entry key leaf =
      let idx = position key leaf.entries in
      let rest = record leaf {
        entries = remove_at idx leaf.entries;
        num_entries = (leaf.num_entries + 2 ^ 16 - 1) % 2 ^ 16;
      } in
      if is_found key leaf.entries
      then Option.map (λ entry. (entry, rest)) (get_elem? leaf.entries idx)
      else none

-- `BTree::search`, from the leaf on
unfoldable pub find_in_leaf : {K C : Type 0} ⦃o : Ord K⦄ → LeafNode K C → K → Option Location
find_in_leaf leaf key = elim (search leaf key) [
  | none ↦ none
  | some i ↦ Option.map (λ e. e.1) (get_elem? leaf.entries i)
]

unfoldable pub first_key : {K V : Type 0} → Entries K V → Option K
first_key [] = none
first_key ((k, v) ∷ es) = some k

-- `split_leaf`, with the page that was allocated: the halves, and the first key of the right one,
-- which is there unless the leaf was empty.
unfoldable pub split_leaf :
    {K C : Type 0} → ℕ → LeafNode K C → LeafNode K C × LeafNode K C × Option K
unfolding first_key
split_leaf right_page_id full =
    let mid = length full.entries / 2 in
    let left_entries = take mid full.entries in
    let right_entries = drop mid full.entries in
    (
      record full {
        entries = left_entries;
        num_entries = length left_entries % 2 ^ 16;
        next_leaf = right_page_id;
      },
      record {
        page_id = right_page_id;
        num_entries = length right_entries % 2 ^ 16;
        next_leaf = full.next_leaf;
        prev_leaf = full.page_id;
        config = full.config;
        entries = right_entries;
      },
      first_key right_entries,
    )

-- The two halves of an internal node, around the first entry of the second list, which goes up.
unfoldable pub halves :
    {K C : Type 0}
    → ℕ
    → InternalNode K C
    → Entries K ℕ
    → Entries K ℕ
    → Option (InternalNode K C × InternalNode K C × K)
halves right_page_id full left_entries [] = none
halves right_page_id full left_entries ((promoted_key, middle_child) ∷ right_entries) = some (
  record full {
    entries = left_entries;
    num_keys = length left_entries % 2 ^ 16;
    right_child = middle_child;
  },
  record {
    page_id = right_page_id;
    num_keys = length right_entries % 2 ^ 16;
    right_child = full.right_child;
    config = full.config;
    entries = right_entries;
  },
  promoted_key,
)

-- `split_internal`, in the same way: the middle entry goes up. There is none in an empty node.
unfoldable pub split_internal :
    {K C : Type 0} → ℕ → InternalNode K C → Option (InternalNode K C × InternalNode K C × K)
unfolding halves
split_internal right_page_id full =
    let mid = length full.entries / 2 in
    halves right_page_id full (take mid full.entries) (drop mid full.entries)
