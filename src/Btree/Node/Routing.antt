-- ===== src/Btree/Node/Routing.antt =====
-- Which child an internal node leads to, and how a split changes that: src/btree/node.rs and
-- src/btree/ops.rs.
use grumpydb.Prelude.{
  ℕ, ◌/◌, ◌≡◌, sym, subst, ap, ◌∙◌, arith, false, not, ◌&&◌, some, [], ◌∷◌, ◌++◌, ◌==◌, length,
  take, drop, take-append-drop, if◌then◌else◌,
}
use grumpydb.Prelude.Order.{Ord, Ordering}
use grumpydb.Prelude.Map.{Above, IsSorted}
use grumpydb.Btree.Node.{
  is_lt, Entries, InternalNode, position, is_found, partition_point, child_at, with_separator,
  insert_separator, find_child, find_child_index, split_internal, halves,
}

module _ {K : Type 0} ⦃o : Ord K⦄ where
  -- `find_child` on the entries and the right child
  abbrev route : K → Entries K ℕ → ℕ → ℕ
  route k es right_child = child_at es right_child (partition_point k es)

  route_split :
      (k p : K) (middle right : ℕ) (ls rs : Entries K ℕ)
      → IsSorted (ls ++ (p, middle) ∷ rs)
      → route k (ls ++ (p, middle) ∷ rs) right
        ≡ (if is_lt (o.cmp k p) then route k ls middle else route k rs right)
  unfolding child_at partition_point
  route_split k p middle right [] rs s = ground arith
  route_split k p middle right ((j, c) ∷ ls) rs s =
      let before = below j ls s.0 in
      ground (arith, route_split k p middle right ls rs s.1, o.lt_trans k j p)
    where
      below :
          (j : K) (ls : Entries K ℕ) → Above j (ls ++ (p, middle) ∷ rs) → o.cmp j p ≡ Ordering.lt
      below j [] a = a.0
      below j (l ∷ ls) a = below j ls a.1

  route-with_separator :
      (k key : K) (new right : ℕ) (es : Entries K ℕ)
      → is_found key es ≡ false
      → IsSorted es
      → route k (with_separator key new es right).0 (with_separator key new es right).1 ≡ (
          if (partition_point k es == partition_point key es) && not (is_lt (o.cmp k key))
          then new
          else route k es right)
  unfolding with_separator child_at partition_point position is_found
  route-with_separator k key new right [] h s = ground arith
  route-with_separator k key new right ((j, c) ∷ es) h s = ground (
    arith,
    route-with_separator k key new right es,
    o.lt_trans k key j,
    o.lt_trans key j k,
    o.lt_of_gt key j,
    o.gt_of_lt k key,
    o.eq_of_cmp k j,
  )

  -- A separator that is inserted with a new child on its right, into a node whose keys ascend and
  -- lack it: of the keys that were led to the same child as the separator, those at or above it are
  -- led to the new child, and every other key is led to the child that it was led to.
  pub find_child-insert_separator :
      {C : Type 0}
      → (node : InternalNode K C) (key k : K) (new : ℕ) → IsSorted node.entries
      → is_found key node.entries ≡ false
      → find_child (insert_separator key new node) k ≡ (
          if (find_child_index node k == find_child_index node key) && not (is_lt (o.cmp k key))
          then new
          else find_child node k)
  unfolding find_child insert_separator
  find_child-insert_separator node key k new s h =
      route-with_separator k key new node.right_child node.entries h s

  route-halves :
      {C : Type 0}
      → (full left right : InternalNode K C) (id : ℕ) (p k : K) (ls ds : Entries K ℕ)
      → IsSorted (ls ++ ds)
      → halves id full ls ds ≡ some (left, right, p)
      → route k (ls ++ ds) full.right_child ≡ (
          if is_lt (o.cmp k p)
          then route k left.entries left.right_child
          else route k right.entries right.right_child)
  unfolding halves
  route-halves full left right id p k ls [] s e = cc
  route-halves full left right id p k ls ((q, middle) ∷ rs) s e =
      let whole = route_split k q middle full.right_child ls rs s in ground (arith, whole, e)

  -- After a split of an internal node whose keys ascend, the keys below the promoted one are led
  -- from the left half, the others from the right half, to the child that the whole node led them
  -- to.
  pub find_child-split_internal :
      {C : Type 0}
      → (full left right : InternalNode K C) (id : ℕ) (p k : K) → IsSorted full.entries
      → split_internal id full ≡ some (left, right, p)
      → find_child full k ≡ (if is_lt (o.cmp k p) then find_child left k else find_child right k)
  unfolding find_child split_internal
  find_child-split_internal full left right id p k s e =
      let mid = length full.entries / 2 in
      let whole = take-append-drop mid full.entries in
      sym (ap (λ es. route k es full.right_child) whole)
      ∙ route-halves full left right id p k (take mid full.entries) (drop mid full.entries)
          (subst IsSorted (sym whole) s) e
