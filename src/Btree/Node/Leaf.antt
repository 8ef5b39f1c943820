-- ===== src/Btree/Node/Leaf.antt =====
-- A leaf is a sorted map from keys to locations: src/btree/node.rs.
use mathlib.Core.Option
use grumpydb.Prelude.{
  ℕ, zero, suc, ◌+◌, ◌-◌, ◌%◌, ◌^◌, ◌≡◌, refl, sym, subst, ap, ◌∙◌, arith, true, false, Option,
  none, some, [], ◌∷◌, ◌++◌, length, ◌/◌, take-append-drop, get_elem?, take, drop, if◌then◌else◌,
}
use grumpydb.Prelude.Order.{Ord, Ordering}
use grumpydb.Prelude.Map.{
  get, insert, is_eq, Above, IsSorted, get-insert, insert-IsSorted, get_of_Above, Above-trans,
}
use grumpydb.Btree.Node.{
  is_lt, Entries, Location, LeafNode, insert_at, remove_at, position, is_found, search,
  insert_entry, remove_entry, find_in_leaf, split_leaf, first_key,
}

module _ {K : Type 0} ⦃o : Ord K⦄ where
  found_at : K → Entries K Location → Option Location
  found_at k es =
      if is_found k es then Option.map (λ e. e.1) (get_elem? es (position k es)) else none

  found_at-get : (k : K) (es : Entries K Location) → IsSorted es → found_at k es ≡ get k es
  unfolding found_at get is_found position
  found_at-get k [] s = refl
  found_at-get k ((j, w) ∷ es) s =
      ground (arith, found_at-get k es s.1, get_of_Above k es, Above-trans k j es)

  pub find_in_leaf-get :
      {C : Type 0}
      → (leaf : LeafNode K C) (k : K) → IsSorted leaf.entries
      → find_in_leaf leaf k ≡ get k leaf.entries
  unfolding find_in_leaf search found_at
  find_in_leaf-get leaf k s = ground (arith, found_at-get k leaf.entries s)

  insert_at-insert :
      (k : K) (l : Location) (es : Entries K Location)
      → is_found k es ≡ false
      → insert_at (position k es) (k, l) es ≡ insert k l es
  unfolding insert_at position is_found insert
  insert_at-insert k l [] h = refl
  insert_at-insert k l ((j, w) ∷ es) h = ground (arith, insert_at-insert k l es)

  Above-remove_at :
      (i : K) (n : ℕ) (es : Entries K Location) → Above i es → Above i (remove_at n es)
  unfolding remove_at
  Above-remove_at i n [] a = tt
  Above-remove_at i zero (e ∷ es) a = a.1
  Above-remove_at i (suc n) (e ∷ es) a = (a.0, Above-remove_at i n es a.1)

  remove_at-IsSorted : (n : ℕ) (es : Entries K Location) → IsSorted es → IsSorted (remove_at n es)
  unfolding remove_at
  remove_at-IsSorted n [] s = tt
  remove_at-IsSorted zero (e ∷ es) s = s.1
  remove_at-IsSorted (suc n) ((j, w) ∷ es) s =
      (Above-remove_at j n es s.0, remove_at-IsSorted n es s.1)

  get-remove_at :
      (k j : K) (es : Entries K Location)
      → IsSorted es
      → is_found k es ≡ true
      → get j (remove_at (position k es) es) ≡ (if is_eq (o.cmp j k) then none else get j es)
  unfolding get remove_at position is_found
  get-remove_at k j [] s h = cc
  get-remove_at k j ((i, w) ∷ es) s h = ground (
    arith,
    get-remove_at k j es s.1,
    get_of_Above j es,
    o.eq_of_cmp k i,
    o.eq_of_cmp j i,
    o.eq_of_cmp j k,
    o.cmp_refl i,
    o.cmp_refl k,
  )

  -- A leaf whose keys ascend is a map: `insert_entry` of a key that is not there puts its location
  -- at it, every other key keeps what it had, and the keys ascend still.
  pub find_in_leaf-insert_entry :
      {C : Type 0}
      → (leaf : LeafNode K C) (k : K) (l : Location) → IsSorted leaf.entries
      → search leaf k ≡ none
      → IsSorted (insert_entry k l leaf).entries
        × ((j : K)
            → find_in_leaf (insert_entry k l leaf) j
              ≡ (if is_eq (o.cmp j k) then some l else find_in_leaf leaf j))
  unfolding insert_entry search
  find_in_leaf-insert_entry leaf k l s new =
      let is = insert_at-insert k l leaf.entries (ground (arith, new)) in
      let sorted = subst IsSorted (sym is) (insert-IsSorted k l leaf.entries s) in
      (
        sorted,
        λ j.
            rw (find_in_leaf-get (insert_entry k l leaf) j sorted, find_in_leaf-get leaf j s, is)
              (get-insert k j l leaf.entries),
      )

  -- Where a key is found, its entry stands.
  found_entry :
      (k : K) (l : Location) (es : Entries K Location)
      → found_at k es ≡ some l
      → (is_found k es ≡ true) × (get_elem? es (position k es) ≡ some (k, l))
  unfolding found_at is_found position
  found_entry k l [] h = cc
  found_entry k l ((j, w) ∷ es) h = ground (arith, found_entry k l es, o.eq_of_cmp k j)

  -- From a leaf whose keys ascend, `remove_entry` of a key that is there takes out its entry and
  -- returns it; every other key keeps what it had, and the keys ascend still.
  pub find_in_leaf-remove_entry :
      {C : Type 0}
      → (leaf : LeafNode K C) (k : K) (l : Location) → IsSorted leaf.entries
      → find_in_leaf leaf k ≡ some l
      → (rest : LeafNode K C) × (remove_entry k leaf ≡ some ((k, l), rest))
        × IsSorted rest.entries
        × ((j : K)
            → find_in_leaf rest j ≡ (if is_eq (o.cmp j k) then none else find_in_leaf leaf j))
  unfolding remove_entry find_in_leaf search
  find_in_leaf-remove_entry {C} leaf k l s e =
      let es = leaf.entries in
      let idx = position k es in
      let rest : LeafNode K C = record leaf {
        entries = remove_at idx es;
        num_entries = (leaf.num_entries + 2 ^ 16 - 1) % 2 ^ 16;
      } in
      let sorted = remove_at-IsSorted idx es s in
      let at : found_at k es ≡ some l = found_at-get k es s ∙ sym (find_in_leaf-get leaf k s) ∙ e in
      let (there, entry) = found_entry k l es at in
      (
        rest,
        rw (there, entry) refl,
        sorted,
        λ j.
            rw (find_in_leaf-get rest j sorted, find_in_leaf-get leaf j s)
              (get-remove_at k j es s there),
      )

  Above-middle :
      (j p : K) (l : Location) (ls rs : Entries K Location)
      → Above j (ls ++ (p, l) ∷ rs)
      → o.cmp j p ≡ Ordering.lt
  Above-middle j p l [] rs a = a.0
  Above-middle j p l (e ∷ ls) rs a = Above-middle j p l ls rs a.1

  below_first :
      (k p : K) (l : Location) (ls rs : Entries K Location)
      → IsSorted (ls ++ (p, l) ∷ rs)
      → get k (ls ++ (p, l) ∷ rs) ≡ (if is_lt (o.cmp k p) then get k ls else get k ((p, l) ∷ rs))
  unfolding get
  below_first k p l [] rs s = ground (arith, get_of_Above k rs, Above-trans k p rs)
  below_first k p l ((j, w) ∷ ls) rs s = ground (
    arith,
    below_first k p l ls rs s.1,
    Above-middle j p l ls rs s.0,
    o.lt_trans k j p,
    o.eq_of_cmp k j,
    get_of_Above k rs,
    Above-trans k p rs,
  )

  get_halves :
      (k p : K) (ls rs : Entries K Location)
      → IsSorted (ls ++ rs)
      → first_key rs ≡ some p
      → get k (ls ++ rs) ≡ (if is_lt (o.cmp k p) then get k ls else get k rs)
  unfolding first_key
  get_halves k p ls [] s e = cc
  get_halves k p ls ((q, l) ∷ rs) s e =
      let same : q ≡ p = cc in rw (← same) (below_first k q l ls rs s)

  take-IsSorted : (ls rs : Entries K Location) → IsSorted (ls ++ rs) → IsSorted ls × IsSorted rs
  take-IsSorted [] rs s = (tt, s)
  take-IsSorted ((j, w) ∷ ls) rs s =
      let rest = take-IsSorted ls rs s.1 in ((Above-take j ls rs s.0, rest.0), rest.1)
    where
      Above-take : (j : K) (ls rs : Entries K Location) → Above j (ls ++ rs) → Above j ls
      Above-take j [] rs a = tt
      Above-take j (l ∷ ls) rs a = (a.0, Above-take j ls rs a.1)

  -- After a split of a leaf whose keys ascend, the keys below the promoted one are found in the left
  -- half as they were in the whole leaf, the others in the right half, and both halves ascend. The
  -- leaf has a key.
  pub find_in_leaf-split_leaf :
      {C : Type 0}
      → (full : LeafNode K C) (id : ℕ) (p : K) → IsSorted full.entries
      → (split_leaf id full).2 ≡ some p
      → IsSorted (split_leaf id full).0.entries
        × IsSorted (split_leaf id full).1.entries
        × ((k : K)
            → find_in_leaf full k ≡ (
                if is_lt (o.cmp k p)
                then find_in_leaf (split_leaf id full).0 k
                else find_in_leaf (split_leaf id full).1 k))
  unfolding split_leaf
  find_in_leaf-split_leaf full id p s e =
      let mid = length full.entries / 2 in
      let whole = take-append-drop mid full.entries in
      let halves =
        take-IsSorted (take mid full.entries) (drop mid full.entries)
          (subst IsSorted (sym whole) s) in
      (
        halves.0,
        halves.1,
        λ k.
            rw
              (
                find_in_leaf-get full k s,
                find_in_leaf-get (split_leaf id full).0 k halves.0,
                find_in_leaf-get (split_leaf id full).1 k halves.1,
              )
              (sym (ap (get k) whole)
                ∙ get_halves k p (take mid full.entries) (drop mid full.entries)
                    (subst IsSorted (sym whole) s) e),
      )
