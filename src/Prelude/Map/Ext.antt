-- ===== src/Prelude/Map/Ext.antt =====
-- Maps with the same lookups are equal.
use mathlib.Core.Path.{◌≡◌, refl, sym, ap, ◌∙◌}
use mathlib.Core.List.{[], ◌∷◌}
use mathlib.Core.Option.{none, some}
use native.Mathlib.Omega.{arith}
use grumpydb.Prelude.Order.{Ord, Ordering, less, same, more, Ordering-cases}
use grumpydb.Prelude.Map.{Map, get, Above, IsSorted, get_of_Above, Above-trans}

module _ {ℓ κ} {K : Type ℓ} {V : Type κ} ⦃o : Ord K⦄ where
  get_here : (k : K) (v : V) (m : Map K V) → get k ((k, v) ∷ m) ≡ some v
  unfolding get
  get_here k v m = rw (o.cmp_refl k, get)

  -- A key below the first is not in the map.
  get_below :
      (k j : K) (w : V) (m : Map K V)
      → o.cmp k j ≡ Ordering.lt
      → Above j m
      → get k ((j, w) ∷ m) ≡ none
  get_below k j w m h a = get_of_Above k ((j, w) ∷ m) (h, Above-trans k j m h a)

  tails :
      (k : K) (v w : V) (m n : Map K V)
      → Above k m
      → Above k n
      → ((j : K) → get j ((k, v) ∷ m) ≡ get j ((k, w) ∷ n))
      → (j : K) → get j m ≡ get j n
  unfolding get
  tails k v w m n a b h j =
      ground (arith, h j, o.eq_of_cmp j k, get_of_Above k m a, get_of_Above k n b)

  pub Map_ext : (m n : Map K V) → IsSorted m → IsSorted n → ((k : K) → get k m ≡ get k n) → m ≡ n
  Map_ext [] [] s t h = refl
  Map_ext [] ((k, w) ∷ n) s t h = cc (h k, get_here k w n, get_of_Above {V = V} k [] tt)
  Map_ext ((k, v) ∷ m) [] s t h = cc (h k, get_here k v m, get_of_Above {V = V} k [] tt)
  Map_ext ((k, v) ∷ m) ((j, w) ∷ n) s t h = elim (Ordering-cases (o.cmp k j)) [
    | less e ↦ cc (h k, get_here k v m, get_below k j w n e t.0)
    | more e ↦ cc (h j, get_here j w n, get_below j k v m (o.lt_of_gt k j e) s.0)
    | same e ↦
        let q = o.eq_of_cmp k j e in
        let v=w : v ≡ w = cc (h k, get_here k v m, get_here j w n, q) in
        let rest =
          tails k v w m n s.0 (rw q t.0) (λ i. h i ∙ ap (λ (x : K). get i ((x, w) ∷ n)) (sym q)) in
        cc (q, v=w, Map_ext m n s.1 t.1 rest)
  ]
