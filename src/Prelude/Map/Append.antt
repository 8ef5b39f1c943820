-- ===== src/Prelude/Map/Append.antt =====
-- A map built by inserting ascending keys is the list of what was inserted.
use mathlib.Core.Path.{◌≡◌, refl, ap}
use mathlib.Core.List.{[], ◌∷◌, ◌++◌}
use grumpydb.Prelude.Order.{Ord, Ordering}
use grumpydb.Prelude.Map.{Map, insert, Above, IsSorted}

module _ {ℓ κ} {K : Type ℓ} {V : Type κ} ⦃o : Ord K⦄ where
  Above-append :
      (j : K) (m : Map K V) (k : K) (v : V) (r : Map K V)
      → Above j (m ++ ((k, v) ∷ r))
      → o.cmp j k ≡ Ordering.lt
  Above-append j [] k v r a = a.0
  Above-append j ((i, w) ∷ m) k v r a = Above-append j m k v r a.1

  -- A key above all others is inserted at the end.
  pub insert_last :
      (m : Map K V) (k : K) (v : V) (r : Map K V)
      → IsSorted (m ++ ((k, v) ∷ r))
      → insert k v m ≡ m ++ ((k, v) ∷ [])
  unfolding insert
  insert_last [] k v r s = refl
  insert_last ((j, w) ∷ m) k v r s =
      rw (o.gt_of_lt j k (Above-append j m k v r s.0), insert)
        (ap (◌∷◌ (j, w)) (insert_last m k v r s.1))
