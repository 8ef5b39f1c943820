-- ===== src/Prelude/Map.antt =====
-- Rust's `BTreeMap<K, V>` as its entries in ascending order of the keys, and `BTreeSet<K>` as a map
-- to the unit type.
pub mod Append
pub mod Ext
pub mod Union
use mathlib.Core.Path.{◌≡◌, refl}
use mathlib.Core.List.{List, [], ◌∷◌}
use mathlib.Core.Option.{Option, none, some}
use mathlib.Core.Bool.{Bool, true, false}
use native.Mathlib.Omega.{arith}
use mathlib.Core.Logic.{◌↔◌}
use grumpydb.Prelude.Bytes.{Bytes}
use grumpydb.Prelude.Order.{Ord, Ordering, cmp_bytes, bytes_eq, bytes_refl}
use grumpydb.Prelude.Tests.{if◌then◌else◌}

abbrev pub Map {ℓ κ} : Type ℓ → Type κ → Type (ℓ ⊔ κ)
Map K V = List (K × V)

abbrev pub is_eq : Ordering → Bool
is_eq Ordering.eq = true
is_eq _ = false

-- `==` of texts
abbrev pub is_same : Bytes → Bytes → Bool
is_same a b = is_eq (cmp_bytes a b)

pub is_same-true : (a b : Bytes) → (is_same a b ≡ true) ↔ (a ≡ b)
is_same-true a b = (λ h. bytes_eq a b (ground arith), λ e. rw (e, bytes_refl b))

module _ {ℓ κ} {K : Type ℓ} {V : Type κ} ⦃o : Ord K⦄ where
  -- `m.get(&k)`
  unfoldable pub get : K → Map K V → Option V
  get k [] = none
  get k ((j, w) ∷ m) = elim (o.cmp k j) [ Ordering.eq ↦ some w | _ ↦ get k m ]

  -- `m.insert(k, v)`
  unfoldable pub insert : K → V → Map K V → Map K V
  insert k v [] = (k, v) ∷ []
  insert k v ((j, w) ∷ m) = elim (o.cmp k j) [
    | Ordering.lt ↦ (k, v) ∷ (j, w) ∷ m
    | Ordering.eq ↦ (k, v) ∷ m
    | Ordering.gt ↦ (j, w) ∷ insert k v m
  ]

  -- Every key of the map is above `k`.
  abbrev pub Above : K → Map K V → Type 0
  Above k [] = Unit
  Above k ((j, _) ∷ m) = (o.cmp k j ≡ Ordering.lt) × Above k m

  -- The keys ascend, so that no key stands twice.
  abbrev pub IsSorted : Map K V → Type 0
  IsSorted [] = Unit
  IsSorted ((k, _) ∷ m) = Above k m × IsSorted m

module _ {ℓ κ} {K : Type ℓ} {V : Type κ} ⦃o : Ord K⦄ where
  pub get-insert :
      (k j : K) (v : V) (m : Map K V)
      → get j (insert k v m) ≡ (if is_eq (o.cmp j k) then some v else get j m)
  unfolding get insert
  get-insert k j v [] = ground arith
  get-insert k j v ((i, w) ∷ m) = ground (
    arith,
    get-insert k j v m,
    o.eq_of_cmp j k,
    o.eq_of_cmp j i,
    o.eq_of_cmp k i,
    o.cmp_refl k,
    o.cmp_refl i,
  )

  Above-insert :
      (i k : K) (v : V) (m : Map K V) → o.cmp i k ≡ Ordering.lt → Above i m → Above i (insert k v m)
  unfolding insert
  Above-insert i k v [] h a = (h, tt)
  Above-insert i k v ((j, w) ∷ m) h a = ground (arith, Above-insert i k v m h a.1)

  pub Above-trans : (i k : K) (m : Map K V) → o.cmp i k ≡ Ordering.lt → Above k m → Above i m
  Above-trans i k [] h a = tt
  Above-trans i k ((j, w) ∷ m) h a = (o.lt_trans i k j h a.0, Above-trans i k m h a.1)

  pub insert-IsSorted : (k : K) (v : V) (m : Map K V) → IsSorted m → IsSorted (insert k v m)
  unfolding insert
  insert-IsSorted k v [] s = (tt, tt)
  insert-IsSorted k v ((j, w) ∷ m) s = ground (
    arith,
    insert-IsSorted k v m s.1,
    Above-insert j k v m,
    Above-trans k j m,
    o.eq_of_cmp k j,
    o.lt_of_gt k j,
  )

  pub get_of_Above : (k : K) (m : Map K V) → Above k m → get k m ≡ none
  unfolding get
  get_of_Above k [] a = refl
  get_of_Above k ((j, w) ∷ m) a = ground (arith, get_of_Above k m a.1)
