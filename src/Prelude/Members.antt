-- ===== src/Prelude/Members.antt =====
-- Lists of numbers as sets: `contains` of a `Vec` or of a `HashSet`.
use Prim.Native.Nat.{ℕ}
use mathlib.Core.Path.{◌≡◌, refl, sym, subst}
use mathlib.Core.Logic.{inl, inr}
use mathlib.Core.Bool.{Bool, true, false, ◌||◌}
use mathlib.Core.List.{List, [], ◌∷◌, ◌++◌}
use native.Mathlib.Omega.{arith}
use grumpydb.Prelude.Tests.{◌==◌, if◌then◌else◌, Bool-cases, ==→eq}
use grumpydb.Prelude.Lists.{All}

abbrev pub contains : ℕ → List ℕ → Bool
contains a [] = false
contains a (x ∷ xs) = a == x || contains a xs

-- `insert` of a set, which keeps one of each.
abbrev pub insert_once : ℕ → List ℕ → List ℕ
insert_once a xs = if contains a xs then xs else a ∷ xs

abbrev pub Distinct : List ℕ → Type 0
Distinct [] = Unit {0}
Distinct (x ∷ xs) = (contains x xs ≡ false) × Distinct xs

pub contains-append :
    (a : ℕ) (xs ys : List ℕ) → contains a (xs ++ ys) ≡ (contains a xs || contains a ys)
contains-append a [] ys = refl
contains-append a (x ∷ xs) ys = ground (arith, contains-append a xs ys)

-- A last element that is new.
pub append-Distinct :
    (a : ℕ) (xs : List ℕ) → Distinct xs → contains a xs ≡ false → Distinct (xs ++ a ∷ [])
append-Distinct a [] d new = (refl, tt)
append-Distinct a (x ∷ xs) d new =
    let later = append-Distinct a xs d.1 (ground (arith, new)) in
    (ground (arith, contains-append x xs (a ∷ []), d.0, new), later)

pub append-Distinct_inv :
    (a : ℕ) (xs : List ℕ) → Distinct (xs ++ a ∷ []) → Distinct xs × (contains a xs ≡ false)
append-Distinct_inv a [] d = (tt, refl)
append-Distinct_inv a (x ∷ xs) d =
    let later = append-Distinct_inv a xs d.1 in
    (
      (ground (arith, contains-append x xs (a ∷ []), d.0), later.0),
      ground (arith, contains-append x xs (a ∷ []), d.0, later.1),
    )

pub All-contains {κ} :
    (P : ℕ → Type κ) (a : ℕ) (xs : List ℕ) → All P xs → contains a xs ≡ true → P a
All-contains P a [] all at = ground arith
All-contains P a (x ∷ xs) all at = elim (Bool-cases (a == x)) [
  | inl same ↦ subst P (sym (==→eq a x same)) all.0
  | inr other ↦ All-contains P a xs all.1 (ground (arith, at))
]
