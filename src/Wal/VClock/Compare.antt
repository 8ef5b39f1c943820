-- ===== src/Wal/VClock/Compare.antt =====
-- `compare` of src/wal/vclock.rs decides the pointwise order of two clocks.
use grumpydb.Prelude.{
  ℕ, ◌≤◌, ◌<◌, ◌≡◌, refl, ◌⊎◌, inl, inr, arith, Bool, true, false, none, some, [], ◌∷◌, ◌++◌, ltb,
  if◌then◌else◌, Bool-cases, ltb→lt, ltb→ge,
}
use grumpydb.Prelude.Order.{nat_ord}
use grumpydb.Prelude.Map
use grumpydb.Prelude.Map.{Map, is_eq, get-insert}
use grumpydb.Wal.VClock.{
  VectorClock, VClockOrdering, equal, less_than, greater_than, concurrent, get, collect, keys,
  all_keys, scan, verdict, compare,
}

-- What an ordering says of the counters of the two clocks.
abbrev pub Means : VClockOrdering → VectorClock → VectorClock → Type 0
Means equal a b = (k : ℕ) → get a k ≡ get b k
Means less_than a b = ((k : ℕ) → get a k ≤ get b k) × ((k : ℕ) × (get a k < get b k))
Means greater_than a b = ((k : ℕ) → get b k ≤ get a k) × ((k : ℕ) × (get b k < get a k))
Means concurrent a b = ((k : ℕ) × (get a k < get b k)) × ((k : ℕ) × (get b k < get a k))

abbrev Has : ℕ → Map ℕ (Unit {0}) → Type 0
Has k ks = Map.get k ks ≡ some tt

-- The flag that is cleared where the first clock is ahead.
flag : VectorClock → VectorClock → Map ℕ (Unit {0}) → Bool → Bool
flag a b [] f = f
flag a b ((k, _) ∷ ks) f = flag a b ks (if ltb (get b k) (get a k) then false else f)

scan-flag :
    (a b : VectorClock) (ks : Map ℕ (Unit {0})) (le ge : Bool)
    → scan a b ks le ge ≡ (flag a b ks le, flag b a ks ge)
unfolding scan flag
scan-flag a b [] le ge = refl
scan-flag a b ((k, _) ∷ ks) le ge = scan-flag a b ks _ _

flag-false : (a b : VectorClock) (ks : Map ℕ (Unit {0})) → flag a b ks false ≡ false
unfolding flag
flag-false a b [] = refl
flag-false a b ((k, _) ∷ ks) = elim (Bool-cases (ltb (get b k) (get a k))) [
  | inl t ↦ rw t (flag-false a b ks)
  | inr t ↦ rw t (flag-false a b ks)
]

-- A flag that stands says that the first clock is nowhere ahead among the keys.
flag_stands :
    (a b : VectorClock) (ks : Map ℕ (Unit {0})) (k : ℕ)
    → flag a b ks true ≡ true
    → Has k ks
    → get a k ≤ get b k
unfolding flag Map.get
flag_stands a b [] k f h = cc
flag_stands a b ((j, _) ∷ ks) k f h = elim (Bool-cases (ltb (get b j) (get a j))) [
  | inl ahead ↦ cc (flag-false a b ks, rw ahead at f)
  | inr fine ↦ ground (arith, flag_stands a b ks k (rw fine at f), ltb→ge (get b j) (get a j) fine)
]

-- A flag that was cleared shows where it is ahead.
flag_cleared :
    (a b : VectorClock) (ks : Map ℕ (Unit {0}))
    → flag a b ks true ≡ false
    → (k : ℕ) × (get b k < get a k)
unfolding flag
flag_cleared a b [] f = cc
flag_cleared a b ((j, _) ∷ ks) f = elim (Bool-cases (ltb (get b j) (get a j))) [
  | inl ahead ↦ (j, ltb→lt _ _ ahead)
  | inr fine ↦ flag_cleared a b ks (rw fine at f)
]

-- A node without a key in the union has an entry in neither clock.
abbrev Covered : VectorClock → VectorClock → ℕ → Type 0
Covered a b k = Has k (collect (keys a ++ keys b)) ⊎ ((Map.get k a ≡ none) × (Map.get k b ≡ none))

covered : (a b : VectorClock) (k : ℕ) → Covered a b k
unfolding collect Map.get
covered [] [] k = inr (refl, refl)
covered [] ((j, c) ∷ b) k = ground (arith, covered [] b k, get-insert j k tt (collect (keys b)))
covered ((j, c) ∷ a) b k =
    ground (arith, covered a b k, get-insert j k tt (collect (keys a ++ keys b)))

flag-le : (a b : VectorClock) (f : flag a b (all_keys a b) true ≡ true) (k : ℕ) → get a k ≤ get b k
unfolding all_keys get
flag-le a b f k = elim (covered a b k) [
  | inl has ↦ flag_stands a b (all_keys a b) k f has
  | inr no_entry ↦ ground (arith, no_entry.0, no_entry.1)
]

flag-ge : (a b : VectorClock) (f : flag b a (all_keys a b) true ≡ true) (k : ℕ) → get b k ≤ get a k
unfolding all_keys get
flag-ge a b f k = elim (covered a b k) [
  | inl has ↦ flag_stands b a (all_keys a b) k f has
  | inr no_entry ↦ ground (arith, no_entry.0, no_entry.1)
]

-- The result of `compare` says exactly how the counters of the two clocks are ordered, over all
-- nodes: equal everywhere, nowhere ahead and somewhere behind, or each ahead somewhere.
pub compare-Means : (a b : VectorClock) → Means (compare a b) a b
unfolding compare
compare-Means a b =
    rw (scan-flag a b (all_keys a b) true true)
      (go (flag a b (all_keys a b) true) (flag b a (all_keys a b) true) refl refl)
  where
    go :
        (le ge : Bool)
        → flag a b (all_keys a b) true ≡ le
        → flag b a (all_keys a b) true ≡ ge
        → Means (verdict le ge) a b
    go true true f g = λ k. omega (arith, flag-le a b f k, flag-ge a b g k)
    go true false f g = (flag-le a b f, flag_cleared b a (all_keys a b) g)
    go false true f g = (flag-ge a b g, flag_cleared a b (all_keys a b) f)
    go false false f g = (flag_cleared b a (all_keys a b) g, flag_cleared a b (all_keys a b) f)
