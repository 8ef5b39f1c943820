-- ===== src/Ring/Nodes.antt =====
-- Lists of different nodes, as grumpydb-ring/src/ring.rs keeps them.
use grumpydb.Prelude.{
  ℕ, zero, suc, ◌≡◌, refl, sym, ap, ◌∙◌, arith, true, false, not, ◌&&◌, ◌||◌, inl, inr, Bool-cases,
  List, [], ◌∷◌, ◌==◌, ==→eq, length, take, drop, take-append-drop,
}
use grumpydb.Prelude.Members.{contains, Distinct, contains-append}
use grumpydb.Ring.{new, insert_at, retain_other_nodes}
use grumpydb.Ring.Walk.{first_seen}

-- Lists of different elements that hold the same ones are of one length.
pub contains-retain :
    (k node : ℕ) (ns : List ℕ)
    → contains k (retain_other_nodes node ns) ≡ (not (k == node) && contains k ns)
unfolding retain_other_nodes
contains-retain k node [] = ground arith
contains-retain k node (n ∷ ns) = ground (arith, contains-retain k node ns)

pub retain-Distinct : (node : ℕ) (ns : List ℕ) → Distinct ns → Distinct (retain_other_nodes node ns)
unfolding retain_other_nodes
retain-Distinct node [] d = tt
retain-Distinct node (n ∷ ns) d = elim (Bool-cases (n == node)) [
  | inl same ↦ rw same (retain-Distinct node ns d.1)
  | inr other ↦
      rw other (ground (arith, contains-retain n node ns, d.0), retain-Distinct node ns d.1)
]

retain_absent :
    (node : ℕ) (ns : List ℕ) → contains node ns ≡ false → retain_other_nodes node ns ≡ ns
unfolding retain_other_nodes
retain_absent node [] h = refl
retain_absent node (n ∷ ns) h = ground (arith, retain_absent node ns)

length-retain :
    (node : ℕ) (ns : List ℕ)
    → Distinct ns
    → contains node ns ≡ true
    → length ns ≡ suc (length (retain_other_nodes node ns))
unfolding retain_other_nodes
length-retain node [] d h = cc
length-retain node (n ∷ ns) d h = elim (Bool-cases (n == node)) [
  | inl same ↦
      let gone : contains node ns ≡ false =
        ground (arith, d.0, ap (λ (k : ℕ). contains k ns) (==→eq n node same)) in
      rw same (ap suc (ap length (sym (retain_absent node ns gone))))
  | inr other ↦ rw other (ap suc (length-retain node ns d.1 (ground (arith, h))))
]

pub same_length :
    (xs ys : List ℕ)
    → Distinct xs
    → Distinct ys
    → ((k : ℕ) → contains k xs ≡ contains k ys)
    → length xs ≡ length ys
same_length [] [] dx dy same = refl
same_length [] (y ∷ ys) dx dy same = absurd (ground (arith, same y))
same_length (x ∷ xs) ys dx dy same =
    let there : contains x ys ≡ true = ground (arith, same x) in
    let rest : (k : ℕ) → contains k xs ≡ contains k (retain_other_nodes x ys) = λ k. ground (
      arith,
      same k,
      contains-retain k x ys,
      dx.0,
      ap (λ (i : ℕ). contains i xs) {x = k} {y = x},
    ) in
    ap suc (same_length xs (retain_other_nodes x ys) dx.1 (retain-Distinct x ys dy) rest)
    ∙ sym (length-retain x ys dy there)

pub contains-first_seen :
    (k : ℕ) (seen xs : List ℕ)
    → contains k (first_seen seen xs) ≡ (contains k xs && not (contains k seen))
unfolding first_seen
contains-first_seen k seen [] = ground arith
contains-first_seen k seen (x ∷ xs) = ground (
  arith,
  contains-first_seen k seen xs,
  contains-first_seen k (x ∷ seen) xs,
  ap (λ (i : ℕ). contains i seen) {x = k} {y = x},
)

pub first_seen-Distinct : (seen xs : List ℕ) → Distinct (first_seen seen xs)
unfolding first_seen
first_seen-Distinct seen [] = tt
first_seen-Distinct seen (x ∷ xs) = elim (Bool-cases (contains x seen)) [
  | inl old ↦ rw old (first_seen-Distinct seen xs)
  | inr new ↦
      rw new
        (ground (arith, contains-first_seen x (x ∷ seen) xs), first_seen-Distinct (x ∷ seen) xs)
]

pub contains_of_take :
    (k n : ℕ) (xs : List ℕ) → contains k (take n xs) ≡ true → contains k xs ≡ true
contains_of_take k zero xs h = cc
contains_of_take k (suc n) [] h = h
contains_of_take k (suc n) (x ∷ xs) h = ground (arith, contains_of_take k n xs)

pub take-Distinct : (n : ℕ) (xs : List ℕ) → Distinct xs → Distinct (take n xs)
take-Distinct zero xs d = tt
take-Distinct (suc n) [] d = tt
take-Distinct (suc n) (x ∷ xs) d =
    (ground (arith, contains_of_take x n xs, d.0), take-Distinct n xs d.1)

pub contains-insert_at :
    (k i a : ℕ) (xs : List ℕ) → contains k (insert_at i a xs) ≡ (k == a || contains k xs)
contains-insert_at k i a xs =
    let split = ap (contains k) (take-append-drop i xs) in
    ground (
      arith,
      contains-append k (take i xs) (a ∷ drop i xs),
      contains-append k (take i xs) (drop i xs),
      split,
    )

pub insert_at-Distinct :
    (i a : ℕ) (xs : List ℕ) → Distinct xs → contains a xs ≡ false → Distinct (insert_at i a xs)
insert_at-Distinct zero a xs d h = (h, d)
insert_at-Distinct (suc i) a [] d h = (refl, tt)
insert_at-Distinct (suc i) a (x ∷ xs) d h = (
  ground (arith, contains-insert_at x i a xs, d.0, h),
  insert_at-Distinct i a xs d.1 (ground (arith, h)),
)
