-- ===== src/Prelude/Order.antt =====
-- Total orders as instances (Rust's `Ord`): the numbers, and byte strings lexicographically, which
-- is the order of Rust's `[u8]` and `str`.
use Prim.Native.Nat.{ℕ, compare}
pub use Prim.Native.Nat.{Ordering}
use mathlib.Core.Path.{◌≡◌, refl}
use mathlib.Core.List.{[], ◌∷◌}
use native.Mathlib.Omega.{arith}
use grumpydb.Prelude.Bytes.{Bytes}

pub record Ord {ℓ} (K : Type ℓ) : Type ℓ where
  pub cmp : K → K → Ordering
  pub cmp_refl : (a : K) → cmp a a ≡ Ordering.eq
  pub eq_of_cmp : (a b : K) → cmp a b ≡ Ordering.eq → a ≡ b
  pub gt_of_lt : (a b : K) → cmp a b ≡ Ordering.lt → cmp b a ≡ Ordering.gt
  pub lt_of_gt : (a b : K) → cmp a b ≡ Ordering.gt → cmp b a ≡ Ordering.lt
  pub lt_trans : (a b c : K) → cmp a b ≡ Ordering.lt → cmp b c ≡ Ordering.lt → cmp a c ≡ Ordering.lt

pub nat_refl : (a : ℕ) → compare a a ≡ Ordering.eq
nat_refl a = ground arith

pub nat_eq : (a b : ℕ) → compare a b ≡ Ordering.eq → a ≡ b
nat_eq a b h = ground arith

pub nat_gt : (a b : ℕ) → compare a b ≡ Ordering.lt → compare b a ≡ Ordering.gt
nat_gt a b h = ground arith

pub nat_lt : (a b : ℕ) → compare a b ≡ Ordering.gt → compare b a ≡ Ordering.lt
nat_lt a b h = ground arith

pub nat_trans :
    (a b c : ℕ) → compare a b ≡ Ordering.lt → compare b c ≡ Ordering.lt → compare a c ≡ Ordering.lt
nat_trans a b c h k = ground arith

instance abbrev pub nat_ord : Ord ℕ
nat_ord = record {
  cmp = compare;
  cmp_refl = nat_refl;
  eq_of_cmp = nat_eq;
  gt_of_lt = nat_gt;
  lt_of_gt = nat_lt;
  lt_trans = nat_trans;
}

abbrev pub cmp_bytes : Bytes → Bytes → Ordering
cmp_bytes [] [] = Ordering.eq
cmp_bytes [] (y ∷ ys) = Ordering.lt
cmp_bytes (x ∷ xs) [] = Ordering.gt
cmp_bytes (x ∷ xs) (y ∷ ys) = elim (compare x y) [
  | Ordering.lt ↦ Ordering.lt
  | Ordering.eq ↦ cmp_bytes xs ys
  | Ordering.gt ↦ Ordering.gt
]

pub bytes_refl : (a : Bytes) → cmp_bytes a a ≡ Ordering.eq
bytes_refl [] = refl
bytes_refl (x ∷ xs) = ground (arith, bytes_refl xs)

pub bytes_eq : (a b : Bytes) → cmp_bytes a b ≡ Ordering.eq → a ≡ b
bytes_eq [] [] h = refl
bytes_eq [] (y ∷ ys) h = cc
bytes_eq (x ∷ xs) [] h = cc
bytes_eq (x ∷ xs) (y ∷ ys) h = ground (arith, bytes_eq xs ys)

pub bytes_gt : (a b : Bytes) → cmp_bytes a b ≡ Ordering.lt → cmp_bytes b a ≡ Ordering.gt
bytes_gt [] [] h = cc
bytes_gt [] (y ∷ ys) h = refl
bytes_gt (x ∷ xs) [] h = cc
bytes_gt (x ∷ xs) (y ∷ ys) h = ground (arith, bytes_gt xs ys)

pub bytes_lt : (a b : Bytes) → cmp_bytes a b ≡ Ordering.gt → cmp_bytes b a ≡ Ordering.lt
bytes_lt [] [] h = cc
bytes_lt [] (y ∷ ys) h = cc
bytes_lt (x ∷ xs) [] h = refl
bytes_lt (x ∷ xs) (y ∷ ys) h = ground (arith, bytes_lt xs ys)

pub bytes_trans :
    (a b c : Bytes)
    → cmp_bytes a b ≡ Ordering.lt
    → cmp_bytes b c ≡ Ordering.lt
    → cmp_bytes a c ≡ Ordering.lt
bytes_trans [] [] c h k = cc
bytes_trans [] (y ∷ ys) [] h k = cc
bytes_trans [] (y ∷ ys) (z ∷ zs) h k = refl
bytes_trans (x ∷ xs) [] c h k = cc
bytes_trans (x ∷ xs) (y ∷ ys) [] h k = cc
bytes_trans (x ∷ xs) (y ∷ ys) (z ∷ zs) h k = ground (arith, bytes_trans xs ys zs)

instance abbrev pub bytes_ord : Ord Bytes
bytes_ord = record {
  cmp = cmp_bytes;
  cmp_refl = bytes_refl;
  eq_of_cmp = bytes_eq;
  gt_of_lt = bytes_gt;
  lt_of_gt = bytes_lt;
  lt_trans = bytes_trans;
}

-- To split on a comparison and keep the equation.
pub data OrderingCase (o : Ordering) : Type 0 where
  less : o ≡ Ordering.lt → OrderingCase o
  same : o ≡ Ordering.eq → OrderingCase o
  more : o ≡ Ordering.gt → OrderingCase o

pub Ordering-cases : (o : Ordering) → OrderingCase o
Ordering-cases Ordering.lt = less refl
Ordering-cases Ordering.eq = same refl
Ordering-cases Ordering.gt = more refl
