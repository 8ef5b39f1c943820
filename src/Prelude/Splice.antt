-- ===== src/Prelude/Splice.antt =====
-- `buf[i..i + bs.len()].copy_from_slice(bs)`: overwriting a part of a buffer, and reading it back.
use Prim.Native.Nat.{ℕ, zero, suc, ◌+◌, ◌^◌, ◌≤◌, ◌<◌}
use mathlib.Core.Path.{◌≡◌, refl, sym, ap, ◌∙◌}
use mathlib.Core.List.{List, [], ◌∷◌}
use native.Mathlib.Omega.{arith}
use grumpydb.Prelude.Lists.{length, drop, slice}
use grumpydb.Prelude.Bytes.{
  Bytes, to_le_bytes, from_le_bytes, from_le_bytes-to_le_bytes, length-to_le_bytes, number_at,
}

module _ {ℓ} {A : Type ℓ} where
  abbrev pub splice : ℕ → List A → List A → List A
  splice zero [] xs = xs
  splice zero (b ∷ bs) [] = []
  splice zero (b ∷ bs) (x ∷ xs) = b ∷ splice zero bs xs
  splice (suc i) bs [] = []
  splice (suc i) bs (x ∷ xs) = x ∷ splice i bs xs

  pub length-splice : (i : ℕ) (bs xs : List A) → length (splice i bs xs) ≡ length xs
  length-splice zero [] xs = refl
  length-splice zero (b ∷ bs) [] = refl
  length-splice zero (b ∷ bs) (x ∷ xs) = ap suc (length-splice zero bs xs)
  length-splice (suc i) bs [] = refl
  length-splice (suc i) bs (x ∷ xs) = ap suc (length-splice i bs xs)

  -- The part that was written.
  pub slice-splice_self :
      (i n : ℕ) (bs xs : List A)
      → n ≡ length bs
      → i + n ≤ length xs
      → slice i n (splice i bs xs) ≡ bs
  slice-splice_self zero zero [] xs e h = refl
  slice-splice_self zero (suc n) [] xs e h = absurd (omega arith)
  slice-splice_self zero zero (b ∷ bs) xs e h = absurd (omega arith)
  slice-splice_self zero (suc n) (b ∷ bs) [] e h = absurd (omega arith)
  slice-splice_self zero (suc n) (b ∷ bs) (x ∷ xs) e h =
      ap (◌∷◌ b) (slice-splice_self zero n bs xs (omega arith) (omega arith))
  slice-splice_self (suc i) n bs [] e h = absurd (omega arith)
  slice-splice_self (suc i) n bs (x ∷ xs) e h = slice-splice_self i n bs xs e (omega arith)

  -- A part before it.
  pub slice-splice_before :
      (i n k : ℕ) (bs xs : List A) → i + n ≤ k → slice i n (splice k bs xs) ≡ slice i n xs
  slice-splice_before zero zero k bs xs h = refl
  slice-splice_before zero (suc n) zero bs xs h = absurd (omega arith)
  slice-splice_before zero (suc n) (suc k) bs [] h = refl
  slice-splice_before zero (suc n) (suc k) bs (x ∷ xs) h =
      ap (◌∷◌ x) (slice-splice_before zero n k bs xs (omega arith))
  slice-splice_before (suc i) n zero bs xs h = absurd (omega arith)
  slice-splice_before (suc i) n (suc k) bs [] h = refl
  slice-splice_before (suc i) n (suc k) bs (x ∷ xs) h =
      slice-splice_before i n k bs xs (omega arith)

  -- A part behind it.
  pub slice-splice_after :
      (i n k : ℕ) (bs xs : List A) → k + length bs ≤ i → slice i n (splice k bs xs) ≡ slice i n xs
  slice-splice_after i n zero [] xs h = refl
  slice-splice_after zero n zero (b ∷ bs) xs h = absurd (omega arith)
  slice-splice_after (suc i) n zero (b ∷ bs) [] h = refl
  slice-splice_after (suc i) n zero (b ∷ bs) (x ∷ xs) h =
      slice-splice_after i n zero bs xs (omega arith)
  slice-splice_after zero n (suc k) bs xs h = absurd (omega arith)
  slice-splice_after (suc i) n (suc k) bs [] h = refl
  slice-splice_after (suc i) n (suc k) bs (x ∷ xs) h = slice-splice_after i n k bs xs (omega arith)

  -- All that is behind it.
  pub drop-splice :
      (i k : ℕ) (bs xs : List A) → k + length bs ≤ i → drop i (splice k bs xs) ≡ drop i xs
  drop-splice i zero [] xs h = refl
  drop-splice zero zero (b ∷ bs) xs h = absurd (omega arith)
  drop-splice (suc i) zero (b ∷ bs) [] h = refl
  drop-splice (suc i) zero (b ∷ bs) (x ∷ xs) h = drop-splice i zero bs xs (omega arith)
  drop-splice zero (suc k) bs xs h = absurd (omega arith)
  drop-splice (suc i) (suc k) bs [] h = refl
  drop-splice (suc i) (suc k) bs (x ∷ xs) h = drop-splice i k bs xs (omega arith)

-- An integer that was written is read from every buffer with the same bytes there.
pub number_written :
    (w i n : ℕ) (buf page : Bytes)
    → n < 256 ^ w
    → i + w ≤ length buf
    → slice i w page ≡ slice i w (splice i (to_le_bytes w n) buf)
    → number_at w i page ≡ n
number_written w i n buf page fits room e =
    ap from_le_bytes
      (e ∙ slice-splice_self i w (to_le_bytes w n) buf (sym (length-to_le_bytes w n)) room)
    ∙ from_le_bytes-to_le_bytes w n fits
