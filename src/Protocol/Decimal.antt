-- ===== src/Protocol/Decimal.antt =====
-- Rust's decimal form of an unsigned integer, and its `parse`.
use grumpydb.Prelude.{
  ℕ, zero, suc, ◌+◌, ◌-◌, ◌*◌, ◌/◌, ◌%◌, ◌≤◌, ◌<◌, ◌≡◌, refl, arith, ◌&&◌, Bool-cases, inl, inr,
  Option, none, some, [], ◌∷◌, ◌++◌, ltb, leb, ◌==◌, if◌then◌else◌,
}
use grumpydb.Protocol.Text.{Text}

-- Fuel is the number itself; a digit goes with each tenth.
digits : ℕ → ℕ → Text
digits zero n = (48 + n) ∷ []
digits (suc fuel) n =
    let more = digits fuel (n / 10) ++ (48 + n % 10) ∷ [] in
    if ltb n 10 then (48 + n) ∷ [] else more

unfoldable pub decimal : ℕ → Text
unfolding digits
decimal n = digits n n

-- `none` for a character that is no digit, and past the largest value.
scan : ℕ → ℕ → Text → Option ℕ
scan most n [] = some n
scan most n (c ∷ s) =
    let n' = 10 * n + (c - 48) in
    let rest = scan most n' s in if leb 48 c && leb c 57 && leb n' most then rest else none

-- `s.parse()` for an unsigned type whose largest value is `most`: a sign may stand in front.
unfoldable pub parse_unsigned : ℕ → Text → Option ℕ
unfolding scan
parse_unsigned most [] = none
parse_unsigned most (c ∷ []) = scan most 0 (c ∷ [])
parse_unsigned most (c ∷ d ∷ s) = if c == 43 then scan most 0 (d ∷ s) else scan most 0 (c ∷ d ∷ s)

scan_snoc :
    (most a b c : ℕ) (s : Text)
    → scan most a s ≡ some b
    → c < 10
    → 10 * b + c ≤ most
    → scan most a (s ++ (48 + c) ∷ []) ≡ some (10 * b + c)
unfolding scan
scan_snoc most a b c [] e h k = ground arith
scan_snoc most a b c (d ∷ s) e h k = ground (arith, scan_snoc most (10 * a + (d - 48)) b c s)

scan-digits : (most fuel n : ℕ) → n ≤ fuel → n ≤ most → scan most 0 (digits fuel n) ≡ some n
unfolding digits scan
scan-digits most zero n h k = ground arith
scan-digits most (suc fuel) n h k = ground (
  arith,
  scan-digits most fuel (n / 10),
  scan_snoc most 0 (n / 10) (n % 10) (digits fuel (n / 10)),
)

-- It starts with a digit.
abbrev StartsWithDigit : Text → Type 0
StartsWithDigit [] = ⊥
StartsWithDigit (c ∷ s) = 48 ≤ c

StartsWithDigit-append : (s t : Text) → StartsWithDigit s → StartsWithDigit (s ++ t)
StartsWithDigit-append [] t h = absurd h
StartsWithDigit-append (c ∷ s) t h = h

digits-StartsWithDigit : (fuel n : ℕ) → StartsWithDigit (digits fuel n)
unfolding digits
digits-StartsWithDigit zero n = omega arith
digits-StartsWithDigit (suc fuel) n = elim (Bool-cases (ltb n 10)) [
  | inl small ↦ rw small (omega arith)
  | inr large ↦ rw large (
      StartsWithDigit-append (digits fuel (n / 10)) ((48 + n % 10) ∷ [])
        (digits-StartsWithDigit fuel (n / 10)))
]

parse_unsigned-scan :
    (most : ℕ) (s : Text) → StartsWithDigit s → parse_unsigned most s ≡ scan most 0 s
unfolding parse_unsigned
parse_unsigned-scan most [] h = absurd h
parse_unsigned-scan most (c ∷ []) h = refl
parse_unsigned-scan most (c ∷ d ∷ s) h = ground arith

-- The decimal form of a number is read back, if it is in range.
pub parse_unsigned-decimal : (most n : ℕ) → n ≤ most → parse_unsigned most (decimal n) ≡ some n
unfolding decimal
parse_unsigned-decimal most n h =
    rw (parse_unsigned-scan most (digits n n) (digits-StartsWithDigit n n))
      (scan-digits most n n (omega arith) h)

abbrev pub AreDigits : Text → Type 0
AreDigits [] = Unit
AreDigits (c ∷ s) = (48 ≤ c) × (c < 58) × AreDigits s

AreDigits-append : (s t : Text) → AreDigits s → AreDigits t → AreDigits (s ++ t)
AreDigits-append [] t h k = k
AreDigits-append (c ∷ s) t h k = (h.0, h.1, AreDigits-append s t h.2 k)

digits-AreDigits : (fuel n : ℕ) → n ≤ fuel → AreDigits (digits fuel n)
unfolding digits
digits-AreDigits zero n h = omega arith
digits-AreDigits (suc fuel) n h = elim (Bool-cases (ltb n 10)) [
  | inl small ↦ rw small (ground (arith, small))
  | inr large ↦ rw large (
      AreDigits-append (digits fuel (n / 10)) ((48 + n % 10) ∷ [])
        (digits-AreDigits fuel (n / 10) (ground (arith, large))) (omega arith))
]

pub decimal-AreDigits : (n : ℕ) → AreDigits (decimal n)
unfolding decimal
decimal-AreDigits n = digits-AreDigits n n (omega arith)
