-- ===== src/Protocol/Line/Concerns.antt =====
-- Consistency concerns on a line: grumpydb-protocol/src/parser.rs.
use grumpydb.Prelude.{
  ℕ, ◌-◌, ◌^◌, ◌<◌, ◌≡◌, refl, arith, true, false, Option, none, some, [], ◌∷◌, ok,
}
use grumpydb.Protocol.Text.{
  Text, text, is_empty, is_whitespace, before_char, from_char, eq_ignore_ascii_case,
}
use grumpydb.Protocol.Decimal.{decimal, parse_unsigned-decimal, AreDigits, decimal-AreDigits}
use grumpydb.Protocol.Words.{
  parse_concern_token, next_concern, parse_consistency_prefix, parse_database_consistency_settings,
}
use grumpydb.Protocol.Wire.{
  IsWord, IsTrimmed, lead, no_space, split-lead, IsTrimmed-lead, is_empty-lead,
}
use grumpydb.Protocol.Line.{IsConcern, IsSome, read_concern, write_concern, concerns}

abbrev token_of : ℕ → ℕ → Text
token_of letter n = letter ∷ b'=' ∷ decimal n

read_token :
    (n : ℕ) → n < 2 ^ 16 → parse_concern_token (token_of b'R' n) b'R' (text "READ_CONCERN") ≡ ok n
unfolding parse_concern_token from_char before_char eq_ignore_ascii_case
read_token n h = rw (parse_unsigned-decimal (2 ^ 16 - 1) n (omega arith)) refl

write_token :
    (n : ℕ) → n < 2 ^ 16 → parse_concern_token (token_of b'W' n) b'W' (text "WRITE_CONCERN") ≡ ok n
unfolding parse_concern_token from_char before_char eq_ignore_ascii_case
write_token n h = rw (parse_unsigned-decimal (2 ^ 16 - 1) n (omega arith)) refl

AreDigits-no_space : (s : Text) → AreDigits s → no_space s ≡ true
unfolding is_whitespace
AreDigits-no_space [] h = refl
AreDigits-no_space (c ∷ s) h = ground (arith, AreDigits-no_space s h.2)

read_IsWord : (n : ℕ) → IsWord (token_of b'R' n)
unfolding is_whitespace
read_IsWord n = (refl, AreDigits-no_space (decimal n) (decimal-AreDigits n))

write_IsWord : (n : ℕ) → IsWord (token_of b'W' n)
unfolding is_whitespace
write_IsWord n = (refl, AreDigits-no_space (decimal n) (decimal-AreDigits n))

module _ (n : ℕ) (rest : Text) (t : IsTrimmed rest) where
  read_concern-IsTrimmed : IsTrimmed (lead (text "READ_CONCERN") (lead (token_of b'R' n) rest))
  unfolding text is_whitespace
  read_concern-IsTrimmed =
      IsTrimmed-lead (text "READ_CONCERN") (lead (token_of b'R' n) rest) (refl, refl)
        (IsTrimmed-lead (token_of b'R' n) rest (read_IsWord n) t)

  write_concern-IsTrimmed : IsTrimmed (lead (text "WRITE_CONCERN") (lead (token_of b'W' n) rest))
  unfolding text is_whitespace
  write_concern-IsTrimmed =
      IsTrimmed-lead (text "WRITE_CONCERN") (lead (token_of b'W' n) rest) (refl, refl)
        (IsTrimmed-lead (token_of b'W' n) rest (write_IsWord n) t)

  read_step :
      (w : Option ℕ)
      → n < 2 ^ 16
      → next_concern (read_concern (some n) rest) none w ≡ ok (some (rest, some n, w))
  unfolding next_concern eq_ignore_ascii_case text is_whitespace
  read_step w h =
      rw
        (split-lead (text "READ_CONCERN") (lead (token_of b'R' n) rest) (refl, refl)
          (IsTrimmed-lead (token_of b'R' n) rest (read_IsWord n) t))
        (rw (split-lead (token_of b'R' n) rest (read_IsWord n) t) (rw (read_token n h) refl))

  write_step :
      (r : Option ℕ)
      → n < 2 ^ 16
      → next_concern (write_concern (some n) rest) r none ≡ ok (some (rest, r, some n))
  unfolding next_concern eq_ignore_ascii_case text is_whitespace
  write_step r h =
      rw
        (split-lead (text "WRITE_CONCERN") (lead (token_of b'W' n) rest) (refl, refl)
          (IsTrimmed-lead (token_of b'W' n) rest (write_IsWord n) t))
        (rw (split-lead (token_of b'W' n) rest (write_IsWord n) t) (rw (write_token n h) refl))

-- What no concern stands in front of.
abbrev pub IsRest : Text → Type 0
IsRest rest = (r w : Option ℕ) → next_concern rest r w ≡ ok none

module _ (rest : Text) (t : IsTrimmed rest) (plain : IsRest rest) where
  -- A prefix of concerns is taken off the line that it stands in front of.
  pub parse_consistency_prefix-concerns :
      (r w : Option ℕ)
      → IsConcern r
      → IsConcern w
      → parse_consistency_prefix (concerns r w rest) ≡ ok (rest, r, w)
  unfolding parse_consistency_prefix
  parse_consistency_prefix-concerns none none hr hw = rw (plain none none) refl
  parse_consistency_prefix-concerns (some n) none hr hw =
      rw (read_step n rest t none hr) (rw (plain (some n) none) refl)
  parse_consistency_prefix-concerns none (some m) hr hw =
      rw (write_step m rest t none hw) (rw (plain none (some m)) refl)
  parse_consistency_prefix-concerns (some n) (some m) hr hw =
      rw (read_step n (write_concern (some m) rest) (write_concern-IsTrimmed m rest t) none hr)
        (rw (write_step m rest t (some n) hw) refl)

pub concerns-IsTrimmed :
    (r w : Option ℕ) (rest : Text) → IsTrimmed rest → IsTrimmed (concerns r w rest)
concerns-IsTrimmed none none rest t = t
concerns-IsTrimmed (some n) none rest t = read_concern-IsTrimmed n rest t
concerns-IsTrimmed none (some m) rest t = write_concern-IsTrimmed m rest t
concerns-IsTrimmed (some n) (some m) rest t =
    read_concern-IsTrimmed n (write_concern (some m) rest) (write_concern-IsTrimmed m rest t)

read_concern-some : (n : ℕ) (rest : Text) → is_empty (read_concern (some n) rest) ≡ false
unfolding text is_whitespace
read_concern-some n rest =
    is_empty-lead (text "READ_CONCERN") (lead (token_of b'R' n) rest) (refl, refl)

write_concern-some : (n : ℕ) (rest : Text) → is_empty (write_concern (some n) rest) ≡ false
unfolding text is_whitespace
write_concern-some n rest =
    is_empty-lead (text "WRITE_CONCERN") (lead (token_of b'W' n) rest) (refl, refl)

pub parse_settings-concerns :
    (r w : Option ℕ)
    → IsConcern r
    → IsConcern w
    → IsSome r w
    → parse_database_consistency_settings (concerns r w []) ≡ ok (r, w)
unfolding parse_database_consistency_settings
parse_settings-concerns none none hr hw h = absurd h
parse_settings-concerns (some n) none hr hw h =
    rw (read_concern-some n []) (rw (read_step n [] (tt, tt) none hr) refl)
parse_settings-concerns none (some m) hr hw h =
    rw (write_concern-some m []) (rw (write_step m [] (tt, tt) none hw) refl)
parse_settings-concerns (some n) (some m) hr hw h =
    rw (read_concern-some n (write_concern (some m) [])) (
      rw (read_step n (write_concern (some m) []) (write_concern-IsTrimmed m [] (tt, tt)) none hr)
        (rw (write_concern-some m []) (rw (write_step m [] (tt, tt) (some n) hw) refl)))

pub is_empty-concerns :
    (r w : Option ℕ) (rest : Text) → IsSome r w → is_empty (concerns r w rest) ≡ false
is_empty-concerns none none rest h = absurd h
is_empty-concerns (some n) none rest h = read_concern-some n rest
is_empty-concerns none (some m) rest h = write_concern-some m rest
is_empty-concerns (some n) (some m) rest h = read_concern-some n (write_concern (some m) rest)
