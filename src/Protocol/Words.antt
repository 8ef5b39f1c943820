-- ===== src/Protocol/Words.antt =====
-- The helpers of grumpydb-protocol/src/parser.rs: words, arguments and concerns.
use mathlib.Core.List.{reverse}
use grumpydb.Prelude.{
  ℕ, zero, suc, ◌-◌, ◌^◌, Bool, true, false, not, ◌&&◌, Option, none, some, [], ◌∷◌, ◌++◌, Result,
  ok, err, ◌>>=◌, ◌>>◌, require, drop, if◌then◌else◌,
}
use grumpydb.Protocol.Text.{
  Text, text, is_empty, trim_start, before_space, from_space, before_char, from_char,
  eq_ignore_ascii_case,
}
use grumpydb.Protocol.Decimal.{parse_unsigned}

pub data ProtocolError : Type 0 where
  empty : ProtocolError
  unknown_command missing_argument : Text → ProtocolError
  line_too_long : ℕ → ProtocolError

abbrev pub Parsed {ℓ} : Type ℓ → Type ℓ
Parsed A = Result A ProtocolError

-- `Err(ProtocolError::MissingArgument(…))`, unless the test holds
abbrev pub expect : Bool → Text → Parsed (Unit {0})
expect b message = require b (missing_argument message)

unfoldable pub split_first_word : Text → Text × Text
split_first_word s = (before_space s, trim_start (from_space s))

unfoldable pub split_last_word : Text → Text × Text
split_last_word s =
    (reverse (trim_start (from_space (reverse s))), reverse (before_space (reverse s)))

unfoldable pub require_arg : Text → Text → Text → Parsed Text
require_arg rest command arg_name =
    if is_empty rest
    then err (missing_argument (command ++ (text " requires <" ++ (arg_name ++ text ">"))))
    else ok rest

-- A first word, which must be there.
unfoldable pub first_word : Text → Text → Parsed (Text × Text)
first_word rest message = do
  let p = split_first_word rest
  expect (not (is_empty p.0)) message
  ok p

concern_message : Text → ℕ → Text
concern_message keyword expected = keyword ++ (text " requires " ++ (expected ∷ text "=<n>"))

unfoldable pub parse_concern_token : Text → ℕ → Text → Parsed ℕ
unfolding concern_message
parse_concern_token token expected keyword = do
  expect (not (is_empty (from_char b'=' token))) (concern_message keyword expected)
  expect (eq_ignore_ascii_case (before_char b'=' token) (expected ∷ []))
      (concern_message keyword expected)
  elim (parse_unsigned (2 ^ 16 - 1) (drop 1 (from_char b'=' token))) [
    | none ↦ err (missing_argument (concern_message keyword expected))
    | some n ↦ ok n
  ]

is_none {ℓ} : {A : Type ℓ} → Option A → Bool
is_none none = true
is_none (some _) = false

concern : Text → ℕ → Text → Parsed (ℕ × Text)
unfolding parse_concern_token concern_message
concern tail expected keyword = do
  let p = split_first_word tail
  expect (not (is_empty p.0)) (concern_message keyword expected)
  n ← parse_concern_token p.0 expected keyword
  ok (n, p.1)

-- What is left, and the two concerns.
abbrev pub Concerns : Type 0
Concerns = Text × Option ℕ × Option ℕ

-- One round of either loop over concerns; `none` where no concern stands in front.
unfoldable pub next_concern : Text → Option ℕ → Option ℕ → Parsed (Option Concerns)
unfolding concern is_none
next_concern input r w =
    let p = split_first_word input in
    let read = do
      expect (is_none r) (text "READ_CONCERN specified more than once")
      c ← concern p.1 b'R' (text "READ_CONCERN")
      ok (some (c.1, some c.0, w))
    in let write = do
      expect (is_none w) (text "WRITE_CONCERN specified more than once")
      c ← concern p.1 b'W' (text "WRITE_CONCERN")
      ok (some (c.1, r, some c.0))
      in if eq_ignore_ascii_case p.0 (text "READ_CONCERN")
        then read
        else if eq_ignore_ascii_case p.0 (text "WRITE_CONCERN")
        then write
        else ok none

prefix_from : ℕ → Text → Option ℕ → Option ℕ → Parsed Concerns
prefix_from zero input r w = ok (input, r, w)
prefix_from (suc rounds) input r w = do
  o ← next_concern input r w
  elim o [ none ↦ ok (input, r, w) | some (rest, r', w') ↦ prefix_from rounds rest r' w' ]

unfoldable pub parse_consistency_prefix : Text → Parsed Concerns
unfolding prefix_from
parse_consistency_prefix input = prefix_from 2 input none none

settings_from : ℕ → Text → Option ℕ → Option ℕ → Parsed Concerns
settings_from zero input r w = ok (input, r, w)
settings_from (suc rounds) input r w =
    let more = do
      o ← next_concern input r w
      elim o [
        | none ↦
            err
              (missing_argument (text "SET CONSISTENCY expects READ_CONCERN and/or WRITE_CONCERN"))
        | some (rest, r', w') ↦ settings_from rounds rest r' w'
      ]
    in if is_empty input then ok (input, r, w) else more

-- Three rounds: the third ends the loop, since a concern that is there twice is an error.
unfoldable pub parse_database_consistency_settings : Text → Parsed (Option ℕ × Option ℕ)
unfolding settings_from is_none
parse_database_consistency_settings rest = do
  c ← settings_from 3 rest none none
  expect (not (is_none c.1 && is_none c.2))
      (text "ALTER DATABASE <name> SET CONSISTENCY requires READ_CONCERN and/or WRITE_CONCERN")
  ok (c.1, c.2)
