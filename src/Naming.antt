-- ===== src/Naming.antt =====
-- `validate_name` of src/naming.rs. A `&str` is its UTF-8 bytes; a character outside ASCII starts with
-- a byte of 128 or more.
use grumpydb.Prelude.{
  ℕ, ◌≤◌, ◌≡◌, ◌≢◌, ◌↔◌, ◌⊎◌, arith, Bool, true, false, not, ◌&&◌, ◌||◌, [], ◌∷◌, ok, err, ◌>>◌,
  require, ltb, leb, ◌==◌, if◌then◌else◌, length, take, All,
}
use grumpydb.Prelude.Bytes.{Bytes}
use grumpydb.Prelude.Map.{is_same, is_same-true}
use grumpydb.Error.{
  Outcome, invalid_name, empty_name, reserved_name, name_too_long, invalid_character,
}

-- `ch.is_ascii_lowercase() || ch.is_ascii_digit() || ch == '_'`
unfoldable pub is_name_char : ℕ → Bool
is_name_char c = (leb 97 c && leb c 122) || (leb 48 c && leb c 57) || (c == 95)

-- The bytes of the character that starts with a byte.
char_width : ℕ → ℕ
char_width c = if ltb c 128 then 1 else if ltb c 224 then 2 else if ltb c 240 then 3 else 4

-- the loop over the characters
unfoldable pub check_chars : Bytes → Outcome (Unit {0})
unfolding char_width
check_chars [] = ok tt
check_chars (c ∷ cs) =
    let rest = check_chars cs in
    if is_name_char c
    then rest
    else err (invalid_name (invalid_character (take (char_width c) (c ∷ cs))))

unfoldable pub is_underscored : Bytes → Bool
is_underscored [] = false
is_underscored (c ∷ cs) = c == 95

-- "_default" and "_system"
abbrev pub default_name : Bytes
default_name = 95 ∷ 100 ∷ 101 ∷ 102 ∷ 97 ∷ 117 ∷ 108 ∷ 116 ∷ []

abbrev pub system_name : Bytes
system_name = 95 ∷ 115 ∷ 121 ∷ 115 ∷ 116 ∷ 101 ∷ 109 ∷ []

unfoldable pub is_reserved : Bytes → Bool
is_reserved name =
    is_underscored name && not (is_same name default_name) && not (is_same name system_name)

unfoldable pub validate_name : Bytes → Outcome (Unit {0})
validate_name name = do
  require (not (length name == 0)) (invalid_name empty_name)
  require (leb (length name) 64) (invalid_name (name_too_long (length name)))
  require (not (is_reserved name)) (invalid_name reserved_name)
  check_chars name

-- A lower-case letter, a digit or `_`.
abbrev pub IsNameChar : ℕ → Type 0
IsNameChar c = ((97 ≤ c) × (c ≤ 122)) ⊎ ((48 ≤ c) × (c ≤ 57)) ⊎ (c ≡ 95)

is_name_char-true : (c : ℕ) → (is_name_char c ≡ true) ↔ IsNameChar c
unfolding is_name_char
is_name_char-true c = ground arith

check_chars-ok : (name : Bytes) → (check_chars name ≡ ok tt) ↔ All IsNameChar name
unfolding check_chars
check_chars-ok [] = ground arith
check_chars-ok (c ∷ cs) = ground (arith, check_chars-ok cs, is_name_char-true c)

-- A name is reserved when it starts with `_` and is not one of the two exceptions.
abbrev pub IsReserved : Bytes → Type 0
IsReserved name = (is_underscored name ≡ true) × (name ≢ default_name) × (name ≢ system_name)

is_reserved-true : (name : Bytes) → (is_reserved name ≡ true) ↔ IsReserved name
unfolding is_reserved
is_reserved-true name =
    ground (arith, is_same-true name default_name, is_same-true name system_name)

-- `validate_name` accepts exactly the names of 1 to 64 bytes that consist of lower-case letters,
-- digits and `_`, and do not start with `_` unless they are "_default" or "_system".
pub validate_name-ok_iff :
    (name : Bytes)
    → (validate_name name ≡ ok tt)
      ↔ ((1 ≤ length name) × (length name ≤ 64) × All IsNameChar name × (¬ IsReserved name))
unfolding validate_name
validate_name-ok_iff name = ground (arith, check_chars-ok name, is_reserved-true name)
