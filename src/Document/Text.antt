-- ===== src/Document/Text.antt =====
-- Rust's `String` as its UTF-8 bytes: the test of `String::from_utf8`.
use grumpydb.Prelude.{
  ℕ, zero, suc, Bool, true, false, Option, none, some, [], ◌∷◌, ◌&&◌, ltb, leb, if◌then◌else◌,
}
use grumpydb.Prelude.Bytes.{Bytes}

-- How many bytes follow a lead byte, and the range of the first of them.
lead : ℕ → Option (ℕ × ℕ × ℕ)
lead b =
    if ltb b 0x80
    then some (0, 0, 0)
    else if ltb b 0xc2
    then none
    else if ltb b 0xe0
    then some (1, 0x80, 0xbf)
    else if ltb b 0xe1
    then some (2, 0xa0, 0xbf)
    else if ltb b 0xed
    then some (2, 0x80, 0xbf)
    else if ltb b 0xee
    then some (2, 0x80, 0x9f)
    else if ltb b 0xf0
    then some (2, 0x80, 0xbf)
    else if ltb b 0xf1
    then some (3, 0x90, 0xbf)
    else if ltb b 0xf4
    then some (3, 0x80, 0xbf)
    else if ltb b 0xf5
    then some (3, 0x80, 0x8f)
    else none

-- Inside a character of which `n` bytes are to come, the next one between `lo` and `hi`.
utf8_from : ℕ → ℕ → ℕ → Bytes → Bool
unfolding lead
utf8_from zero lo hi [] = true
utf8_from (suc n) lo hi [] = false
utf8_from zero lo hi (b ∷ bs) = elim (lead b) [
  | none ↦ false
  | some (n, lo', hi') ↦ utf8_from n lo' hi' bs
]
utf8_from (suc n) lo hi (b ∷ bs) = elim (leb lo b && leb b hi) [
  | true ↦ utf8_from n 0x80 0xbf bs
  | false ↦ false
]

unfoldable pub is_utf8 : Bytes → Bool
unfolding utf8_from
is_utf8 = utf8_from 0 0 0
