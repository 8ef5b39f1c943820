-- ===== src/Protocol/Text.antt =====
-- The methods of `str` that grumpydb-protocol/src/parser.rs uses, on a text as its characters.
use Prim.Native.Char.{code}
use Prim.Native.String.{String}
use mathlib.Core.List.{reverse}
use grumpydb.Prelude.{
  ℕ, ◌+◌, ◌-◌, Bool, true, false, ◌&&◌, ◌||◌, List, [], ◌∷◌, map, ltb, leb, ◌==◌, if◌then◌else◌,
}
use grumpydb.Prelude.Map.{is_same}

-- code points
abbrev pub Text : Type 0
Text = List ℕ

unfoldable pub text : String → Text
text String.[] = []
text (String.◌∷◌ c s) = code c ∷ text s

-- `char::is_whitespace`, the property White_Space of Unicode
unfoldable pub is_whitespace : ℕ → Bool
is_whitespace c =
    (leb 9 c && leb c 13)
    || c == 32
    || c == 0x85
    || c == 0xa0
    || c == 0x1680
    || (leb 0x2000 c && leb c 0x200a)
    || c == 0x2028
    || c == 0x2029
    || c == 0x202f
    || c == 0x205f
    || c == 0x3000

-- the bytes of a character in UTF-8, and of a text
unfoldable pub len_utf8 : ℕ → ℕ
len_utf8 c = if ltb c 0x80 then 1 else if ltb c 0x800 then 2 else if ltb c 0x10000 then 3 else 4

unfoldable pub byte_len : Text → ℕ
byte_len [] = 0
byte_len (c ∷ s) = len_utf8 c + byte_len s

abbrev pub is_empty : Text → Bool
is_empty [] = true
is_empty (_ ∷ _) = false

unfoldable pub trim_start : Text → Text
trim_start [] = []
trim_start (c ∷ s) = if is_whitespace c then trim_start s else c ∷ s

unfoldable pub trim_end : Text → Text
trim_end s = reverse (trim_start (reverse s))

unfoldable pub trim : Text → Text
trim s = trim_end (trim_start s)

-- `trim_end_matches("\r\n")` and `trim_end_matches('\n')`, from the end
unfoldable pub strip_crlf : Text → Text
strip_crlf [] = []
strip_crlf (c ∷ []) = c ∷ []
strip_crlf (c ∷ d ∷ s) = if c == 10 && d == 13 then strip_crlf s else c ∷ d ∷ s

unfoldable pub strip_lf : Text → Text
strip_lf [] = []
strip_lf (c ∷ s) = if c == 10 then strip_lf s else c ∷ s

unfoldable pub trim_newlines : Text → Text
trim_newlines s = reverse (strip_lf (strip_crlf (reverse s)))

upper : ℕ → ℕ
upper c = if leb 97 c && leb c 122 then c - 32 else c

lower : ℕ → ℕ
lower c = if leb 65 c && leb c 90 then c + 32 else c

unfoldable pub to_ascii_uppercase : Text → Text
unfolding upper
to_ascii_uppercase s = map upper s

unfoldable pub eq_ignore_ascii_case : Text → Text → Bool
unfolding lower
eq_ignore_ascii_case s t = is_same (map lower s) (map lower t)

-- the characters before the first whitespace, and the rest from there on
unfoldable pub before_space : Text → Text
before_space [] = []
before_space (c ∷ s) = if is_whitespace c then [] else c ∷ before_space s

unfoldable pub from_space : Text → Text
from_space [] = []
from_space (c ∷ s) = if is_whitespace c then c ∷ s else from_space s

-- `split_once('=')`, in the same way
unfoldable pub before_char : ℕ → Text → Text
before_char d [] = []
before_char d (c ∷ s) = if c == d then [] else c ∷ before_char d s

unfoldable pub from_char : ℕ → Text → Text
from_char d [] = []
from_char d (c ∷ s) = if c == d then c ∷ s else from_char d s
