-- ===== src/Protocol/Wire.antt =====
-- Lines of words that stand one space apart, as grumpydb-client/src/lib.rs formats them, and what
-- the helpers of grumpydb-protocol/src/parser.rs make of them.
use mathlib.Core.List.{reverse, reverse-append, reverse-reverse}
use grumpydb.Prelude.{
  ℕ, ◌≡◌, refl, sym, subst, ap, ◌∙◌, arith, Bool, true, false, not, ◌&&◌, [], ◌∷◌, ◌++◌,
  append_assoc, ok,
}
use grumpydb.Protocol.Text.{
  Text, is_empty, is_whitespace, trim_start, trim_end, trim, trim_newlines, strip_crlf, strip_lf,
  before_space, from_space,
}
use grumpydb.Protocol.Words.{split_first_word, split_last_word, first_word, require_arg}

abbrev pub no_space : Text → Bool
no_space [] = true
no_space (c ∷ s) = not (is_whitespace c) && no_space s

-- The first character is no space.
abbrev pub Clear : Text → Type 0
Clear [] = Unit
Clear (c ∷ s) = is_whitespace c ≡ false

abbrev pub IsTrimmed : Text → Type 0
IsTrimmed s = Clear s × Clear (reverse s)

-- A word, and an argument that may hold spaces inside.
abbrev pub IsWord : Text → Type 0
IsWord w = (is_empty w ≡ false) × (no_space w ≡ true)

abbrev pub IsArg : Text → Type 0
IsArg s = (is_empty s ≡ false) × IsTrimmed s

-- A word in front of what follows it, if anything does.
abbrev pub lead : Text → Text → Text
lead w [] = w
lead w (c ∷ s) = w ++ (32 ∷ (c ∷ s))

pub trim_start-Clear : (s : Text) → Clear s → trim_start s ≡ s
unfolding trim_start
trim_start-Clear [] h = refl
trim_start-Clear (c ∷ s) h = rw h refl

pub trim_end-Clear : (s : Text) → Clear (reverse s) → trim_end s ≡ s
unfolding trim_end
trim_end-Clear s h = rw (trim_start-Clear (reverse s) h) (reverse-reverse s)

pub trim-IsTrimmed : (s : Text) → IsTrimmed s → trim s ≡ s
unfolding trim
trim-IsTrimmed s h = rw (trim_start-Clear s h.0) (trim_end-Clear s h.1)

Clear-append : (s t : Text) → is_empty s ≡ false → Clear s → Clear (s ++ t)
Clear-append [] t e h = cc
Clear-append (c ∷ s) t e h = h

no_space-append : (s t : Text) → no_space s ≡ true → no_space t ≡ true → no_space (s ++ t) ≡ true
no_space-append [] t h k = k
no_space-append (c ∷ s) t h k = ground (arith, no_space-append s t)

no_space-reverse : (s : Text) → no_space s ≡ true → no_space (reverse s) ≡ true
no_space-reverse [] h = refl
no_space-reverse (c ∷ s) h = rw (reverse-append (c ∷ []) s) (
    no_space-append (reverse s) (c ∷ []) (no_space-reverse s (ground (arith, h)))
      (ground (arith, h)))

is_empty-append : (s : Text) (c : ℕ) → is_empty (s ++ c ∷ []) ≡ false
is_empty-append [] c = refl
is_empty-append (d ∷ s) c = refl

is_empty-reverse : (s : Text) → is_empty s ≡ false → is_empty (reverse s) ≡ false
is_empty-reverse [] h = cc
is_empty-reverse (c ∷ s) h = rw (reverse-append (c ∷ []) s) (is_empty-append (reverse s) c)

no_space-Clear : (s : Text) → no_space s ≡ true → Clear s
no_space-Clear [] h = tt
no_space-Clear (c ∷ s) h = ground (arith, h)

Clear-reverse : (s t : Text) → is_empty t ≡ false → Clear (reverse t) → Clear (reverse (s ++ t))
Clear-reverse s t e h =
    subst Clear (sym (reverse-append s t))
      (Clear-append (reverse t) (reverse s) (is_empty-reverse t e) h)

pub IsWord-IsArg : (w : Text) → IsWord w → IsArg w
IsWord-IsArg w h =
    (h.0, (no_space-Clear w h.1, no_space-Clear (reverse w) (no_space-reverse w h.1)))

pub IsArg-lead : (w s : Text) → IsWord w → IsTrimmed s → IsArg (lead w s)
IsArg-lead w [] h k = IsWord-IsArg w h
IsArg-lead [] (c ∷ s) h k = cc
IsArg-lead (d ∷ w) (c ∷ s) h k = (
  refl,
  (
    no_space-Clear (d ∷ w) (h.1),
    Clear-reverse (d ∷ w) (32 ∷ (c ∷ s)) refl (Clear-reverse (32 ∷ []) (c ∷ s) refl k.1),
  ),
)

-- An argument in front of a last word.
abbrev pub lead_arg : Text → Text → Text
lead_arg v w = v ++ (32 ∷ w)

pub IsArg-lead_arg : (v w : Text) → IsArg v → IsWord w → IsArg (lead_arg v w)
IsArg-lead_arg [] w h k = cc
IsArg-lead_arg (c ∷ v) w h k =
    let last = IsWord-IsArg w k in
    (refl, (h.1.0, Clear-reverse (c ∷ v) (32 ∷ w) refl (Clear-reverse (32 ∷ []) w k.0 last.1.1)))

before_space-word : (w s : Text) → no_space w ≡ true → before_space (w ++ 32 ∷ s) ≡ w
unfolding before_space is_whitespace
before_space-word [] s h = refl
before_space-word (c ∷ w) s h = ground (arith, before_space-word w s)

from_space-word : (w s : Text) → no_space w ≡ true → from_space (w ++ 32 ∷ s) ≡ 32 ∷ s
unfolding from_space is_whitespace
from_space-word [] s h = refl
from_space-word (c ∷ w) s h = ground (arith, from_space-word w s)

before_space-all : (w : Text) → no_space w ≡ true → before_space w ≡ w
unfolding before_space
before_space-all [] h = refl
before_space-all (c ∷ w) h = ground (arith, before_space-all w)

from_space-all : (w : Text) → no_space w ≡ true → from_space w ≡ []
unfolding from_space
from_space-all [] h = refl
from_space-all (c ∷ w) h = ground (arith, from_space-all w)

trim_start-space : (s : Text) → trim_start (32 ∷ s) ≡ trim_start s
unfolding trim_start is_whitespace
trim_start-space s = refl

-- The first word of a line is its word in front, and the rest is what follows.
pub split-lead : (w s : Text) → IsWord w → IsTrimmed s → split_first_word (lead w s) ≡ (w, s)
unfolding split_first_word
split-lead w [] h k = rw (before_space-all w h.1, from_space-all w h.1) (unfold trim_start in refl)
split-lead w (c ∷ s) h k =
    rw
      (
        before_space-word w (c ∷ s) h.1,
        from_space-word w (c ∷ s) h.1,
        trim_start-space (c ∷ s),
        trim_start-Clear (c ∷ s) k.0,
      )
      refl

pub first_word-lead : (w s m : Text) → IsWord w → IsTrimmed s → first_word (lead w s) m ≡ ok (w, s)
unfolding first_word
first_word-lead w s m h k = rw (split-lead w s h k) (rw (h.0) refl)

-- The last word of two parts.
pub split_last_word-lead :
    (v w : Text) → IsArg v → IsWord w → split_last_word (lead_arg v w) ≡ (v, w)
unfolding split_last_word
split_last_word-lead v w h k =
    let back : reverse (v ++ 32 ∷ w) ≡ reverse w ++ 32 ∷ reverse v =
      reverse-append v (32 ∷ w)
      ∙ ap (λ (t : Text). t ++ reverse v) (reverse-append (32 ∷ []) w)
      ∙ append_assoc (reverse w) (32 ∷ []) (reverse v) in
    let plain = no_space-reverse w k.1 in
    rw
      (
        back,
        before_space-word (reverse w) (reverse v) plain,
        from_space-word (reverse w) (reverse v) plain,
        trim_start-space (reverse v),
        trim_start-Clear (reverse v) h.1.1,
        reverse-reverse v,
        reverse-reverse w,
      )
      refl

pub require_arg-IsArg :
    (s command name : Text) → is_empty s ≡ false → require_arg s command name ≡ ok s
unfolding require_arg
require_arg-IsArg s command name h = rw h refl

pub IsWord-IsTrimmed : (w : Text) → IsWord w → IsTrimmed w
IsWord-IsTrimmed w h = (IsWord-IsArg w h).1

pub IsTrimmed-lead : (w s : Text) → IsWord w → IsTrimmed s → IsTrimmed (lead w s)
IsTrimmed-lead w s h k = (IsArg-lead w s h k).1

-- A word with nothing after it.
pub split-word : (w : Text) → IsWord w → split_first_word w ≡ (w, [])
split-word w h = split-lead w [] h (tt, tt)

pub first_word-word : (w m : Text) → IsWord w → first_word w m ≡ ok (w, [])
first_word-word w m h = first_word-lead w [] m h (tt, tt)

pub is_empty-lead : (w s : Text) → IsWord w → is_empty (lead w s) ≡ false
is_empty-lead w [] h = h.0
is_empty-lead [] (c ∷ s) h = cc
is_empty-lead (d ∷ w) (c ∷ s) h = refl

-- `\r\n`
abbrev pub crlf : Text
crlf = 13 ∷ (10 ∷ [])

strip_crlf-Clear : (s : Text) → Clear s → strip_crlf s ≡ s
unfolding strip_crlf is_whitespace
strip_crlf-Clear [] h = refl
strip_crlf-Clear (c ∷ []) h = refl
strip_crlf-Clear (c ∷ d ∷ s) h = ground (arith, h)

strip_lf-Clear : (s : Text) → Clear s → strip_lf s ≡ s
unfolding strip_lf is_whitespace
strip_lf-Clear [] h = refl
strip_lf-Clear (c ∷ s) h = ground (arith, h)

strip_crlf-ends : (s : Text) → strip_crlf (10 ∷ 13 ∷ s) ≡ strip_crlf s
unfolding strip_crlf
strip_crlf-ends s = refl

pub trim_newlines-crlf : (s : Text) → IsTrimmed s → trim_newlines (s ++ crlf) ≡ s
unfolding trim_newlines
trim_newlines-crlf s h =
    rw
      (
        reverse-append s crlf,
        strip_crlf-ends (reverse s),
        strip_crlf-Clear (reverse s) h.1,
        strip_lf-Clear (reverse s) h.1,
      )
      (reverse-reverse s)
