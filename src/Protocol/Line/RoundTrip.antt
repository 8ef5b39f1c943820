-- ===== src/Protocol/Line/RoundTrip.antt =====
-- The line of a command, parsed: `parse_command` of grumpydb-protocol/src/parser.rs.
use grumpydb.Prelude.{ℕ, ◌≤◌, ◌≡◌, refl, false, Option, none, some, ◌++◌, ok, ge→ltb}
use grumpydb.Protocol.Text.{Text, text, is_empty, byte_len, eq_ignore_ascii_case}
use grumpydb.Protocol.Command.{Command, with_consistency}
use grumpydb.Protocol.Words.{next_concern}
use grumpydb.Protocol.Wire.{
  IsTrimmed, crlf, split-lead, IsTrimmed-lead, is_empty-lead, trim-IsTrimmed, trim_newlines-crlf,
}
use grumpydb.Protocol.Parser.{max_line_length, parse_base, parse_command, wrap}
use grumpydb.Protocol.Line.{
  IsPlain, IsWire, IsSome, IsConcern, verb_text, args, plain_line, line_of, concerns,
}
use grumpydb.Protocol.Line.Concerns.{
  concerns-IsTrimmed, is_empty-concerns, parse_consistency_prefix-concerns, IsRest,
}
use grumpydb.Protocol.Line.Verbs.{verb_text-IsWord, args-IsTrimmed, parse_word-line}

abbrev NotConcern : Text → Type 0
NotConcern verb =
    (eq_ignore_ascii_case verb (text "READ_CONCERN") ≡ false)
    × (eq_ignore_ascii_case verb (text "WRITE_CONCERN") ≡ false)

verb_text-NotConcern : (c : Command) → IsPlain c → NotConcern (verb_text c)
unfolding verb_text eq_ignore_ascii_case text
verb_text-NotConcern (with_consistency r w c) h = absurd h
verb_text-NotConcern _ h = (refl, refl)

module _ (c : Command) (h : IsPlain c) where
  plain-IsTrimmed : IsTrimmed (plain_line c)
  plain-IsTrimmed =
      IsTrimmed-lead (verb_text c) (args c) (verb_text-IsWord c h) (args-IsTrimmed c h)

  plain-IsRest : IsRest (plain_line c)
  unfolding next_concern
  plain-IsRest r w =
      let verb = verb_text-NotConcern c h in
      rw (split-lead (verb_text c) (args c) (verb_text-IsWord c h) (args-IsTrimmed c h))
        (rw (verb.0, verb.1) refl)

  parse_base-plain : parse_base (plain_line c) ≡ ok c
  unfolding parse_base
  parse_base-plain =
      rw (split-lead (verb_text c) (args c) (verb_text-IsWord c h) (args-IsTrimmed c h))
        (parse_word-line c h)

  parse_plain :
      (r w : Option ℕ)
      → IsConcern r
      → IsConcern w
      → is_empty (concerns r w (plain_line c)) ≡ false
      → byte_len (concerns r w (plain_line c)) ≤ max_line_length
      → parse_command (concerns r w (plain_line c) ++ crlf) ≡ ok (wrap r w c)
  unfolding parse_command
  parse_plain r w hr hw e small =
      let line = concerns r w (plain_line c) in
      let t = concerns-IsTrimmed r w (plain_line c) plain-IsTrimmed in
      rw (trim_newlines-crlf line t) (
        rw (ge→ltb max_line_length (byte_len line) small, trim-IsTrimmed line t)
          (rw (e) (
            rw
              (parse_consistency_prefix-concerns (plain_line c) plain-IsTrimmed plain-IsRest r w hr
                hw)
              (rw (parse_base-plain) refl))))

wrap-IsSome : (r w : Option ℕ) (c : Command) → IsSome r w → wrap r w c ≡ with_consistency r w c
unfolding wrap
wrap-IsSome none none c h = absurd h
wrap-IsSome (some n) w c h = refl
wrap-IsSome none (some m) c h = refl

unprefixed :
    (c : Command)
    → IsPlain c
    → byte_len (plain_line c) ≤ max_line_length
    → parse_command (plain_line c ++ crlf) ≡ ok c
unfolding wrap
unprefixed c h small =
    parse_plain c h none none tt tt (is_empty-lead (verb_text c) (args c) (verb_text-IsWord c h))
      small

-- The line of every command, with `\r\n` behind it, is parsed as that command, if its arguments are
-- ones that a line can hold (words have no spaces, a last argument that takes the rest of the line
-- has none at its ends, and both ends of a scan or none are given), its concerns are of 16 bits, it
-- has at most one prefix, and the line is at most `MAX_LINE_LENGTH` bytes.
pub parse_command-line_of :
    (c : Command)
    → IsWire c
    → byte_len (line_of c) ≤ max_line_length
    → parse_command (line_of c ++ crlf) ≡ ok c
unfolding line_of
parse_command-line_of (with_consistency r w c) h small =
    rw (← wrap-IsSome r w c h.2)
      (parse_plain c h.3 r w h.0 h.1 (is_empty-concerns r w (plain_line c) h.2) small)
parse_command-line_of c h small = unprefixed c h small
