-- ===== src/Witnesses/Wire.antt =====
-- Lines and responses of the wire protocol, on concrete values.
use grumpydb.Prelude.{ℕ, ◌^◌, ◌≡◌, refl, arith, Bool, none, some, [], ◌∷◌, ◌++◌, ok, length, ltb}
use grumpydb.Prelude.Int.{negsuc}
use grumpydb.Protocol.Text.{text, is_whitespace, byte_len, len_utf8}
use grumpydb.Protocol.Decimal.{decimal}
use grumpydb.Protocol.Command.{Command, with_consistency, insert}
use grumpydb.Protocol.Wire.{crlf}
use grumpydb.Protocol.Parser.{parse_command}
use grumpydb.Protocol.Line.{IsWire, line_of}
use grumpydb.Protocol.Line.RoundTrip.{parse_command-line_of}
use grumpydb.Protocol.Response.{
  Response, message, integer, bulk, array, nil, cons, count, serialize, parse,
}
use grumpydb.Protocol.Response.Lines.{IsSendable, AreSendable}
use grumpydb.Protocol.Response.RoundTrip.{parse-serialize}

abbrev sample : Command
sample = with_consistency none (some 2) (insert (text "users") (text "k1") (text "{\"a\": 1}"))

sample-IsWire : IsWire sample
unfolding text is_whitespace
sample-IsWire = (tt, omega arith, tt, ((refl, refl), (refl, refl), (refl, (refl, refl))))

small : byte_len (line_of sample) ≡ 42
unfolding line_of text decimal byte_len len_utf8
small = refl

parse_command-line_of_example : parse_command (line_of sample ++ crlf) ≡ ok sample
parse_command-line_of_example = parse_command-line_of sample sample-IsWire (omega (arith, small))

abbrev reserve : ℕ → Bool
reserve n = ltb n (2 ^ 40)

-- An array of a message, a negative integer and a text of four bytes.
abbrev reply : Response
reply = array (
    cons (message (79 ∷ 75 ∷ []))
      (cons (integer (negsuc 4)) (cons (bulk (some (104 ∷ 195 ∷ 169 ∷ 13 ∷ []))) nil)))

reply-IsSendable : IsSendable reserve reply
unfolding IsSendable AreSendable count
reply-IsSendable = (omega arith, refl, ((refl, tt), (omega arith, (omega arith, tt))))

parse-serialize_example :
    parse reserve (serialize reply ++ (58 ∷ [])) ≡ ok (reply, length (serialize reply))
parse-serialize_example = parse-serialize reserve reply (58 ∷ []) reply-IsSendable

sample_line : line_of sample ≡ text "WRITE_CONCERN W=2 INSERT users k1 {\"a\": 1}"
unfolding line_of text decimal
sample_line = refl
