-- ===== src/Protocol/Response.antt =====
-- grumpydb-protocol/src/response.rs, on texts as their UTF-8 bytes. A panic is an error of the model:
-- a slice that does not end between two characters, and a vector that is not allocated. Whether one
-- of a given capacity is allocated is a parameter.
pub mod Lines
pub mod RoundTrip
use grumpydb.Prelude.{
  ℕ, zero, suc, ◌+◌, ◌-◌, ◌^◌, Bool, true, false, not, ◌&&◌, Option, none, some, [], ◌∷◌, ◌++◌,
  Result, ok, err, ◌>>=◌, ◌>>◌, require, ltb, leb, ◌==◌, if◌then◌else◌, length, take, drop, slice,
  get_elem?,
}
use mathlib.Core.Option
use grumpydb.Prelude.Bytes.{Bytes}
use grumpydb.Prelude.Int.{ℤ, pos, negsuc}
use grumpydb.Protocol.Decimal.{decimal, parse_unsigned}

-- The variants `Ok` and `Error` hold a message.
mutual
  pub data Response : Type 0 where
    message error : Bytes → Response
    integer : ℤ → Response
    bulk : Option Bytes → Response
    array : Items → Response

  pub data Items : Type 0 where
    nil : Items
    cons : Response → Items → Items

pub data ResponseParseError : Type 0 where
  incomplete : ResponseParseError
  invalid_prefix : ℕ → ResponseParseError
  invalid_integer invalid_bulk_length : Bytes → ResponseParseError
  panic : ResponseParseError

abbrev pub Parsed {ℓ} : Type ℓ → Type ℓ
Parsed A = Result A ResponseParseError

abbrev pub crlf : Bytes
crlf = 13 ∷ (10 ∷ [])

-- `i64` in decimal, and back
unfoldable pub decimal_i64 : ℤ → Bytes
decimal_i64 (pos n) = decimal n
decimal_i64 (negsuc n) = b'-' ∷ decimal (suc n)

negated : ℕ → ℤ
negated zero = pos 0
negated (suc n) = negsuc n

-- A second sign is no digit.
no_sign : Bytes → Bool
no_sign [] = false
no_sign (c ∷ s) = not (c == b'+')

unfoldable pub parse_i64 : Bytes → Option ℤ
unfolding negated no_sign
parse_i64 [] = none
parse_i64 (c ∷ s) =
    if c == b'-'
    then (if no_sign s then Option.map negated (parse_unsigned (2 ^ 63) s) else none)
    else Option.map pos (parse_unsigned (2 ^ 63 - 1) (c ∷ s))

unfoldable pub count : Items → ℕ
count nil = 0
count (cons r rs) = suc (count rs)

unfoldable mutual
  pub serialize : Response → Bytes
  serialize (message msg) = b'+' ∷ (msg ++ crlf)
  serialize (error msg) = b'-' ∷ (b'E' ∷ (b'R' ∷ (b'R' ∷ (b' ' ∷ (msg ++ crlf)))))
  serialize (integer n) = b':' ∷ (decimal_i64 n ++ crlf)
  serialize (bulk none) = b'$' ∷ (b'-' ∷ (b'1' ∷ crlf))
  serialize (bulk (some text)) = b'$' ∷ ((decimal (length text) ++ crlf) ++ (text ++ crlf))
  serialize (array items) = b'*' ∷ ((decimal (count items) ++ crlf) ++ serialize_items items)

  pub serialize_items : Items → Bytes
  serialize_items nil = []
  serialize_items (cons r rs) = serialize r ++ serialize_items rs

unfoldable pub find_crlf : Bytes → Option ℕ
find_crlf [] = none
find_crlf (c ∷ []) = none
find_crlf (c ∷ d ∷ s) = if c == 13 && d == 10 then some 0 else Option.map suc (find_crlf (d ∷ s))

-- what stands between the prefix and the first `\r\n`, and where the next line begins
unfoldable pub first_line : Bytes → Parsed (Bytes × ℕ)
first_line input = elim (find_crlf input) [
  | none ↦ err incomplete
  | some i ↦ ok (slice 1 (i - 1) input, i + 2)
]

unfoldable pub parse_simple_string : Bytes → Parsed (Response × ℕ)
parse_simple_string input = do (msg, next) ← first_line input; ok (message msg, next)

-- `msg.strip_prefix("ERR ").unwrap_or(msg)`
unfoldable pub strip_err : Bytes → Bytes
strip_err (a ∷ b ∷ c ∷ d ∷ s) =
    if a == b'E' && b == b'R' && c == b'R' && d == b' ' then s else a ∷ b ∷ c ∷ d ∷ s
strip_err s = s

unfoldable pub parse_error : Bytes → Parsed (Response × ℕ)
unfolding strip_err
parse_error input = do (msg, next) ← first_line input; ok (error (strip_err msg), next)

-- the result of `parse`, with what becomes of a value that is not there
unfoldable pub integer_from : Bytes → ℕ → Option ℤ → Parsed (Response × ℕ)
integer_from num next none = err (invalid_integer num)
integer_from num next (some n) = ok (integer n, next)

unfoldable pub parse_integer : Bytes → Parsed (Response × ℕ)
unfolding integer_from
parse_integer input = do (num, next) ← first_line input; integer_from num next (parse_i64 num)

-- no byte that continues a character stands at the index
unfoldable pub is_char_boundary : ℕ → Bytes → Bool
is_char_boundary i input = elim (get_elem? input i) [
  | none ↦ true
  | some b ↦ not (leb 0x80 b && ltb b 0xc0)
]

-- from the length on
unfoldable pub bulk_from : ℕ → ℕ → Bytes → Parsed (Response × ℕ)
bulk_from len start input = do
  require (not (ltb (length input) (start + len + 2))) incomplete
  require (is_char_boundary (start + len) input) panic
  ok (bulk (some (slice start len input)), start + len + 2)

unfoldable pub bulk_of : Bytes → ℕ → Bytes → Option ℤ → Parsed (Response × ℕ)
bulk_of len next input none = err (invalid_bulk_length len)
bulk_of len next input (some (negsuc _)) = ok (bulk none, next)
bulk_of len next input (some (pos n)) = bulk_from n next input

unfoldable pub parse_bulk : Bytes → Parsed (Response × ℕ)
unfolding bulk_of
parse_bulk input = do (len, next) ← first_line input; bulk_of len next input (parse_i64 len)

-- the loop over the items, with the parser of one of them
unfoldable pub parse_items : (Bytes → Parsed (Response × ℕ)) → ℕ → Bytes → ℕ → Parsed (Items × ℕ)
parse_items parse_one zero input offset = ok (nil, offset)
parse_items parse_one (suc n) input offset = do
  require (not (leb (length input) offset)) incomplete
  (item, consumed) ← parse_one (drop offset input)
  (items, end) ← parse_items parse_one n input (offset + consumed)
  ok (cons item items, end)

module _ (can_reserve : ℕ → Bool) where
  unfoldable pub array_of :
      (Bytes → Parsed (Response × ℕ)) → Bytes → ℕ → Bytes → Option ℕ → Parsed (Response × ℕ)
  array_of parse_one num next input none = err (invalid_bulk_length num)
  array_of parse_one num next input (some n) = do
    require (can_reserve n) panic
    (items, end) ← parse_items parse_one n input next
    ok (array items, end)

  unfoldable pub parse_array : (Bytes → Parsed (Response × ℕ)) → Bytes → Parsed (Response × ℕ)
  unfolding array_of
  parse_array parse_one input = do
    (num, next) ← first_line input
    array_of parse_one num next input (parse_unsigned (2 ^ 64 - 1) num)

  -- An item stands behind the count, so that the length of the input is fuel enough: without fuel
  -- the input is empty.
  unfoldable pub parse_fuel : ℕ → Bytes → Parsed (Response × ℕ)
  parse_fuel fuel [] = err incomplete
  parse_fuel zero (c ∷ s) = err incomplete
  parse_fuel (suc fuel) (c ∷ s) =
      if c == b'+'
      then parse_simple_string (c ∷ s)
      else if c == b'-'
      then parse_error (c ∷ s)
      else if c == b':'
      then parse_integer (c ∷ s)
      else if c == b'$'
      then parse_bulk (c ∷ s)
      else if c == b'*'
      then parse_array (parse_fuel fuel) (c ∷ s)
      else err (invalid_prefix c)

  unfoldable pub parse : Bytes → Parsed (Response × ℕ)
  parse input = parse_fuel (length input) input
