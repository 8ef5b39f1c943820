-- ===== src/Protocol/Response/Lines.antt =====
-- The lines of a response, and its numbers and texts: the helpers of
-- grumpydb-protocol/src/response.rs on what `serialize` writes.
use grumpydb.Prelude.{
  ℕ, suc, ◌+◌, ◌-◌, ◌^◌, ◌≤◌, ◌<◌, ◌≡◌, refl, ap, arith, Bool, true, false, ◌&&◌, none, some, [],
  ◌∷◌, ◌++◌, append_assoc, ok, ◌==◌, ge→ltb, length, length-append, get_elem?, take-append,
  drop-append,
}
use grumpydb.Prelude.Bytes.{Bytes}
use grumpydb.Prelude.Int.{ℤ, pos, negsuc, IsI64}
use grumpydb.Protocol.Decimal.{
  decimal, parse_unsigned, parse_unsigned-decimal, AreDigits, decimal-AreDigits,
}
use grumpydb.Protocol.Response.{
  Response, message, error, integer, bulk, array, Items, nil, cons, crlf, decimal_i64, parse_i64,
  count, find_crlf, first_line, is_char_boundary, bulk_from, parse_bulk,
}

-- No `\r\n` stands in the text.
abbrev pub OneLine : Bytes → Type 0
OneLine [] = Unit
OneLine (c ∷ []) = Unit
OneLine (c ∷ d ∷ s) = ((c == 13 && d == 10) ≡ false) × OneLine (d ∷ s)

find_crlf_lem : (s rest : Bytes) → OneLine s → find_crlf (s ++ (crlf ++ rest)) ≡ some (length s)
unfolding find_crlf
find_crlf_lem [] rest h = refl
find_crlf_lem (c ∷ []) rest h = ground arith
find_crlf_lem (c ∷ d ∷ s) rest h = rw (h.0, find_crlf_lem (d ∷ s) rest h.1) refl

OneLine-cons : (c : ℕ) (s : Bytes) → (c == 13) ≡ false → OneLine s → OneLine (c ∷ s)
OneLine-cons c [] h k = tt
OneLine-cons c (d ∷ s) h k = (rw h refl, k)

pub first_line_lem :
    (c : ℕ) (s rest : Bytes)
    → (c == 13) ≡ false
    → OneLine s
    → first_line (c ∷ (s ++ (crlf ++ rest))) ≡ ok (s, length s + 3)
unfolding first_line
first_line_lem c s rest h k =
    let n : suc (length s) - 1 ≡ length s = omega arith in
    let m : suc (length s) + 2 ≡ length s + 3 = omega arith in
    rw (first_line, find_crlf_lem (c ∷ s) rest (OneLine-cons c s h k))
      (rw (n, m, take-append s (crlf ++ rest)) refl)

AreDigits-OneLine : (s : Bytes) → AreDigits s → OneLine s
AreDigits-OneLine [] h = tt
AreDigits-OneLine (c ∷ s) h = OneLine-cons c s (ground (arith, h.0)) (AreDigits-OneLine s h.2)

pub decimal-OneLine : (n : ℕ) → OneLine (decimal n)
decimal-OneLine n = AreDigits-OneLine (decimal n) (decimal-AreDigits n)

pub decimal_i64-OneLine : (z : ℤ) → OneLine (decimal_i64 z)
unfolding decimal_i64
decimal_i64-OneLine (pos n) = decimal-OneLine n
decimal_i64-OneLine (negsuc n) = OneLine-cons b'-' (decimal (suc n)) refl (decimal-OneLine (suc n))

parse_i64-digits :
    (n : ℕ) (s : Bytes)
    → AreDigits s
    → parse_unsigned (2 ^ 63 - 1) s ≡ some n
    → parse_i64 s ≡ some (pos n)
unfolding parse_i64
parse_i64-digits n [] d e = let no_digit : none ≡ some n = unfold parse_unsigned in e in cc
parse_i64-digits n (c ∷ s) d e = ground (arith, d.0, e)

parse_i64-minus :
    (n : ℕ) (s : Bytes)
    → AreDigits s
    → parse_unsigned (2 ^ 63) s ≡ some (suc n)
    → parse_i64 (b'-' ∷ s) ≡ some (negsuc n)
unfolding parse_i64
parse_i64-minus n [] d e = let no_digit : none ≡ some (suc n) = unfold parse_unsigned in e in cc
parse_i64-minus n (c ∷ s) d e = ground (arith, d.0, e)

pub parse_i64-decimal_i64 : (z : ℤ) → IsI64 z → parse_i64 (decimal_i64 z) ≡ some z
unfolding decimal_i64
parse_i64-decimal_i64 (pos n) h =
    parse_i64-digits n (decimal n) (decimal-AreDigits n)
      (parse_unsigned-decimal (2 ^ 63 - 1) n (omega arith))
parse_i64-decimal_i64 (negsuc n) h =
    parse_i64-minus n (decimal (suc n)) (decimal-AreDigits (suc n))
      (parse_unsigned-decimal (2 ^ 63) (suc n) (omega arith))

-- A response that can be sent: a message is one line, an integer an `i64`, a length fits one, and
-- the vector for the items of an array can be allocated.
module _ (can_reserve : ℕ → Bool) where
  unfoldable mutual
    pub IsSendable : Response → Type 0
    IsSendable (message msg) = OneLine msg
    IsSendable (error msg) = OneLine msg
    IsSendable (integer z) = IsI64 z
    IsSendable (bulk none) = Unit
    IsSendable (bulk (some text)) = length text < 2 ^ 63
    IsSendable (array items) =
        (count items < 2 ^ 64) × (can_reserve (count items) ≡ true) × AreSendable items

    pub AreSendable : Items → Type 0
    AreSendable nil = Unit
    AreSendable (cons r rs) = IsSendable r × AreSendable rs

get_elem?-append : (xs ys : Bytes) (y : ℕ) → get_elem? (xs ++ (y ∷ ys)) (length xs) ≡ some y
get_elem?-append [] ys y = refl
get_elem?-append (x ∷ xs) ys y = get_elem?-append xs ys y

bulk_from_lem :
    (pre text rest : Bytes)
    → bulk_from (length text) (length pre) (pre ++ (text ++ (crlf ++ rest)))
      ≡ ok (bulk (some text), length pre + length text + 2)
unfolding bulk_from is_char_boundary
bulk_from_lem pre text rest =
    let whole = append_assoc pre text (crlf ++ rest) in
    let at : get_elem? (pre ++ (text ++ (crlf ++ rest))) (length pre + length text) ≡ some 13 =
      rw (← whole, ← length-append pre text) (get_elem?-append (pre ++ text) (10 ∷ rest) 13) in
    let long : length pre + length text + 2 ≤ length (pre ++ (text ++ (crlf ++ rest))) =
      omega
        (arith, length-append pre (text ++ (crlf ++ rest)), length-append text (crlf ++ rest)) in
    let boundary : is_char_boundary (length pre + length text) (pre ++ (text ++ (crlf ++ rest)))
        ≡ true =
      rw (is_char_boundary, at) refl in
    rw (ge→ltb (length (pre ++ (text ++ (crlf ++ rest)))) (length pre + length text + 2) long) (
      rw boundary
        (rw (drop-append pre (text ++ (crlf ++ rest)), take-append text (crlf ++ rest)) refl))

pub parse_bulk_lem :
    (text rest : Bytes)
    → length text < 2 ^ 63
    → parse_bulk (b'$' ∷ (decimal (length text) ++ (crlf ++ (text ++ (crlf ++ rest)))))
      ≡ ok (bulk (some text), length (decimal (length text)) + 3 + length text + 2)
unfolding parse_bulk
parse_bulk_lem text rest h =
    let len = decimal (length text) in
    let pre = b'$' ∷ (len ++ crlf) in
    let start : length pre ≡ length len + 3 = omega (arith, length-append len crlf) in
    let shape : pre ++ (text ++ (crlf ++ rest))
        ≡ b'$' ∷ (len ++ (crlf ++ (text ++ (crlf ++ rest)))) =
      ap (λ (t : Bytes). b'$' ∷ t) (append_assoc len crlf (text ++ (crlf ++ rest))) in
    let back : parse_i64 len ≡ some (pos (length text)) =
      unfold decimal_i64 in parse_i64-decimal_i64 (pos (length text)) h in
    rw
      (
        parse_bulk,
        first_line_lem b'$' len (text ++ (crlf ++ rest)) refl (decimal-OneLine (length text)),
      )
      (rw back (rw (← start, ← shape) (bulk_from_lem pre text rest)))

pub parse_null :
    (rest : Bytes) → parse_bulk (b'$' ∷ (b'-' ∷ (b'1' ∷ (13 ∷ (10 ∷ rest))))) ≡ ok (bulk none, 5)
unfolding parse_bulk first_line find_crlf parse_i64 parse_unsigned
parse_null rest = refl
