-- ===== src/Protocol/Response/RoundTrip.antt =====
-- A response that is serialized is parsed as it was: grumpydb-protocol/src/response.rs.
use grumpydb.Prelude.{
  ℕ, suc, ◌+◌, ◌-◌, ◌^◌, ◌≤◌, ◌<◌, ◌≡◌, refl, subst, ap, arith, Bool, none, some, [], ◌∷◌, ◌++◌,
  append_assoc, ok, gt→leb, length, length-append, drop-append,
}
use grumpydb.Prelude.Bytes.{Bytes}
use grumpydb.Protocol.Decimal.{decimal, parse_unsigned-decimal}
use grumpydb.Protocol.Response.{
  Response, message, error, integer, bulk, array, Items, nil, cons, crlf, decimal_i64, count,
  serialize, serialize_items, parse_simple_string, strip_err, parse_error, parse_integer,
  parse_items, parse_array, parse_fuel, parse,
}
use grumpydb.Protocol.Response.Lines.{
  IsSendable, AreSendable, OneLine, first_line_lem, decimal-OneLine, decimal_i64-OneLine,
  parse_i64-decimal_i64, parse_bulk_lem, parse_null,
}

serialize_pos : (r : Response) → 0 < length (serialize r)
unfolding serialize
serialize_pos (bulk none) = omega arith
serialize_pos (bulk (some text)) = omega arith
serialize_pos _ = omega arith

strip_err_lem : (s : Bytes) → strip_err (b'E' ∷ (b'R' ∷ (b'R' ∷ (b' ' ∷ s)))) ≡ s
unfolding strip_err
strip_err_lem s = refl

error_OneLine : (s : Bytes) → OneLine s → OneLine (b'E' ∷ (b'R' ∷ (b'R' ∷ (b' ' ∷ s))))
error_OneLine [] h = (refl, (refl, (refl, tt)))
error_OneLine (c ∷ s) h = (refl, (refl, (refl, (refl, h))))

module _ (can_reserve : ℕ → Bool) where
  mutual
    unfolding serialize serialize_items count parse_fuel parse_items parse_simple_string parse_error
        parse_integer parse_array IsSendable AreSendable

    parse_one :
        (r : Response)
        → IsSendable can_reserve r
        → (rest : Bytes) (fuel : ℕ) → length (serialize r) ≤ suc fuel
        → parse_fuel can_reserve (suc fuel) (serialize r ++ rest) ≡ ok (r, length (serialize r))
    parse_one (message msg) s rest fuel h = rw (append_assoc msg crlf rest) (
        rw (parse_simple_string, first_line_lem b'+' msg rest refl s)
          (ap (λ n. ok (message msg, n)) (omega (arith, length-append msg crlf))))
    parse_one (error msg) s rest fuel h =
        let err_msg = b'E' ∷ (b'R' ∷ (b'R' ∷ (b' ' ∷ msg))) in
        rw (append_assoc err_msg crlf rest) (
          rw (parse_error, first_line_lem b'-' err_msg rest refl (error_OneLine msg s))
            (ap (λ n. ok (error msg, n)) (omega (arith, length-append msg crlf))))
    parse_one (integer z) s rest fuel h = rw (append_assoc (decimal_i64 z) crlf rest) (
        rw (parse_integer, first_line_lem b':' (decimal_i64 z) rest refl (decimal_i64-OneLine z))
          (rw (parse_i64-decimal_i64 z s)
            (ap (λ n. ok (integer z, n)) (omega (arith, length-append (decimal_i64 z) crlf)))))
    parse_one (bulk none) s rest fuel h = parse_null rest
    parse_one (bulk (some text)) s rest fuel h =
        let len = decimal (length text) in
        rw
          (
            append_assoc (len ++ crlf) (text ++ crlf) rest,
            append_assoc len crlf ((text ++ crlf) ++ rest),
            append_assoc text crlf rest,
          )
          (rw (parse_bulk_lem text rest s) (
            ap (λ n. ok (bulk (some text), n))
              (omega (
                arith,
                length-append (len ++ crlf) (text ++ crlf),
                length-append len crlf,
                length-append text crlf,
              ))))
    parse_one (array items) s rest fuel h =
        let len = decimal (count items) in
        let pre = b'*' ∷ (len ++ crlf) in
        let start : length pre ≡ length len + 3 = omega (arith, length-append len crlf) in
        let shape : pre ++ (serialize_items items ++ rest)
            ≡ b'*' ∷ (len ++ (crlf ++ (serialize_items items ++ rest))) =
          ap (λ (t : Bytes). b'*' ∷ t) (append_assoc len crlf (serialize_items items ++ rest)) in
        let all = parse_all items s.2 pre rest fuel (
          omega (
            arith,
            length-append (len ++ crlf) (serialize_items items),
            length-append len crlf,
            h,
          )) in
        rw
          (
            append_assoc (len ++ crlf) (serialize_items items) rest,
            append_assoc len crlf (serialize_items items ++ rest),
          )
          (rw
            (
              parse_array,
              first_line_lem b'*' len (serialize_items items ++ rest) refl
                  (decimal-OneLine (count items)),
            )
            (rw (parse_unsigned-decimal (2 ^ 64 - 1) (count items) (omega arith), s.1)
              (rw (← start, ← shape)
                (rw all (
                  ap (λ n. ok (array items, n))
                    (omega (
                      arith,
                      length-append (len ++ crlf) (serialize_items items),
                      length-append len crlf,
                    )))))))

    parse_all :
        (items : Items)
        → AreSendable can_reserve items
        → (pre rest : Bytes) (fuel : ℕ) → length (serialize_items items) ≤ fuel
        → parse_items
            (parse_fuel can_reserve fuel)
            (count items)
            (pre ++ (serialize_items items ++ rest))
            (length pre)
          ≡ ok (items, length pre + length (serialize_items items))
    parse_all nil s pre rest fuel h = ap (λ n. ok (nil, n)) (omega arith)
    parse_all (cons r rs) s pre rest fuel h =
        let after = serialize_items rs ++ rest in
        let whole = length-append (serialize r) (serialize_items rs) in
        let e : suc (fuel - 1) ≡ fuel = omega (arith, serialize_pos r, whole) in
        let one : parse_fuel can_reserve fuel (serialize r ++ after)
            ≡ ok (r, length (serialize r)) =
          subst
            (λ (n : ℕ).
              parse_fuel can_reserve n (serialize r ++ after) ≡ ok (r, length (serialize r)))
            e (parse_one r s.0 after (fuel - 1) (omega (arith, whole))) in
        let long : length pre < length (pre ++ (serialize r ++ after)) = omega (
          arith,
          length-append pre (serialize r ++ after),
          length-append (serialize r) after,
          serialize_pos r,
        ) in
        let others = parse_all rs s.1 (pre ++ serialize r) rest fuel (omega (arith, whole)) in
        rw (append_assoc (serialize r) (serialize_items rs) rest) (
          rw (gt→leb (length (pre ++ (serialize r ++ after))) (length pre) long) (
            rw (drop-append pre (serialize r ++ after)) (
              rw one (
                rw (← length-append pre (serialize r), ← append_assoc pre (serialize r) after)
                  (rw others (
                    ap (λ n. ok (cons r rs, n))
                      (omega (arith, whole, length-append pre (serialize r)))))))))

-- A response that can be sent is parsed from its own bytes, whatever follows them, and they are the
-- bytes consumed. A message is one line, an integer and a length fit an `i64`, a count fits a
-- `usize`, and the vector for that many items can be allocated.
pub parse-serialize :
    (can_reserve : ℕ → Bool) (r : Response) (rest : Bytes)
    → IsSendable can_reserve r
    → parse can_reserve (serialize r ++ rest) ≡ ok (r, length (serialize r))
unfolding parse
parse-serialize can_reserve r rest s =
    let whole = length-append (serialize r) rest in
    let e : suc (length (serialize r ++ rest) - 1) ≡ length (serialize r ++ rest) =
      omega (arith, serialize_pos r, whole) in
    subst (λ (n : ℕ). parse_fuel can_reserve n (serialize r ++ rest) ≡ ok (r, length (serialize r)))
      e (parse_one can_reserve r s rest (length (serialize r ++ rest) - 1) (omega (arith, whole)))
