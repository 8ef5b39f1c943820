-- ===== src/Wal/VClock/RoundTrip.antt =====
-- `encode_to` and `decode` of src/wal/vclock.rs.
use grumpydb.Prelude.{
  ℕ, suc, ◌+◌, ◌*◌, ◌%◌, ◌^◌, ◌≤◌, ◌<◌, ◌≡◌, refl, ap, ◌∙◌, arith, [], ◌∷◌, ◌++◌, append_assoc,
  append-nil, ok, ge→ltb, length, take, drop, length-append, take-append, drop-append,
}
use grumpydb.Prelude.Bytes.{Bytes, to_le_bytes, length-to_le_bytes, from_le_bytes-to_le_bytes}
use grumpydb.Prelude.Order.{nat_ord}
use grumpydb.Prelude.Map.{insert, IsSorted}
use grumpydb.Prelude.Map.Append.{insert_last}
use grumpydb.Wal.VClock.{
  VectorClock, max_vclock_entries, encoded_len, encode_entries, encode_to, decode_entries, decode,
}

-- Node ids are `u128` and counters `u64`.
abbrev pub IsTyped : VectorClock → Type 0
IsTyped [] = Unit
IsTyped ((node, counter) ∷ vc) = (node < 2 ^ 128) × (counter < 2 ^ 64) × IsTyped vc

module _ (w n : ℕ) (rest : Bytes) where
  take_le : take w (to_le_bytes w n ++ rest) ≡ to_le_bytes w n
  take_le = let h = take-append (to_le_bytes w n) rest in rw length-to_le_bytes at h

  drop_le : drop w (to_le_bytes w n ++ rest) ≡ rest
  drop_le = let h = drop-append (to_le_bytes w n) rest in rw length-to_le_bytes at h

length_bytes : (xs ys : Bytes) → length (xs ++ ys) ≡ length xs + length ys
length_bytes = length-append

length-encode_entries : (vc : VectorClock) → length (encode_entries vc) ≡ length vc * 24
unfolding encode_entries
length-encode_entries [] = omega arith
length-encode_entries ((node, counter) ∷ vc) =
    omega (arith, length_bytes, length-to_le_bytes, length-encode_entries vc)

-- `encoded_len` is the number of bytes that `encode_to` appends.
pub length-encode_to : (vc : VectorClock) → length (encode_to vc) ≡ encoded_len vc
unfolding encode_to encoded_len
length-encode_to vc = omega (arith, length_bytes, length-to_le_bytes, length-encode_entries vc)

-- One round of the loop takes one entry.
decode_entry :
    (n node counter : ℕ) (rest : Bytes) (entries : VectorClock)
    → node < 2 ^ 128
    → counter < 2 ^ 64
    → decode_entries (suc n) (to_le_bytes 16 node ++ (to_le_bytes 8 counter ++ rest)) entries
      ≡ decode_entries n rest (insert node counter entries)
unfolding decode_entries
decode_entry n node counter rest entries hn hc =
    rw
      (
        take_le 16 node (to_le_bytes 8 counter ++ rest),
        drop_le 16 node (to_le_bytes 8 counter ++ rest),
      )
      (rw (take_le 8 counter rest, drop_le 8 counter rest)
        (rw (from_le_bytes-to_le_bytes 16 node hn, from_le_bytes-to_le_bytes 8 counter hc)))

decode_entries-encode :
    (vc entries : VectorClock) (rest : Bytes)
    → IsTyped vc
    → IsSorted (entries ++ vc)
    → decode_entries (length vc) (encode_entries vc ++ rest) entries ≡ entries ++ vc
unfolding encode_entries
decode_entries-encode [] entries rest t s = rw append-nil (unfold decode_entries in refl)
decode_entries-encode ((node, counter) ∷ vc) entries rest t s = simp append_assoc (
    decode_entry (length vc) node counter (encode_entries vc ++ rest) entries t.0 t.1
    ∙ ap (decode_entries (length vc) (encode_entries vc ++ rest))
        (insert_last entries node counter vc s)
    ∙ decode_entries-encode vc (entries ++ ((node, counter) ∷ [])) rest t.2 (rw append_assoc s)
    ∙ append_assoc entries ((node, counter) ∷ []) vc)

-- What `encode_to` writes for a clock of at most 4096 nodes is read back by `decode`, with the
-- number of bytes that it takes, whatever follows it.
pub decode-encode_to :
    (vc : VectorClock) (rest : Bytes)
    → IsTyped vc
    → IsSorted vc
    → length vc ≤ max_vclock_entries
    → decode (encode_to vc ++ rest) ≡ ok (vc, encoded_len vc)
unfolding decode encode_to encoded_len
decode-encode_to vc rest t s h =
    let fits : length vc % 2 ^ 16 ≡ length vc = omega arith in
    let n = length vc in
    let body = encode_entries vc ++ rest in
    let whole = length-append (to_le_bytes 2 n) body in
    let tail = length-append (encode_entries vc) rest in
    rw (fits, append_assoc)
      (rw
        (
          ge→ltb (length (to_le_bytes 2 n ++ body)) 2
              (omega (arith, whole, length-to_le_bytes 2 n)),
          take_le 2 n body,
          drop_le 2 n body,
        )
        (rw (from_le_bytes-to_le_bytes 2 n (omega arith)) (
          rw (ge→ltb max_vclock_entries n h) (
            rw
              (ge→ltb (length (to_le_bytes 2 n ++ body)) (2 + n * 24)
                (omega (arith, whole, tail, length-to_le_bytes 2 n, length-encode_entries vc)))
              (rw (decode_entries-encode vc [] rest t s))))))
