-- ===== src/Wal/Legacy/RoundTrip.antt =====
-- What `from_bytes_v1` of src/wal/record.rs accepts, and that it reads `encode_v1_record`.
use grumpydb.Prelude.{
  ℕ, suc, ◌+◌, ◌%◌, ◌^◌, ◌≤◌, ◌<◌, ◌≡◌, refl, arith, true, [], ◌∷◌, ◌++◌, append_assoc, ok, eq→==,
  le→leb, ge→ltb, length, slice, drop, length-append, take_front, drop_front,
}
use grumpydb.Prelude.Bytes.{
  Bytes, to_le_bytes, from_le_bytes, number_at, past_le, number_front, length-to_le_bytes,
}
use grumpydb.Wal.Record.{WalOpType, to_u8, is_valid, covered, compute_checksum_v2, payload_bytes}
use grumpydb.Wal.Record.RoundTrip.{from_u8-to_u8}
use grumpydb.Wal.Legacy.{
  wal_record_header_size_v1, covered_v1, compute_v1_checksum, encode_v1_record, upgrade,
  from_bytes_v1,
}

module _ (len lsn tx page : ℕ) (op : WalOpType) (bytes rest : Bytes) where
  abbrev front : Bytes
  front =
      to_le_bytes 4 len
      ++ (to_le_bytes 8 lsn
          ++ (to_le_bytes 8 tx
              ++ (to_u8 op ∷ []
                  ++ (to_le_bytes 4 page ++ (to_le_bytes 4 (length bytes) ++ (bytes ++ rest))))))

  past_tx :
      (k i : ℕ)
      → k ≡ 20 + i
      → drop k front
        ≡ drop i (
            to_u8 op ∷ []
            ++ (to_le_bytes 4 page ++ (to_le_bytes 4 (length bytes) ++ (bytes ++ rest))))
  past_tx k i e = rw (past_le 4 len k (16 + i) _ (omega arith)) (
      rw (past_le 8 lsn (16 + i) (8 + i) _ (omega arith))
        (rw (past_le 8 tx (8 + i) i _ (omega arith))))

  past_counts : (i : ℕ) → drop (29 + i) front ≡ drop i (bytes ++ rest)
  past_counts i = rw (past_tx (29 + i) (suc (8 + i)) (omega arith)) (
      rw (past_le 4 page (8 + i) (4 + i) _ (omega arith))
        (rw (past_le 4 (length bytes) (4 + i) i _ (omega arith))))

  fields_at :
      len < 2 ^ 32
      → lsn < 2 ^ 64
      → tx < 2 ^ 64
      → page < 2 ^ 32
      → length bytes < 2 ^ 32
      → (number_at 4 0 front ≡ len)
        × (number_at 8 4 front ≡ lsn)
        × (number_at 8 12 front ≡ tx)
        × (number_at 1 20 front ≡ to_u8 op)
        × (number_at 4 21 front ≡ page)
        × (number_at 4 25 front ≡ length bytes)
  unfolding from_le_bytes
  fields_at hl hs ht hp hb = (
    number_front 4 len _ hl,
    rw (past_le 4 len 4 0 _ (omega arith)) (number_front 8 lsn _ hs),
    rw (past_le 4 len 12 8 _ (omega arith))
        (rw (past_le 8 lsn 8 0 _ (omega arith)) (number_front 8 tx _ ht)),
    rw (past_tx 20 0 (omega arith)) (omega arith),
    rw (past_tx 21 1 (omega arith)) (number_front 4 page _ hp),
    rw (past_tx 25 5 (omega arith))
        (rw (past_le 4 page 4 0 _ (omega arith)) (number_front 4 (length bytes) _ hb)),
  )

upgrade-is_valid :
    (crc : Bytes → ℕ) (lsn tx page : ℕ) (op : WalOpType) (bytes : Bytes)
    → is_valid crc (upgrade crc lsn tx op page bytes) ≡ true
unfolding is_valid upgrade compute_checksum_v2 covered payload_bytes
upgrade-is_valid crc lsn tx page op bytes = eq→== _ _ refl

length_bytes : (xs ys : Bytes) → length (xs ++ ys) ≡ length xs + length ys
length_bytes xs ys = length-append xs ys

-- What is read from a buffer whose fields are known.
from_bytes_v1_fields :
    (crc : Bytes → ℕ) (buf : Bytes) (len lsn tx page : ℕ) (op : WalOpType) (bytes : Bytes)
    → (number_at 4 0 buf ≡ len)
      × (number_at 8 4 buf ≡ lsn)
      × (number_at 8 12 buf ≡ tx)
      × (number_at 1 20 buf ≡ to_u8 op)
      × (number_at 4 21 buf ≡ page)
      × (number_at 4 25 buf ≡ length bytes)
    → slice 29 (length bytes) buf ≡ bytes
    → number_at 4 (29 + length bytes) buf ≡ compute_v1_checksum crc len lsn tx op page bytes
    → len ≡ 33 + length bytes
    → len ≤ length buf
    → from_bytes_v1 crc buf ≡ ok (upgrade crc lsn tx op page bytes, len)
unfolding from_bytes_v1
from_bytes_v1_fields crc buf len lsn tx page op bytes fs d c e h =
    let (at_len, at_lsn, at_tx, at_op, at_page, at_count) = fs in
    rw (at_len, at_lsn, at_tx, at_op, at_page, at_count, from_u8-to_u8 op, d, c)
      (rw
        (
          le→leb 33 (length buf) (omega (arith, h, e)),
          ge→ltb len 33 (omega (arith, e)),
          ge→ltb (length buf) len h,
        )
        (rw (le→leb (29 + length bytes + 4) len (omega (arith, e))) (
          rw (
            eq→== (compute_v1_checksum crc len lsn tx op page bytes)
              (compute_v1_checksum crc len lsn tx op page bytes) refl))))

encoded :
    (crc : Bytes → ℕ) (lsn tx page : ℕ) (op : WalOpType) (bytes rest : Bytes)
    → 33 + length bytes < 2 ^ 32
    → encode_v1_record crc lsn tx op page bytes ++ rest
      ≡ front
          (33 + length bytes)
          lsn
          tx
          page
          op
          bytes
          (to_le_bytes 4 (compute_v1_checksum crc (33 + length bytes) lsn tx op page bytes) ++ rest)
unfolding encode_v1_record covered_v1
encoded crc lsn tx page op bytes rest hl =
    let len_fits : (33 + length bytes) % 2 ^ 32 ≡ 33 + length bytes = omega (arith, hl) in
    let bytes_fit : length bytes % 2 ^ 32 ≡ length bytes = omega (arith, hl) in
    rw (len_fits, bytes_fit) (simp append_assoc)

-- A version 1 record of fields of their types, and of a length that fits 32 bits, is read back from
-- what `encode_v1_record` writes, whatever follows it, as the version 2 record that stands for it,
-- with its own length, and that record has the checksum of its own fields. The checksum function
-- gives 32 bits.
pub from_bytes_v1-encode_v1_record :
    (crc : Bytes → ℕ) (lsn tx page : ℕ) (op : WalOpType) (bytes rest : Bytes)
    → ((bs : Bytes) → crc bs < 2 ^ 32)
    → lsn < 2 ^ 64
    → tx < 2 ^ 64
    → page < 2 ^ 32
    → wal_record_header_size_v1 + length bytes < 2 ^ 32
    → (from_bytes_v1 crc (encode_v1_record crc lsn tx op page bytes ++ rest)
        ≡ ok (upgrade crc lsn tx op page bytes, wal_record_header_size_v1 + length bytes))
      × (is_valid crc (upgrade crc lsn tx op page bytes) ≡ true)
from_bytes_v1-encode_v1_record crc lsn tx page op bytes rest fits hs ht hp hl =
    let len = 33 + length bytes in
    let sum = compute_v1_checksum crc len lsn tx op page bytes in
    let more = to_le_bytes 4 sum ++ rest in
    let buf = front len lsn tx page op bytes more in
    let whole : encode_v1_record crc lsn tx op page bytes ++ rest ≡ buf =
      encoded crc lsn tx page op bytes rest hl in
    let tail = past_counts len lsn tx page op bytes more in
    (
      rw whole (
          from_bytes_v1_fields crc buf len lsn tx page op bytes
            (fields_at len lsn tx page op bytes more hl hs ht hp (omega (arith, hl)))
            (rw (tail 0) (take_front (length bytes) bytes more refl))
            (rw (tail (length bytes), drop_front (length bytes) 0 bytes more (omega arith))
              (number_front 4 sum rest (unfold compute_v1_checksum in fits _)))
            refl (omega (arith, length_bytes, length-to_le_bytes))),
      upgrade-is_valid crc lsn tx page op bytes,
    )
