-- ===== src/Wal/Record/Integrity.antt =====
-- What `from_bytes_v2` of src/wal/record.rs accepts, and what the constructors build.
use grumpydb.Prelude.{
  ℕ, ◌/◌, ◌^◌, ◌≤◌, ◌<◌, ◌≡◌, refl, arith, true, false, [], ◌++◌, some, ok, err, ◌==◌,
  if◌then◌else◌, leb, ltb, lt→ltb, Bool-cases, inl, inr, take, take-take, length-take, length,
  length-append, take-append, drop-append,
}
use native.Mathlib.Nat.{mod-eq_of_lt}
use grumpydb.Prelude.Bytes.{Bytes, to_le_bytes, number_at, number_front}
use grumpydb.Error.{wal_corrupted}
use grumpydb.Wal.VClock.{VectorClock}
use grumpydb.Wal.Record.{
  WalRecord, page_write, is_page_write, encoded_v2_len, covered, payload_bytes, compute_checksum_v2,
  sealed, new_page_write, from_bytes_v2, page_images, to_bytes,
}
use grumpydb.Wal.Record.RoundTrip.{
  IsTyped, IsShaped, IsSealed, length-to_bytes, from_bytes_v2-is_valid,
}

-- Bytes that end within a record.
torn :
    (crc : Bytes → ℕ) (r : WalRecord) (k : ℕ)
    → IsShaped r
    → k < length (to_bytes r)
    → from_bytes_v2 crc (take k (to_bytes r)) ≡ err (wal_corrupted 0)
unfolding from_bytes_v2
torn crc r k s h =
    let got = length-take k (to_bytes r) (omega arith) in
    elim (Bool-cases (leb 4 k)) [
      | inr short ↦ rw (got, short) refl
      | inl long ↦
          let past : 4 ≤ k = ground (arith, long) in
          let len : number_at 4 0 (take k (to_bytes r)) ≡ r.record_len =
            rw (take-take 4 k (to_bytes r) past) (
              unfold to_bytes in
              number_front 4 r.record_len (covered r ++ to_le_bytes 4 r.checksum)
                (omega (arith, s.len_is, s.len_fits))) in
          let cut : ltb k r.record_len ≡ true =
            lt→ltb k r.record_len (omega (arith, h, length-to_bytes r, s.len_is)) in
          rw (got, long) (rw (len, cut) (ground arith))
    ]

-- The bytes of a record, cut off anywhere, are refused. Whole, with whatever behind them, they are
-- read as that record if its checksum is the one of its other fields, and refused with its LSN
-- otherwise, as after damage that the checksum function tells. The fields are of their types, with at
-- most 4096 nodes in the clock; the length is that of the fields and fits 32 bits; and only a page
-- write has a page and a payload.
pub from_bytes_v2-damaged :
    (crc : Bytes → ℕ) (r : WalRecord) (rest : Bytes) (k : ℕ)
    → IsTyped r
    → IsShaped r
    → k < length (to_bytes r)
    → (from_bytes_v2 crc (take k (to_bytes r)) ≡ err (wal_corrupted 0))
      × (from_bytes_v2 crc (to_bytes r ++ rest) ≡ (
          if crc (covered r) == r.checksum
          then ok (r, r.record_len)
          else err (wal_corrupted r.lsn)))
from_bytes_v2-damaged crc r rest k t s h = (torn crc r k s h, from_bytes_v2-is_valid crc r rest t s)

-- Each constructor seals its record: the length and the checksum are those of its fields.
pub sealed-IsSealed :
    (crc : Bytes → ℕ) (r : WalRecord)
    → encoded_v2_len r < 2 ^ 32
    → (is_page_write r.op_type ≡ false → r.page_id ≡ 0)
    → (is_page_write r.op_type ≡ false → r.payload ≡ [])
    → IsSealed crc (sealed crc r)
unfolding sealed encoded_v2_len compute_checksum_v2 covered payload_bytes
sealed-IsSealed crc r h np nd = record {
  shaped = record { len_is = mod-eq_of_lt h; len_fits = h; no_page = np; no_payload = nd };
  checksum_is = refl;
}

-- A record that `page_write` builds from two images of one length is sealed, if it fits a 32-bit
-- length, and `page_images` gives the after-image first and the before-image second.
pub page_images-new_page_write :
    (crc : Bytes → ℕ) (lsn tx origin hlc page : ℕ) (vc : VectorClock) (before after : Bytes)
    → length after ≡ length before
    → encoded_v2_len (new_page_write crc lsn tx origin hlc vc page before after) < 2 ^ 32
    → IsSealed crc (new_page_write crc lsn tx origin hlc vc page before after)
      × (page_images (new_page_write crc lsn tx origin hlc vc page before after)
          ≡ some (after, before))
unfolding new_page_write encoded_v2_len page_images
page_images-new_page_write crc lsn tx origin hlc page vc before after e h =
    let r : WalRecord = record {
      record_len = 0;
      lsn = lsn;
      tx_id = tx;
      op_type = page_write;
      origin_node_id = origin;
      hlc = hlc;
      vclock = vc;
      page_id = page;
      payload = after ++ before;
      checksum = 0;
    } in
    let half : length (after ++ before) / 2 ≡ length after =
      omega (arith, length-append after before) in
    (sealed-IsSealed crc r h (λ w. cc) (λ w. cc), rw (half, take-append, drop-append) refl)
