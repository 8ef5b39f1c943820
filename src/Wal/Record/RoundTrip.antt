-- ===== src/Wal/Record/RoundTrip.antt =====
-- `to_bytes` and `from_bytes_v2` of src/wal/record.rs.
use grumpydb.Prelude.{
  ℕ, ◌+◌, ◌-◌, ◌%◌, ◌^◌, ◌≤◌, ◌<◌, ◌≡◌, refl, sym, ◌∙◌, arith, eq→==, true, false, [], ◌++◌,
  append_assoc, some, ok, err, ◌==◌, le→leb, ge→ltb, length, drop, slice, Bool-cases, inl, inr,
  if◌then◌else◌, take_front, drop_front, length-append,
}
use grumpydb.Prelude.Bytes.{
  Bytes, to_le_bytes, length-to_le_bytes, number_at, past_le, number_front,
}
use grumpydb.Error.{Outcome, wal_corrupted}
use native.Mathlib.Nat.{add-zero}
use grumpydb.Prelude.Order.{nat_ord}
use grumpydb.Prelude.Map.{IsSorted}
use grumpydb.Wal.VClock
use grumpydb.Wal.VClock.{max_vclock_entries}
use grumpydb.Wal.VClock.RoundTrip
use grumpydb.Wal.VClock.RoundTrip.{length-encode_to, decode-encode_to}
use grumpydb.Wal.Record.{
  WalRecord, WalOpType, page_write, is_page_write, from_u8, to_u8, encoded_v2_len, payload_bytes,
  covered, to_bytes, read_payload, compute_checksum_v2, is_valid, from_bytes_v2,
}
use grumpydb.Wal.Record.Fields.{
  header, lsn_at, len_at, tx_at, op_at, origin_at, hlc_at, past_header, drop-drop,
}

-- The fields are of their Rust types, and the clock has at most 4096 nodes, in ascending order.
pub record IsTyped (r : WalRecord) : Type 0 where
  pub lsn_fits : r.lsn < 2 ^ 64
  pub tx_fits : r.tx_id < 2 ^ 64
  pub origin_fits : r.origin_node_id < 2 ^ 128
  pub hlc_fits : r.hlc < 2 ^ 64
  pub page_fits : r.page_id < 2 ^ 32
  pub checksum_fits : r.checksum < 2 ^ 32
  pub clock_typed : RoundTrip.IsTyped r.vclock
  pub clock_sorted : IsSorted r.vclock
  pub clock_small : length r.vclock ≤ max_vclock_entries

-- The record has the length of its fields, small enough for 32 bits, and only a page write has a
-- page and a payload.
pub record IsShaped (r : WalRecord) : Type 0 where
  pub len_is : r.record_len ≡ encoded_v2_len r
  pub len_fits : encoded_v2_len r < 2 ^ 32
  pub no_page : is_page_write r.op_type ≡ false → r.page_id ≡ 0
  pub no_payload : is_page_write r.op_type ≡ false → r.payload ≡ []

-- The record is as the constructors leave it: its checksum is that of its fields.
pub record IsSealed (crc : Bytes → ℕ) (r : WalRecord) : Type 0 where
  pub shaped : IsShaped r
  pub checksum_is : r.checksum ≡ compute_checksum_v2 crc r

length_bytes : (xs ys : Bytes) → length (xs ++ ys) ≡ length xs + length ys
length_bytes = length-append

abbrev payload_len : WalRecord → ℕ
payload_len r = if is_page_write r.op_type then 4 + 4 + length r.payload else 0

length-payload_bytes : (r : WalRecord) → length (payload_bytes r) ≡ payload_len r
unfolding payload_bytes
length-payload_bytes r = elim (Bool-cases (is_page_write r.op_type)) [
  | inl w ↦ rw w (omega (arith, length_bytes, length-to_le_bytes))
  | inr w ↦ rw w
]

-- The bytes of a record are its header, its clock, its payload and its checksum.
pub to_bytes-header :
    (r : WalRecord) (rest : Bytes)
    → to_bytes r ++ rest
      ≡ header r
          (VClock.encode_to r.vclock ++ (payload_bytes r ++ (to_le_bytes 4 r.checksum ++ rest)))
unfolding to_bytes
to_bytes-header r rest = simp append_assoc

-- `to_bytes` writes as many bytes as `encoded_v2_len` says, whatever the record.
pub length-to_bytes : (r : WalRecord) → length (to_bytes r) ≡ encoded_v2_len r
unfolding to_bytes encoded_v2_len
length-to_bytes r =
    omega
      (arith, length_bytes, length-to_le_bytes, length-encode_to r.vclock, length-payload_bytes r)

-- The payload of a `PageWrite` is read off the cursor that it stands at.
read_page :
    (page lsn cursor end : ℕ) (d buf tail : Bytes)
    → page < 2 ^ 32
    → length d < 2 ^ 32
    → drop cursor buf ≡ to_le_bytes 4 page ++ (to_le_bytes 4 (length d) ++ (d ++ tail))
    → end ≡ cursor + (4 + 4 + length d)
    → read_payload page_write lsn cursor end buf ≡ ok (page, d, end)
unfolding read_payload
read_page page lsn cursor end d buf tail hp hd at e =
    let at4 : drop (cursor + 4) buf ≡ to_le_bytes 4 (length d) ++ (d ++ tail) =
      drop-drop cursor 4 buf ∙ rw at (past_le 4 page 4 0 _ (omega arith)) in
    let at8 : drop (cursor + 8) buf ≡ d ++ tail =
      drop-drop cursor 8 buf
      ∙ rw at
          (rw (past_le 4 page 8 4 _ (omega arith)) (past_le 4 (length d) 4 0 _ (omega arith))) in
    let len : number_at 4 (cursor + 4) buf ≡ length d = rw at4 (number_front 4 (length d) _ hd) in
    let stop : cursor + 8 + length d ≡ end = omega arith in
    rw (le→leb (cursor + 8) end (omega arith), len, stop)
      (rw (le→leb end end (omega arith), at, at8)
        (rw (
          number_front 4 page (to_le_bytes 4 (length d) ++ (d ++ tail)) hp,
          take_front (length d) d tail refl,
        )))

payload_bytes-write :
    (r : WalRecord) (tail : Bytes)
    → is_page_write r.op_type ≡ true
    → length r.payload < 2 ^ 32
    → payload_bytes r ++ tail
      ≡ to_le_bytes 4 r.page_id ++ (to_le_bytes 4 (length r.payload) ++ (r.payload ++ tail))
unfolding payload_bytes
payload_bytes-write r tail w h =
    let fits : length r.payload % 2 ^ 32 ≡ length r.payload = omega arith in
    rw (w, fits) (simp append_assoc)

read_nothing :
    (r : WalRecord) (cursor end : ℕ)
    → is_page_write r.op_type ≡ false
    → (is_page_write r.op_type ≡ false → r.page_id ≡ 0)
    → (is_page_write r.op_type ≡ false → r.payload ≡ [])
    → end ≡ cursor + payload_len r
    → ◌≡◌ {A = Outcome (ℕ × Bytes × ℕ)} (ok (0, [], cursor)) (ok (r.page_id, r.payload, end))
read_nothing r cursor end w np nd e =
    let stop : end ≡ cursor = rw w at e ∙ add-zero cursor in rw (np w, nd w, stop)

read_payload-bytes :
    (r : WalRecord) (op : WalOpType) (cursor end : ℕ) (buf tail : Bytes)
    → r.op_type ≡ op
    → r.page_id < 2 ^ 32
    → length r.payload < 2 ^ 32
    → (is_page_write r.op_type ≡ false → r.page_id ≡ 0)
    → (is_page_write r.op_type ≡ false → r.payload ≡ [])
    → drop cursor buf ≡ payload_bytes r ++ tail
    → end ≡ cursor + payload_len r
    → read_payload op r.lsn cursor end buf ≡ ok (r.page_id, r.payload, end)
read_payload-bytes r page_write cursor end buf tail o hp hd np nd at e =
    let w : is_page_write r.op_type ≡ true = rw o in
    read_page r.page_id r.lsn cursor end r.payload buf tail hp hd
      (at ∙ payload_bytes-write r tail w hd) (rw w at e)
read_payload-bytes r _ cursor end buf tail o hp hd np nd at e =
    unfold read_payload in read_nothing r cursor end (rw o) np nd e

pub from_u8-to_u8 : (op : WalOpType) → from_u8 (to_u8 op) ≡ some op
unfolding from_u8 to_u8
from_u8-to_u8 page_write = refl
from_u8-to_u8 _ = refl

module _ (r : WalRecord) (rest : Bytes) (t : IsTyped r) where
  abbrev clock_and_payload : Bytes
  clock_and_payload = VClock.encode_to r.vclock ++ payload_bytes r

  abbrev body : Bytes
  body = VClock.encode_to r.vclock ++ (payload_bytes r ++ (to_le_bytes 4 r.checksum ++ rest))

  -- The slice that the clock is decoded from.
  clock_slice :
      (n : ℕ)
      → n ≡ VClock.encoded_len r.vclock + payload_len r
      → VClock.decode (slice 45 n (header r body)) ≡ ok (r.vclock, VClock.encoded_len r.vclock)
  clock_slice n e = rw (past_header r body 0) (
      rw
        (← append_assoc (VClock.encode_to r.vclock) (payload_bytes r)
          (to_le_bytes 4 r.checksum ++ rest))
        (rw
          (take_front n clock_and_payload (to_le_bytes 4 r.checksum ++ rest)
            (omega (arith, length_bytes, length-encode_to r.vclock, length-payload_bytes r)))
          (decode-encode_to r.vclock (payload_bytes r) t.clock_typed t.clock_sorted t.clock_small)))

  payload_at :
      drop (45 + VClock.encoded_len r.vclock) (header r body)
      ≡ payload_bytes r ++ (to_le_bytes 4 r.checksum ++ rest)
  payload_at =
      past_header r body (VClock.encoded_len r.vclock)
      ∙ drop_front (VClock.encoded_len r.vclock) 0 (VClock.encode_to r.vclock) _
          (omega (arith, length-encode_to r.vclock))

  checksum_at :
      (end : ℕ)
      → end ≡ 45 + VClock.encoded_len r.vclock + payload_len r
      → number_at 4 end (header r body) ≡ r.checksum
  checksum_at end e =
      rw
        (
          e,
          drop-drop (45 + VClock.encoded_len r.vclock) (payload_len r) (header r body),
          payload_at,
        )
        (rw
          (drop_front (payload_len r) 0 (payload_bytes r) (to_le_bytes 4 r.checksum ++ rest)
            (omega (arith, length-payload_bytes r)))
          (number_front 4 r.checksum rest t.checksum_fits))

payload_small : (r : WalRecord) → IsShaped r → length r.payload < 2 ^ 32
unfolding encoded_v2_len
payload_small r s = elim (Bool-cases (is_page_write r.op_type)) [
  | inl w ↦
      let len : payload_len r ≡ 4 + 4 + length r.payload = rw w in omega (arith, len, s.len_fits)
  | inr w ↦ rw (s.no_payload w) (omega arith)
]

-- The bytes of a record are accepted if its checksum is that of its fields.
pub from_bytes_v2-is_valid :
    (crc : Bytes → ℕ) (r : WalRecord) (rest : Bytes)
    → IsTyped r
    → IsShaped r
    → from_bytes_v2 crc (to_bytes r ++ rest)
      ≡ (if crc (covered r) == r.checksum then ok (r, r.record_len) else err (wal_corrupted r.lsn))
unfolding from_bytes_v2 is_valid compute_checksum_v2
from_bytes_v2-is_valid crc r rest t s =
    let len : r.record_len ≡ 49 + VClock.encoded_len r.vclock + payload_len r =
      s.len_is ∙ unfold encoded_v2_len in refl in
    let long : length (header r (body r rest t)) ≡ r.record_len + length rest =
      rw to_bytes-header at (length-append (to_bytes r) rest)
      ∙ omega (arith, length-to_bytes r, s.len_is) in
    let fits : r.record_len < 2 ^ 32 = omega (arith, s.len_fits, s.len_is) in
    let small = payload_small r s in
    let X = body r rest t in
    let end = r.record_len - 4 in
    let ends : end ≡ 45 + VClock.encoded_len r.vclock + payload_len r = omega arith in
    rw (to_bytes-header r rest) (
      rw (le→leb 4 (length (header r X)) (omega arith), len_at r X fits)
        (rw
          (
            ge→ltb r.record_len 49 (omega arith),
            ge→ltb (length (header r X)) r.record_len (omega arith),
          )
          (rw (op_at r X, from_u8-to_u8 r.op_type, lsn_at r X t.lsn_fits)
            (rw (clock_slice r rest t (end - 45) (omega arith)) (
              rw
                (read_payload-bytes r r.op_type (45 + VClock.encoded_len r.vclock) end (header r X)
                  (to_le_bytes 4 r.checksum ++ rest) refl t.page_fits small s.no_page s.no_payload
                  (payload_at r rest t) ends)
                (rw
                  (
                    tx_at r X t.tx_fits,
                    origin_at r X t.origin_fits,
                    hlc_at r X t.hlc_fits,
                    checksum_at r rest t end ends,
                  )
                  (rw (eq→== end end refl) (ground arith))))))))

-- A record that is sealed for the checksum function, with fields of their types and at most 4096
-- nodes in its clock, is read back from the bytes of `to_bytes` as it was, with its length, whatever
-- follows it in the log.
pub from_bytes_v2-to_bytes :
    (crc : Bytes → ℕ) (r : WalRecord) (rest : Bytes)
    → IsTyped r
    → IsSealed crc r
    → from_bytes_v2 crc (to_bytes r ++ rest) ≡ ok (r, r.record_len)
from_bytes_v2-to_bytes crc r rest t s =
    let sum : crc (covered r) ≡ r.checksum =
      sym (s.checksum_is ∙ unfold compute_checksum_v2 in refl) in
    rw (from_bytes_v2-is_valid crc r rest t s.shaped, eq→== (crc (covered r)) r.checksum sum) refl
