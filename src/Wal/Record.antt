-- ===== src/Wal/Record.antt =====
-- The records of the write-ahead log: src/wal/record.rs, format 2. The CRC-32 of the crate
-- `crc32fast` over the bytes that a hasher is fed is a parameter, `crc`.
pub mod Fields
pub mod RoundTrip
pub mod Integrity
use grumpydb.Prelude.{
  ℕ, ◌+◌, ◌-◌, ◌/◌, ◌%◌, ◌^◌, Bool, true, false, ◌||◌, not, Option, none, some, [], ◌∷◌, ◌++◌, ok,
  err, ◌>>=◌, ◌>>◌, require, Result, ltb, leb, ◌==◌, if◌then◌else◌, length, take, drop, slice,
}
use grumpydb.Prelude.Bytes.{Bytes, to_le_bytes, number_at}
use grumpydb.Error.{Outcome, wal_corrupted, vector_clock}
use grumpydb.Wal.VClock
use grumpydb.Wal.VClock.{VectorClock}

pub data WalOpType : Type 0 where
  page_write commit rollback checkpoint : WalOpType

unfoldable pub from_u8 : ℕ → Option WalOpType
from_u8 v =
    if v == 1
    then some page_write
    else if v == 2
    then some commit
    else if v == 3
    then some rollback
    else if v == 4
    then some checkpoint
    else none

-- `op as u8`
unfoldable pub to_u8 : WalOpType → ℕ
to_u8 page_write = 1
to_u8 commit = 2
to_u8 rollback = 3
to_u8 checkpoint = 4

abbrev pub is_page_write : WalOpType → Bool
is_page_write page_write = true
is_page_write _ = false

abbrev pub wal_record_header_size_v2 : ℕ
wal_record_header_size_v2 = 49

pub record WalRecord : Type 0 where
  pub record_len : ℕ
  pub lsn : ℕ
  pub tx_id : ℕ
  pub op_type : WalOpType
  pub origin_node_id : ℕ
  pub hlc : ℕ
  pub vclock : VectorClock
  pub page_id : ℕ
  pub payload : Bytes
  pub checksum : ℕ

unfoldable pub encoded_v2_len : WalRecord → ℕ
encoded_v2_len r =
    let payload = if is_page_write r.op_type then 4 + 4 + length r.payload else 0 in
    wal_record_header_size_v2 + VClock.encoded_len r.vclock + payload

-- The part that only a `PageWrite` has.
unfoldable pub payload_bytes : WalRecord → Bytes
payload_bytes r =
    if is_page_write r.op_type
    then to_le_bytes 4 r.page_id ++ (to_le_bytes 4 (length r.payload % 2 ^ 32) ++ r.payload)
    else []

-- What the checksum is taken over: all but the length and the checksum.
unfoldable pub covered : WalRecord → Bytes
covered r =
    to_le_bytes 8 r.lsn
    ++ (to_le_bytes 8 r.tx_id
        ++ (to_u8 r.op_type ∷ []
            ++ (to_le_bytes 16 r.origin_node_id
                ++ (to_le_bytes 8 r.hlc ++ (VClock.encode_to r.vclock ++ payload_bytes r)))))

unfoldable pub to_bytes : WalRecord → Bytes
unfolding covered
to_bytes r = to_le_bytes 4 r.record_len ++ (covered r ++ to_le_bytes 4 r.checksum)

-- The page id, the data and the cursor behind the op-specific payload.
unfoldable pub read_payload : WalOpType → ℕ → ℕ → ℕ → Bytes → Outcome (ℕ × Bytes × ℕ)
read_payload page_write lsn cursor payload_end buf = do
  require (leb (cursor + 8) payload_end) (wal_corrupted lsn)
  let data_len = number_at 4 (cursor + 4) buf
  require (leb (cursor + 8 + data_len) payload_end) (wal_corrupted lsn)
  ok (number_at 4 cursor buf, slice (cursor + 8) data_len buf, cursor + 8 + data_len)
read_payload op lsn cursor payload_end buf = ok (0, [], cursor)

abbrev pub some_or : {A : Type 0} → Option A → ℕ → Outcome A
some_or none lsn = err (wal_corrupted lsn)
some_or (some a) lsn = ok a

-- `map_err(|e| GrumpyError::VectorClock(e.to_string()))`
abbrev pub vclock_error : {A : Type 0} → Result A VClock.VClockError → Outcome A
vclock_error (ok a) = ok a
vclock_error (err e) = err (vector_clock e)

module _ (crc : Bytes → ℕ) where
  unfoldable pub compute_checksum_v2 : WalRecord → ℕ
  compute_checksum_v2 r = crc (covered r)

  unfoldable pub is_valid : WalRecord → Bool
  unfolding compute_checksum_v2
  is_valid r = compute_checksum_v2 r == r.checksum

  -- The last two steps of each constructor.
  unfoldable pub sealed : WalRecord → WalRecord
  unfolding compute_checksum_v2
  sealed r =
      let r' = record r { record_len = encoded_v2_len r % 2 ^ 32 } in
      record r' { checksum = compute_checksum_v2 r' }

  unfoldable pub new_page_write : ℕ → ℕ → ℕ → ℕ → VectorClock → ℕ → Bytes → Bytes → WalRecord
  unfolding sealed
  new_page_write lsn tx origin hlc vc page before after = sealed (record {
    record_len = 0;
    lsn = lsn;
    tx_id = tx;
    op_type = page_write;
    origin_node_id = origin;
    hlc = hlc;
    vclock = vc;
    page_id = page;
    payload = after ++ before;
    checksum = 0;
  })

  unfoldable pub new_commit : ℕ → ℕ → ℕ → ℕ → VectorClock → WalRecord
  unfolding sealed
  new_commit lsn tx origin hlc vc = sealed (record {
    record_len = 0;
    lsn = lsn;
    tx_id = tx;
    op_type = commit;
    origin_node_id = origin;
    hlc = hlc;
    vclock = vc;
    page_id = 0;
    payload = [];
    checksum = 0;
  })

  unfoldable pub new_checkpoint : ℕ → ℕ → ℕ → VectorClock → WalRecord
  unfolding sealed
  new_checkpoint lsn origin hlc vc = sealed (record {
    record_len = 0;
    lsn = lsn;
    tx_id = 0;
    op_type = checkpoint;
    origin_node_id = origin;
    hlc = hlc;
    vclock = vc;
    page_id = 0;
    payload = [];
    checksum = 0;
  })

  -- The record and the number of bytes that it takes.
  unfoldable pub from_bytes_v2 : Bytes → Outcome (WalRecord × ℕ)
  from_bytes_v2 buf = do
    require (leb 4 (length buf)) (wal_corrupted 0)
    let len = number_at 4 0 buf
    require (not (ltb len wal_record_header_size_v2 || ltb (length buf) len)) (wal_corrupted 0)
    let lsn = number_at 8 4 buf
    op ← some_or (from_u8 (number_at 1 20 buf)) lsn
    let payload_end = len - 4
    (vc, used) ← vclock_error (VClock.decode (slice 45 (payload_end - 45) buf))
    (page, bytes, cursor) ← read_payload op lsn (45 + used) payload_end buf
    require (cursor == payload_end) (wal_corrupted lsn)
    let r : WalRecord = record {
      record_len = len;
      lsn = lsn;
      tx_id = number_at 8 12 buf;
      op_type = op;
      origin_node_id = number_at 16 21 buf;
      hlc = number_at 8 37 buf;
      vclock = vc;
      page_id = page;
      payload = bytes;
      checksum = number_at 4 cursor buf;
    }
    require (is_valid r) (wal_corrupted lsn)
    ok (r, len)

-- `(after, before)` of a `PageWrite`
unfoldable pub page_images : WalRecord → Option (Bytes × Bytes)
page_images r =
    if is_page_write r.op_type
    then (let half = length r.payload / 2 in some (take half r.payload, drop half r.payload))
    else none
