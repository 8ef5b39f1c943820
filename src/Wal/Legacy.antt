-- ===== src/Wal/Legacy.antt =====
-- Version 1 records and the log's header page: `from_bytes_v1`, `encode_v1_record`,
-- `compute_v1_checksum`, `build_wal_header` and `parse_wal_header` of src/wal/record.rs.
pub mod RoundTrip
use grumpydb.Prelude.{
  ℕ, suc, ◌+◌, ◌-◌, ◌%◌, ◌^◌, ◌≤◌, ◌<◌, ◌≡◌, refl, arith, Bool, true, false, not, ◌||◌, some, none,
  [], ◌∷◌, ◌++◌, append_assoc, ok, err, ◌>>=◌, ◌>>◌, require, ltb, leb, ◌==◌, if◌then◌else◌, eq→==,
  le→leb, gt→leb, ge→ltb, length, slice, replicate, drop, take, length-append, take_front,
  drop_front,
}
use grumpydb.Prelude.Bytes.{
  Bytes, to_le_bytes, from_le_bytes, number_at, past_le, number_front, length-to_le_bytes,
  from_le_bytes-to_le_bytes,
}
use grumpydb.Prelude.Order.{cmp_bytes}
use grumpydb.Prelude.Map.{is_eq}
use grumpydb.Error.{Outcome, wal_corrupted, unsupported_wal_version}
use grumpydb.Page.{page_size}
use grumpydb.Wal.VClock.{singleton}
use grumpydb.Wal.Record.{
  WalOpType, from_u8, to_u8, some_or, WalRecord, encoded_v2_len, compute_checksum_v2, sealed,
}

abbrev pub wal_record_header_size_v1 : ℕ
wal_record_header_size_v1 = 33

abbrev pub nil_node_id : ℕ
nil_node_id = 0

-- What the checksum of a version 1 record is taken over.
unfoldable pub covered_v1 : ℕ → ℕ → ℕ → WalOpType → ℕ → Bytes → Bytes
covered_v1 len lsn tx op page bytes =
    to_le_bytes 4 len
    ++ (to_le_bytes 8 lsn
        ++ (to_le_bytes 8 tx
            ++ (to_u8 op ∷ []
                ++ (to_le_bytes 4 page ++ (to_le_bytes 4 (length bytes % 2 ^ 32) ++ bytes)))))

module _ (crc : Bytes → ℕ) where
  unfoldable pub compute_v1_checksum : ℕ → ℕ → ℕ → WalOpType → ℕ → Bytes → ℕ
  compute_v1_checksum len lsn tx op page bytes = crc (covered_v1 len lsn tx op page bytes)

  unfoldable pub encode_v1_record : ℕ → ℕ → WalOpType → ℕ → Bytes → Bytes
  unfolding compute_v1_checksum covered_v1
  encode_v1_record lsn tx op page bytes =
      let len = (wal_record_header_size_v1 + length bytes) % 2 ^ 32 in
      covered_v1 len lsn tx op page bytes
      ++ to_le_bytes 4 (compute_v1_checksum len lsn tx op page bytes)

  -- The version 2 record that stands for a version 1 record.
  unfoldable pub upgrade : ℕ → ℕ → WalOpType → ℕ → Bytes → WalRecord
  unfolding sealed
  upgrade lsn tx op page bytes = sealed crc (record {
    record_len = 0;
    lsn = lsn;
    tx_id = tx;
    op_type = op;
    origin_node_id = nil_node_id;
    hlc = lsn;
    vclock = singleton nil_node_id lsn;
    page_id = page;
    payload = bytes;
    checksum = 0;
  })

  unfoldable pub from_bytes_v1 : Bytes → Outcome (WalRecord × ℕ)
  from_bytes_v1 buf = do
    require (leb wal_record_header_size_v1 (length buf)) (wal_corrupted 0)
    let len = number_at 4 0 buf
    require (not (ltb len wal_record_header_size_v1 || ltb (length buf) len)) (wal_corrupted 0)
    let lsn = number_at 8 4 buf
    let tx = number_at 8 12 buf
    op ← some_or (from_u8 (number_at 1 20 buf)) lsn
    let page = number_at 4 21 buf
    let data_len = number_at 4 25 buf
    require (leb (29 + data_len + 4) len) (wal_corrupted lsn)
    let bytes = slice 29 data_len buf
    let checksum = number_at 4 (29 + data_len) buf
    require (compute_v1_checksum len lsn tx op page bytes == checksum) (wal_corrupted lsn)
    ok (upgrade lsn tx op page bytes, len)

-- "GRUMPWAL", and the newest version
abbrev pub wal_magic : Bytes
wal_magic = 71 ∷ 82 ∷ 85 ∷ 77 ∷ 80 ∷ 87 ∷ 65 ∷ 76 ∷ []

abbrev pub wal_version_current : ℕ
wal_version_current = 2

unfoldable pub build_wal_header : ℕ → Bytes
build_wal_header version = wal_magic ++ (to_le_bytes 2 version ++ replicate (page_size - 10) 0)

unfoldable pub parse_wal_header : Bytes → Outcome ℕ
parse_wal_header hdr = do
  require (leb 10 (length hdr)) (wal_corrupted 0)
  require (is_eq (cmp_bytes (take 8 hdr) wal_magic)) (wal_corrupted 0)
  let version = number_at 2 8 hdr
  require (leb version wal_version_current) (unsupported_wal_version version)
  ok version

-- The header page of a version that is supported is read back, and that of a newer version of 16 bits
-- is refused by its number.
pub parse_wal_header-build_wal_header :
    (version : ℕ)
    → version < 2 ^ 16
    → parse_wal_header (build_wal_header version) ≡ (
        if leb version wal_version_current
        then ok version
        else err (unsupported_wal_version version))
unfolding parse_wal_header build_wal_header
parse_wal_header-build_wal_header version h =
    let tail : Bytes = replicate (page_size - 10) 0 in
    let long : length (wal_magic ++ (to_le_bytes 2 version ++ tail)) ≡ 10 + length tail =
      omega (arith, length-append (to_le_bytes 2 version) tail, length-to_le_bytes 2 version) in
    rw
      (
        le→leb 10 (length (wal_magic ++ (to_le_bytes 2 version ++ tail))) (omega (arith, long)),
        number_front 2 version tail h,
      )
      (ground arith)
