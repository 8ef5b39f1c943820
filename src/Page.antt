-- ===== src/Page.antt =====
-- Pages: src/page/mod.rs. A page is a list of 8192 bytes. The CRC-32 of the crate `crc32fast` is a
-- parameter, `crc`.
pub mod Header
pub mod Slotted
pub mod Manager
pub mod Overflow
use grumpydb.Prelude.{
  ℕ, ◌+◌, ◌-◌, ◌*◌, Option, none, some, [], ◌∷◌, ◌++◌, Result, ok, err, ◌==◌, if◌then◌else◌, slice,
  take, drop, replicate,
}
use grumpydb.Prelude.Bytes.{Bytes, to_le_bytes, number_at}
use grumpydb.Prelude.Splice.{splice}
use grumpydb.Error.{Outcome, checksum_mismatch}

abbrev pub page_size : ℕ
page_size = 8192

abbrev pub page_header_size : ℕ
page_header_size = 32

abbrev pub slot_size : ℕ
slot_size = 4

pub data PageType : Type 0 where
  free_page data_page b_tree_internal b_tree_leaf overflow_page free_list : PageType

unfoldable pub from_u8 : ℕ → Option PageType
from_u8 v =
    if v == 0
    then some free_page
    else if v == 1
    then some data_page
    else if v == 2
    then some b_tree_internal
    else if v == 3
    then some b_tree_leaf
    else if v == 4
    then some overflow_page
    else if v == 5
    then some free_list
    else none

-- `page_type as u8`
unfoldable pub to_u8 : PageType → ℕ
to_u8 free_page = 0
to_u8 data_page = 1
to_u8 b_tree_internal = 2
to_u8 b_tree_leaf = 3
to_u8 overflow_page = 4
to_u8 free_list = 5

pub record PageHeader : Type 0 where
  pub page_id : ℕ
  pub page_type : PageType
  pub flags : ℕ
  pub num_slots : ℕ
  pub free_space_start : ℕ
  pub free_space_end : ℕ
  pub next_page_id : ℕ
  pub prev_page_id : ℕ
  pub lsn : ℕ
  pub checksum : ℕ

unfoldable pub new_header : ℕ → PageType → PageHeader
new_header id type = record {
  page_id = id;
  page_type = type;
  flags = 0;
  num_slots = 0;
  free_space_start = page_header_size;
  free_space_end = page_size;
  next_page_id = 0;
  prev_page_id = 0;
  lsn = 0;
  checksum = 0;
}

-- The writes to `buf[0..32]`, in order, side by side.
unfoldable pub write_to : PageHeader → Bytes → Bytes
write_to h buf =
    to_le_bytes 4 h.page_id
    ++ (to_u8 h.page_type ∷ []
        ++ (to_le_bytes 1 h.flags
            ++ (to_le_bytes 2 h.num_slots
                ++ (to_le_bytes 2 h.free_space_start
                    ++ (to_le_bytes 2 h.free_space_end
                        ++ (to_le_bytes 4 h.next_page_id
                            ++ (to_le_bytes 4 h.prev_page_id
                                ++ (to_le_bytes 8 h.lsn
                                    ++ (to_le_bytes 4 h.checksum ++ drop 32 buf)))))))))

-- `PageType::from_u8(b).unwrap_or(PageType::Free)`
abbrev type_or_free : Option PageType → PageType
type_or_free none = free_page
type_or_free (some t) = t

unfoldable pub read_from : Bytes → PageHeader
read_from buf = record {
  page_id = number_at 4 0 buf;
  page_type = type_or_free (from_u8 (number_at 1 4 buf));
  flags = number_at 1 5 buf;
  num_slots = number_at 2 6 buf;
  free_space_start = number_at 2 8 buf;
  free_space_end = number_at 2 10 buf;
  next_page_id = number_at 4 12 buf;
  prev_page_id = number_at 4 16 buf;
  lsn = number_at 8 20 buf;
  checksum = number_at 4 28 buf;
}

module _ (crc : Bytes → ℕ) where
  unfoldable pub compute_checksum : Bytes → ℕ
  compute_checksum buf = crc (take 28 buf ++ drop 32 buf)

  unfoldable pub stamp_checksum : Bytes → Bytes
  unfolding compute_checksum
  stamp_checksum buf = splice 28 (to_le_bytes 4 (compute_checksum buf)) buf

  unfoldable pub verify_checksum : Bytes → ℕ → Outcome (Unit {0})
  unfolding compute_checksum
  verify_checksum buf id =
      let stored = number_at 4 28 buf in
      let computed = compute_checksum buf in
      if stored == 0
      then ok tt
      else if stored == computed
      then ok tt
      else err (checksum_mismatch id stored computed)
