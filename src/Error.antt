-- ===== src/Error.antt =====
-- `GrumpyError` of src/error.rs. A text that an error carries is its bytes; the formatted texts of
-- `Codec`, `InvalidName` and `VectorClock` are values that hold what they print.
use grumpydb.Prelude.{ℕ, Result}
use grumpydb.Prelude.Bytes.{Bytes}
use grumpydb.Wal.VClock.{VClockError}

-- the messages of src/document/codec.rs and src/page/slotted.rs
pub data CodecError : Type 0 where
  nesting_depth : CodecError
  string_length bytes_length array_length object_keys key_length ref_length : ℕ → CodecError
  vclock_length payload_length unknown_kind unknown_tag slot_length : ℕ → CodecError
  end_of_data end_in_u32 end_in_i64 end_in_f64 end_in_hlc : CodecError
  end_in_bytes : ℕ → ℕ → CodecError
  invalid_utf8 document_too_short : CodecError

-- the messages of src/naming.rs
pub data NameError : Type 0 where
  empty_name reserved_name : NameError
  name_too_long : ℕ → NameError
  invalid_character : Bytes → NameError

pub data GrumpyError : Type 0 where
  io : Bytes → GrumpyError
  page_not_found page_full wal_corrupted : ℕ → GrumpyError
  duplicate_key key_not_found : Bytes → GrumpyError
  checksum_mismatch : ℕ → ℕ → ℕ → GrumpyError
  buffer_pool_exhausted : GrumpyError
  document_too_large : ℕ → ℕ → GrumpyError
  codec : CodecError → GrumpyError
  not_indexable cyclic_reference : GrumpyError
  index_not_found index_already_exists collection_not_found : Bytes → GrumpyError
  invalid_name : NameError → GrumpyError
  invalid_argument client_not_found database_not_found : Bytes → GrumpyError
  corruption invalid_var_key hlc : Bytes → GrumpyError
  vector_clock : VClockError → GrumpyError
  invalid_page_offset : ℕ → ℕ → GrumpyError
  unsupported_wal_version : ℕ → GrumpyError

-- `crate::error::Result<T>`
abbrev pub Outcome {ℓ} : Type ℓ → Type ℓ
Outcome A = Result A GrumpyError
