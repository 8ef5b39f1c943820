-- ===== src/Replication/Frame.antt =====
-- The frames of grumpydb-replication/src/frame.rs and their codec. A UUID is its 16 bytes, and CRC-32
-- is a parameter. `usize` sums do not overflow, and a slice of 16 bytes is a UUID, so that
-- `InvalidLengthPrefix` is never returned.
pub mod RoundTrip
pub mod Stream
use grumpydb.Prelude.{
  ℕ, ◌+◌, ◌-◌, ◌%◌, ◌^◌, Bool, not, Option, none, some, [], ◌∷◌, ◌++◌, Result, ok, err, ◌>>=◌, ◌>>◌,
  require, ltb, leb, ◌==◌, if◌then◌else◌, length, drop, slice,
}
use grumpydb.Prelude.Bytes.{Bytes, to_le_bytes, number_at}
use grumpydb.Document.Text.{is_utf8}

abbrev pub max_frame_payload : ℕ
max_frame_payload = 2 ^ 20

abbrev pub frame_header_size : ℕ
frame_header_size = 5

abbrev pub frame_trailer_size : ℕ
frame_trailer_size = 4

pub data FrameType : Type 0 where
  hello_type hello_ack_type subscribe_type wal_record_type : FrameType
  ack_type heartbeat_type bye_type : FrameType

pub data FrameError : Type 0 where
  payload_too_large unknown_frame_type : ℕ → FrameError
  truncated_payload : FrameType → ℕ → ℕ → FrameError
  trailing_bytes : ℕ → FrameError
  crc_mismatch invalid_utf8 : FrameError
  invalid_length_prefix : Bytes → FrameError

unfoldable pub frame_type_from_u8 : ℕ → Result FrameType FrameError
frame_type_from_u8 b =
    if b == 0x01
    then ok hello_type
    else if b == 0x02
    then ok hello_ack_type
    else if b == 0x03
    then ok subscribe_type
    else if b == 0x04
    then ok wal_record_type
    else if b == 0x05
    then ok ack_type
    else if b == 0x06
    then ok heartbeat_type
    else if b == 0x07
    then ok bye_type
    else err (unknown_frame_type b)

unfoldable pub as_u8 : FrameType → ℕ
as_u8 hello_type = 0x01
as_u8 hello_ack_type = 0x02
as_u8 subscribe_type = 0x03
as_u8 wal_record_type = 0x04
as_u8 ack_type = 0x05
as_u8 heartbeat_type = 0x06
as_u8 bye_type = 0x07

-- Each constructor has the fields of the payload's struct, in order.
pub data Frame : Type 0 where
  hello : ℕ → Bytes → Bytes → Bytes → Frame
  hello_ack : ℕ → Bytes → ℕ → Frame
  subscribe : Bytes → ℕ → Frame
  wal_record : Bytes → Frame
  ack : Bytes → ℕ → Frame
  heartbeat : ℕ → Frame
  bye : Bytes → Frame

unfoldable pub frame_type : Frame → FrameType
frame_type (hello v c n t) = hello_type
frame_type (hello_ack v n h) = hello_ack_type
frame_type (subscribe n h) = subscribe_type
frame_type (wal_record b) = wal_record_type
frame_type (ack n h) = ack_type
frame_type (heartbeat h) = heartbeat_type
frame_type (bye r) = bye_type

-- A text is written with its length as a `u16`, which wraps.
unfoldable pub encode_payload : Frame → Bytes
encode_payload (hello v c n t) =
    to_le_bytes 2 v ++ (c ++ (n ++ (to_le_bytes 2 (length t % 2 ^ 16) ++ t)))
encode_payload (hello_ack v n h) = to_le_bytes 2 v ++ (n ++ to_le_bytes 8 h)
encode_payload (subscribe n h) = n ++ to_le_bytes 8 h
encode_payload (wal_record b) = b
encode_payload (ack n h) = n ++ to_le_bytes 8 h
encode_payload (heartbeat h) = to_le_bytes 8 h
encode_payload (bye r) = to_le_bytes 2 (length r % 2 ^ 16) ++ r

-- `payload.len() < need`, an error
unfoldable pub at_least : FrameType → ℕ → Bytes → Result (Unit {0}) FrameError
at_least kind need p = require (leb need (length p)) (truncated_payload kind need (length p))

-- `payload.len() != fixed`, one of two errors
unfoldable pub exactly : FrameType → ℕ → Bytes → Result (Unit {0}) FrameError
unfolding at_least
exactly kind fixed p = do
  at_least kind fixed p
  require (length p == fixed) (trailing_bytes (length p - fixed))

-- `std::str::from_utf8(..)`
unfoldable pub as_text : Bytes → Result Bytes FrameError
as_text b = do require (is_utf8 b) invalid_utf8; ok b

unfoldable pub decode_hello : Bytes → Result Frame FrameError
unfolding at_least exactly as_text
decode_hello p = do
  at_least hello_type 36 p
  let token_len = number_at 2 34 p
  exactly hello_type (36 + token_len) p
  token ← as_text (slice 36 token_len p)
  ok (hello (number_at 2 0 p) (slice 2 16 p) (slice 18 16 p) token)

unfoldable pub decode_bye : Bytes → Result Frame FrameError
unfolding at_least exactly as_text
decode_bye p = do
  at_least bye_type 2 p
  let reason_len = number_at 2 0 p
  exactly bye_type (2 + reason_len) p
  reason ← as_text (slice 2 reason_len p)
  ok (bye reason)

unfoldable pub decode_payload : FrameType → Bytes → Result Frame FrameError
unfolding exactly decode_hello decode_bye
decode_payload hello_type p = decode_hello p
decode_payload hello_ack_type p = do
  exactly hello_ack_type 26 p
  ok (hello_ack (number_at 2 0 p) (slice 2 16 p) (number_at 8 18 p))
decode_payload subscribe_type p = do
  exactly subscribe_type 24 p
  ok (subscribe (slice 0 16 p) (number_at 8 16 p))
decode_payload wal_record_type p = ok (wal_record p)
decode_payload ack_type p = do exactly ack_type 24 p; ok (ack (slice 0 16 p) (number_at 8 16 p))
decode_payload heartbeat_type p = do exactly heartbeat_type 8 p; ok (heartbeat (number_at 8 0 p))
decode_payload bye_type p = decode_bye p

module _ (crc : Bytes → ℕ) where
  unfoldable pub encode_frame : Frame → Result Bytes FrameError
  encode_frame f = do
    let payload = encode_payload f
    let kind = as_u8 (frame_type f)
    require (leb (length payload) max_frame_payload) (payload_too_large (length payload % 2 ^ 32))
    ok (
        to_le_bytes 4 (length payload)
        ++ (kind ∷ (payload ++ to_le_bytes 4 (crc (kind ∷ payload)))))

  -- The part behind the test that the whole frame is there.
  unfoldable pub decode_body : ℕ → Bytes → Result (Option (Frame × ℕ)) FrameError
  decode_body payload_len buf = do
    kind ← frame_type_from_u8 (number_at 1 4 buf)
    let payload = slice frame_header_size payload_len buf
    let on_wire = number_at 4 (frame_header_size + payload_len) buf
    require (crc (as_u8 kind ∷ payload) == on_wire) crc_mismatch
    f ← decode_payload kind payload
    ok (some (f, frame_header_size + payload_len + frame_trailer_size))

  -- The frame and the bytes that it takes; `none` where more bytes are needed.
  unfoldable pub decode_frame : Bytes → Result (Option (Frame × ℕ)) FrameError
  unfolding decode_body
  decode_frame buf =
      let len = number_at 4 0 buf in
      let rest =
        if ltb (length buf) (frame_header_size + len + frame_trailer_size)
        then ok none
        else decode_body len buf in
      if ltb (length buf) frame_header_size
      then ok none
      else require (leb len max_frame_payload) (payload_too_large len) >> rest
