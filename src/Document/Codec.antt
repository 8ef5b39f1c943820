-- ===== src/Document/Codec.antt =====
-- The binary codec of src/document/codec.rs. `encode v` is what the call appends to its buffer; a
-- cursor is the bytes that are left, and a read returns what it leaves.
pub mod Limits
pub mod Size
pub mod Reads
pub mod Leaves
pub mod RoundTrip
pub mod Nesting
pub mod Sound
pub mod Accepted
use grumpydb.Prelude.{
  ℕ, zero, suc, ◌+◌, ◌*◌, ◌%◌, ◌^◌, Bool, true, false, [], ◌∷◌, ◌++◌, none, some, ok, err, ◌>>=◌,
  ◌>>◌, require, not, ltb, leb, ◌==◌, if◌then◌else◌, length, take, drop,
}
use grumpydb.Prelude.Bytes.{Bytes, to_le_bytes, from_le_bytes}
use grumpydb.Prelude.Int.{to_u64, to_i64}
use grumpydb.Error.{
  Outcome, codec, nesting_depth, string_length, bytes_length, array_length, object_keys, key_length,
  ref_length, vclock_length, payload_length, unknown_kind, unknown_tag, end_of_data, end_in_u32,
  end_in_i64, end_in_f64, end_in_hlc, end_in_bytes, invalid_utf8,
}
use grumpydb.Document.Text.{is_utf8}
use grumpydb.Document.Value.{
  Value, Items, Fields, null, bool, integer, float, string, bytes, array, object, ref, tombstone,
  crdt, no_items, item, no_fields, field, to_tag, from_tag, count_items, count_fields, insert_field,
}

abbrev pub max_ref_name_len : ℕ
max_ref_name_len = 64

abbrev pub max_tombstone_vclock_len : ℕ
max_tombstone_vclock_len = 128 * 1024

abbrev pub max_crdt_payload_len : ℕ
max_crdt_payload_len = 16 * 1024 * 1024

abbrev pub max_nesting_depth : ℕ
max_nesting_depth = 64

abbrev pub max_blob_len : ℕ
max_blob_len = 16 * 1024 * 1024

abbrev pub max_array_len : ℕ
max_array_len = 1_000_000

abbrev pub max_object_keys : ℕ
max_object_keys = 100_000

-- `(n as u32).to_le_bytes()`
abbrev pub u32_bytes : ℕ → Bytes
u32_bytes n = to_le_bytes 4 (n % 2 ^ 32)

-- `u8::from(b)`
abbrev pub bool_byte : Bool → ℕ
bool_byte true = 1
bool_byte false = 0

unfoldable mutual
  pub encode : Value → Bytes
  encode null = 0x00 ∷ []
  encode (bool b) = 0x01 ∷ bool_byte b ∷ []
  encode (integer n) = 0x02 ∷ to_le_bytes 8 (to_u64 n)
  encode (float f) = 0x03 ∷ to_le_bytes 8 f
  encode (string s) = 0x04 ∷ (u32_bytes (length s) ++ s)
  encode (bytes b) = 0x05 ∷ (u32_bytes (length b) ++ b)
  encode (array xs) = 0x06 ∷ (u32_bytes (count_items xs) ++ encode_items xs)
  encode (object fs) = 0x07 ∷ (u32_bytes (count_fields fs) ++ encode_fields fs)
  encode (ref c uuid) = 0x08 ∷ (u32_bytes (length c) ++ (c ++ uuid))
  encode (tombstone t vc) = 0x09 ∷ (to_le_bytes 8 t ++ (u32_bytes (length vc) ++ vc))
  encode (crdt kind p) = 0x0a ∷ to_tag kind ∷ (u32_bytes (length p) ++ p)

  pub encode_items : Items → Bytes
  encode_items no_items = []
  encode_items (item v xs) = encode v ++ encode_items xs

  pub encode_fields : Fields → Bytes
  encode_fields no_fields = []
  encode_fields (field k v fs) = u32_bytes (length k) ++ (k ++ (encode v ++ encode_fields fs))

unfoldable mutual
  pub encoded_size : Value → ℕ
  encoded_size null = 1
  encoded_size (bool b) = 2
  encoded_size (integer n) = 9
  encoded_size (float f) = 9
  encoded_size (string s) = 1 + 4 + length s
  encoded_size (bytes b) = 1 + 4 + length b
  encoded_size (array xs) = 1 + 4 + items_size xs
  encoded_size (object fs) = 1 + 4 + fields_size fs
  encoded_size (ref c uuid) = 1 + 4 + length c + 16
  encoded_size (tombstone t vc) = 1 + 8 + 4 + length vc
  encoded_size (crdt kind p) = 1 + 1 + 4 + length p

  pub items_size : Items → ℕ
  items_size no_items = 0
  items_size (item v xs) = encoded_size v + items_size xs

  pub fields_size : Fields → ℕ
  fields_size no_fields = 0
  fields_size (field k v fs) = 4 + length k + encoded_size v + fields_size fs

-- A read of an `A` off the cursor.
abbrev pub Read {ℓ} : Type ℓ → Type ℓ
Read A = Bytes → Outcome (A × Bytes)

unfoldable pub read_u8 : Read ℕ
read_u8 [] = err (codec end_of_data)
read_u8 (b ∷ c) = ok (b, c)

unfoldable pub read_u32_le : Read ℕ
read_u32_le c =
    if ltb (length c) 4 then err (codec end_in_u32) else ok (from_le_bytes (take 4 c), drop 4 c)

unfoldable pub read_i64_le : Read ℕ
read_i64_le c =
    if ltb (length c) 8 then err (codec end_in_i64) else ok (from_le_bytes (take 8 c), drop 8 c)

unfoldable pub read_f64_le : Read ℕ
read_f64_le c =
    if ltb (length c) 8 then err (codec end_in_f64) else ok (from_le_bytes (take 8 c), drop 8 c)

-- The first eight bytes of a tombstone.
unfoldable pub read_hlc : Read ℕ
read_hlc c =
    if ltb (length c) 8 then err (codec end_in_hlc) else ok (from_le_bytes (take 8 c), drop 8 c)

unfoldable pub read_bytes : ℕ → Read Bytes
read_bytes len c =
    if ltb (length c) len
    then err (codec (end_in_bytes len (length c)))
    else ok (take len c, drop len c)

unfoldable pub read_string : ℕ → Read Bytes
read_string len c = do
  (b, c1) ← read_bytes len c
  require (is_utf8 b) (codec invalid_utf8)
  ok (b, c1)

unfoldable pub decode_string : Read Value
decode_string c = do
  (len, c1) ← read_u32_le c
  require (leb len max_blob_len) (codec (string_length len))
  (s, c2) ← read_string len c1
  ok (string s, c2)

unfoldable pub decode_bytes : Read Value
decode_bytes c = do
  (len, c1) ← read_u32_le c
  require (leb len max_blob_len) (codec (bytes_length len))
  (b, c2) ← read_bytes len c1
  ok (bytes b, c2)

unfoldable pub decode_ref : Read Value
decode_ref c = do
  (len, c1) ← read_u32_le c
  require (leb len max_ref_name_len) (codec (ref_length len))
  (name, c2) ← read_string len c1
  (uuid, c3) ← read_bytes 16 c2
  ok (ref name uuid, c3)

unfoldable pub decode_tombstone : Read Value
decode_tombstone c = do
  (t, c1) ← read_hlc c
  (len, c2) ← read_u32_le c1
  require (leb len max_tombstone_vclock_len) (codec (vclock_length len))
  (vc, c3) ← read_bytes len c2
  ok (tombstone t vc, c3)

unfoldable pub decode_crdt : Read Value
decode_crdt c = do
  (tag, c1) ← read_u8 c
  kind ← elim (from_tag tag) [ none ↦ err (codec (unknown_kind tag)) | some k ↦ ok k ]
  (len, c2) ← read_u32_le c1
  require (leb len max_crdt_payload_len) (codec (payload_length len))
  (p, c3) ← read_bytes len c2
  ok (crdt kind p, c3)

-- The loops over the elements of an array and the entries of an object. `nested` is the call of
-- `decode_recursive` one level down.
unfoldable pub decode_items : Read Value → ℕ → Read Items
decode_items nested zero c = ok (no_items, c)
decode_items nested (suc n) c = do
  (v, c1) ← nested c
  (xs, c2) ← decode_items nested n c1
  ok (item v xs, c2)

unfoldable pub decode_fields : Read Value → ℕ → Fields → Read Fields
decode_fields nested zero m c = ok (m, c)
decode_fields nested (suc n) m c = do
  (len, c1) ← read_u32_le c
  require (leb len max_blob_len) (codec (key_length len))
  (key, c2) ← read_string len c1
  (v, c3) ← nested c2
  decode_fields nested n (insert_field key v m) c3

unfoldable pub decode_array : Read Value → Read Value
decode_array nested c = do
  (count, c1) ← read_u32_le c
  require (leb count max_array_len) (codec (array_length count))
  (xs, c2) ← decode_items nested count c1
  ok (array xs, c2)

unfoldable pub decode_object : Read Value → Read Value
decode_object nested c = do
  (count, c1) ← read_u32_le c
  require (leb count max_object_keys) (codec (object_keys count))
  (fs, c2) ← decode_fields nested count no_fields c1
  ok (object fs, c2)

-- The `match` on the type tag.
unfoldable pub decode_tagged : Read Value → ℕ → Read Value
decode_tagged nested tag c =
    if tag == 0x00
    then ok (null, c)
    else if tag == 0x01
    then (do (b, c1) ← read_u8 c; ok (bool (not (b == 0)), c1))
    else if tag == 0x02
    then (do (n, c1) ← read_i64_le c; ok (integer (to_i64 n), c1))
    else if tag == 0x03
    then (do (f, c1) ← read_f64_le c; ok (float f, c1))
    else if tag == 0x04
    then decode_string c
    else if tag == 0x05
    then decode_bytes c
    else if tag == 0x06
    then decode_array nested c
    else if tag == 0x07
    then decode_object nested c
    else if tag == 0x08
    then decode_ref c
    else if tag == 0x09
    then decode_tombstone c
    else if tag == 0x0a
    then decode_crdt c
    else err (codec (unknown_tag tag))

-- The first argument is the number of levels that are left, `max_nesting_depth + 1 - depth`, so that
-- the test `depth > max_nesting_depth` is the test for 0.
unfoldable pub decode_recursive : ℕ → Read Value
decode_recursive zero c = err (codec nesting_depth)
decode_recursive (suc levels) c = do
  (tag, c1) ← read_u8 c
  decode_tagged (decode_recursive levels) tag c1

unfoldable pub decode_from_cursor : Read Value
decode_from_cursor = decode_recursive (suc max_nesting_depth)

unfoldable pub decode : Bytes → Outcome Value
decode bs = do (v, c) ← decode_from_cursor bs; ok v
