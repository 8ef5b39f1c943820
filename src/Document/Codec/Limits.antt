-- ===== src/Document/Codec/Limits.antt =====
-- What Rust's types guarantee of a `Value`, and the limits of src/document/codec.rs on lengths and
-- nesting.
use grumpydb.Prelude.{ℕ, suc, ◌^◌, ◌≤◌, ◌<◌, ◌≡◌, true, max, length}
use grumpydb.Prelude.Bytes.{Bytes}
use grumpydb.Prelude.Int.{IsI64}
use grumpydb.Prelude.Order.{Ordering, cmp_bytes}
use grumpydb.Document.Text.{is_utf8}
use grumpydb.Document.Value.{
  Value, Items, Fields, null, bool, integer, float, string, bytes, array, object, ref, tombstone,
  crdt, no_items, item, no_fields, field, count_items, count_fields,
}
use grumpydb.Document.Codec.{
  max_ref_name_len, max_tombstone_vclock_len, max_crdt_payload_len, max_blob_len, max_array_len,
  max_object_keys,
}

-- Every key of the entries is above `k`.
abbrev pub KeysAbove : Bytes → Fields → Type 0
KeysAbove k no_fields = Unit
KeysAbove k (field j v fs) = (cmp_bytes k j ≡ Ordering.lt) × KeysAbove k fs

-- A `String` is UTF-8, a `Uuid` has 16 bytes, an `f64` and a `u64` have 64 bits, and the keys of a
-- `BTreeMap` ascend.
abbrev mutual
  pub IsTyped : Value → Type 0
  IsTyped null = Unit
  IsTyped (bool b) = Unit
  IsTyped (integer n) = IsI64 n
  IsTyped (float f) = f < 2 ^ 64
  IsTyped (string s) = is_utf8 s ≡ true
  IsTyped (bytes b) = Unit
  IsTyped (array xs) = AreTyped xs
  IsTyped (object fs) = AreTypedFields fs
  IsTyped (ref c uuid) = (is_utf8 c ≡ true) × (length uuid ≡ 16)
  IsTyped (tombstone t vc) = t < 2 ^ 64
  IsTyped (crdt kind p) = Unit

  pub AreTyped : Items → Type 0
  AreTyped no_items = Unit
  AreTyped (item v xs) = IsTyped v × AreTyped xs

  pub AreTypedFields : Fields → Type 0
  AreTypedFields no_fields = Unit
  AreTypedFields (field k v fs) =
      (is_utf8 k ≡ true) × IsTyped v × KeysAbove k fs × AreTypedFields fs

-- Within the limits on lengths and counts.
abbrev mutual
  pub IsWithin : Value → Type 0
  IsWithin null = Unit
  IsWithin (bool b) = Unit
  IsWithin (integer n) = Unit
  IsWithin (float f) = Unit
  IsWithin (string s) = length s ≤ max_blob_len
  IsWithin (bytes b) = length b ≤ max_blob_len
  IsWithin (array xs) = (count_items xs ≤ max_array_len) × AreWithin xs
  IsWithin (object fs) = (count_fields fs ≤ max_object_keys) × AreWithinFields fs
  IsWithin (ref c uuid) = length c ≤ max_ref_name_len
  IsWithin (tombstone t vc) = length vc ≤ max_tombstone_vclock_len
  IsWithin (crdt kind p) = length p ≤ max_crdt_payload_len

  pub AreWithin : Items → Type 0
  AreWithin no_items = Unit
  AreWithin (item v xs) = IsWithin v × AreWithin xs

  pub AreWithinFields : Fields → Type 0
  AreWithinFields no_fields = Unit
  AreWithinFields (field k v fs) = (length k ≤ max_blob_len) × IsWithin v × AreWithinFields fs

-- How deep arrays and objects are nested; 0 for a value that holds no other.
abbrev mutual
  pub depth : Value → ℕ
  depth (array xs) = depth_items xs
  depth (object fs) = depth_fields fs
  depth _ = 0

  pub depth_items : Items → ℕ
  depth_items no_items = 0
  depth_items (item v xs) = max (suc (depth v)) (depth_items xs)

  pub depth_fields : Fields → ℕ
  depth_fields no_fields = 0
  depth_fields (field k v fs) = max (suc (depth v)) (depth_fields fs)
