-- ===== src/Document/Codec/Leaves.antt =====
-- The decoders of the values that hold no other, on the bytes that the encoder writes.
use grumpydb.Prelude.{◌^◌, ◌≤◌, ◌<◌, ◌≡◌, refl, true, arith, ◌++◌, ◌∷◌, ℕ, ok, le→leb, length}
use grumpydb.Prelude.Bytes.{Bytes, to_le_bytes}
use grumpydb.Document.Text.{is_utf8}
use grumpydb.Document.Value.{CrdtKind, string, bytes, ref, tombstone, crdt, to_tag, from_tag-to_tag}
use grumpydb.Document.Codec.{
  max_ref_name_len, max_tombstone_vclock_len, max_crdt_payload_len, max_blob_len, u32_bytes,
  read_u8, decode_string, decode_bytes, decode_ref, decode_tombstone, decode_crdt,
}
use grumpydb.Document.Codec.Reads.{
  read_bytes-append, read_string-append, read_u32_bytes, read_hlc-append,
}

module _ (rest : Bytes) where
  pub decode_string-append :
      (s : Bytes)
      → is_utf8 s ≡ true
      → length s ≤ max_blob_len
      → decode_string (u32_bytes (length s) ++ (s ++ rest)) ≡ ok (string s, rest)
  unfolding decode_string
  decode_string-append s u h =
      rw (read_u32_bytes (length s) (s ++ rest) (omega arith))
        (rw (le→leb _ _ h) (rw (read_string-append _ s rest refl u)))

  pub decode_bytes-append :
      (b : Bytes)
      → length b ≤ max_blob_len
      → decode_bytes (u32_bytes (length b) ++ (b ++ rest)) ≡ ok (bytes b, rest)
  unfolding decode_bytes
  decode_bytes-append b h =
      rw (read_u32_bytes (length b) (b ++ rest) (omega arith))
        (rw (le→leb _ _ h) (rw (read_bytes-append _ b rest refl)))

  pub decode_ref-append :
      (c uuid : Bytes)
      → is_utf8 c ≡ true
      → length uuid ≡ 16
      → length c ≤ max_ref_name_len
      → decode_ref (u32_bytes (length c) ++ (c ++ (uuid ++ rest))) ≡ ok (ref c uuid, rest)
  unfolding decode_ref
  decode_ref-append c uuid u e h =
      rw (read_u32_bytes (length c) (c ++ (uuid ++ rest)) (omega arith)) (
        rw (le→leb _ _ h) (
          rw (read_string-append _ c (uuid ++ rest) refl u)
            (rw (read_bytes-append 16 uuid rest e))))

  pub decode_tombstone-append :
      (t : ℕ) (vc : Bytes)
      → t < 2 ^ 64
      → length vc ≤ max_tombstone_vclock_len
      → decode_tombstone (to_le_bytes 8 t ++ (u32_bytes (length vc) ++ (vc ++ rest)))
        ≡ ok (tombstone t vc, rest)
  unfolding decode_tombstone
  decode_tombstone-append t vc f h =
      rw (read_hlc-append t (u32_bytes (length vc) ++ (vc ++ rest)) f) (
        rw (read_u32_bytes (length vc) (vc ++ rest) (omega arith))
          (rw (le→leb _ _ h) (rw (read_bytes-append _ vc rest refl))))

  pub decode_crdt-append :
      (k : CrdtKind) (p : Bytes)
      → length p ≤ max_crdt_payload_len
      → decode_crdt (to_tag k ∷ (u32_bytes (length p) ++ (p ++ rest))) ≡ ok (crdt k p, rest)
  unfolding decode_crdt read_u8
  decode_crdt-append k p h = rw (from_tag-to_tag k) (
      rw (read_u32_bytes (length p) (p ++ rest) (omega arith))
        (rw (le→leb _ _ h) (rw (read_bytes-append _ p rest refl))))
