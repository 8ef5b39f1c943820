-- ===== src/Document/Framing.antt =====
-- `Document` of src/document/mod.rs: a key of 16 bytes before the encoded value.
use grumpydb.Prelude.{
  ℕ, ◌+◌, ◌≤◌, ◌≡◌, arith, ◌++◌, append_assoc, ok, err, ◌>>=◌, ltb, ge→ltb, if◌then◌else◌, length,
  length-append, take, drop, take_front, drop_front,
}
use grumpydb.Prelude.Bytes.{Bytes}
use grumpydb.Error.{Outcome, codec, document_too_short}
use grumpydb.Document.Value.{Value}
use grumpydb.Document.Codec.{max_nesting_depth, encode, encoded_size, decode_from_cursor}
use grumpydb.Document.Codec.Limits.{IsTyped, IsWithin, depth}
use grumpydb.Document.Codec.Size.{length-encode}
use grumpydb.Document.Codec.RoundTrip.{decode_from_cursor-encode}

pub record Document : Type 0 where
  pub key : Bytes
  pub value : Value

unfoldable pub encode_document : Document → Bytes
encode_document d = d.key ++ encode d.value

unfoldable pub decode_document : Bytes → Outcome Document
decode_document buf = if ltb (length buf) 16 then err (codec document_too_short) else (do
  (v, rest) ← decode_from_cursor (drop 16 buf)
  ok (record { key = take 16 buf; value = v }))

unfoldable pub document_size : Document → ℕ
document_size d = 16 + encoded_size d.value

-- A document with a key of 16 bytes, and a value of the type, within the limits and nested at most
-- 64 deep, is read back by `decode` from what `encode` writes, whatever follows it, and
-- `encoded_size` is the number of bytes written.
pub decode_document-encode_document :
    (d : Document) (rest : Bytes)
    → length d.key ≡ 16
    → IsTyped d.value
    → IsWithin d.value
    → depth d.value ≤ max_nesting_depth
    → (decode_document (encode_document d ++ rest) ≡ ok d)
      × (length (encode_document d) ≡ document_size d)
unfolding decode_document encode_document document_size
decode_document-encode_document d rest k t w n =
    let body = encode d.value ++ rest in
    (
      rw append_assoc (
          rw (ge→ltb (length (d.key ++ body)) 16 (omega (arith, length-append d.key body))) (
            rw (drop_front 16 0 d.key body (omega arith), take_front 16 d.key body k)
              (rw (decode_from_cursor-encode d.value rest t w n)))),
      omega (arith, length-append d.key (encode d.value), length-encode d.value t),
    )
