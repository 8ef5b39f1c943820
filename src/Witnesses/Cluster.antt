-- ===== src/Witnesses/Cluster.antt =====
-- Frames, the idempotent applier and roles on concrete values.
use grumpydb.Prelude.{
  ℕ, ◌+◌, ◌%◌, ◌^◌, ◌<◌, ◌≡◌, refl, arith, none, some, [], ◌∷◌, ◌++◌, Result, ok, err, ltb,
  if◌then◌else◌, length, take, replicate,
}
use grumpydb.Prelude.Bytes.{Bytes, to_le_bytes, from_le_bytes}
use grumpydb.Prelude.Order.{bytes_ord}
use grumpydb.Prelude.Map
use grumpydb.Wal.Applied.{default_set, new_record, observe}
use grumpydb.Replication.Frame.{
  heartbeat, encode_frame, decode_frame, encode_payload, as_u8, frame_type,
}
use grumpydb.Replication.Frame.Stream.{decode_frame-encode_frame}
use grumpydb.Replication.Idempotent.{
  Applier, ApplyError, io, peek_origin_hlc, apply, apply-apply, apply_refused-apply,
}

abbrev by_length : Bytes → ℕ
by_length bs = length bs % 2 ^ 32

by_length-fits : (bs : Bytes) → by_length bs < 2 ^ 32
by_length-fits bs = omega arith

abbrev beat : Bytes
beat = 8 ∷ 0 ∷ 0 ∷ 0 ∷ 6 ∷ 77 ∷ 0 ∷ 0 ∷ 0 ∷ 0 ∷ 0 ∷ 0 ∷ 0 ∷ 9 ∷ 0 ∷ 0 ∷ 0 ∷ []

beat-is : encode_frame by_length (heartbeat 77) ≡ ok beat
unfolding encode_frame encode_payload as_u8 frame_type to_le_bytes
beat-is = refl

-- The first 16 of its 17 bytes.
decode_frame-encode_frame_example :
    decode_frame by_length (take 16 (beat ++ (1 ∷ [])))
    ≡ (if ltb 16 (length beat) then ok none else ok (some (heartbeat 77, length beat)))
decode_frame-encode_frame_example =
    decode_frame-encode_frame by_length (heartbeat 77) beat (1 ∷ []) 16 by_length-fits (omega arith)
      beat-is (omega arith)

-- A record of origin 5 and clock value 9, as far as its clock value.
abbrev raw : Bytes
raw = replicate 21 0 ++ (5 ∷ replicate 15 0 ++ (9 ∷ replicate 7 0))

peeked : peek_origin_hlc raw ≡ some (5, 9)
unfolding peek_origin_hlc from_le_bytes
peeked = refl

abbrev text : ℕ → Bytes
text n = n ∷ []

-- An inner applier that counts its calls, and one that refuses them.
abbrev counting : ℕ → Bytes → ℕ × Result (Unit {0}) ApplyError
counting n b = (n + 1, ok tt)

abbrev refusing : ℕ → Bytes → ℕ × Result (Unit {0}) ApplyError
refusing n b = (n + 1, err (io []))

abbrev at_first : Applier ℕ
at_first = record { set = default_set; inner = 0 }

apply-apply_example :
    ((apply text counting (ok tt) (apply text counting (ok tt) at_first raw).0 raw).1 ≡ ok tt)
    × ((apply text counting (ok tt) (apply text counting (ok tt) at_first raw).0 raw).0.inner
        ≡ (apply text counting (ok tt) at_first raw).0.inner)
apply-apply_example = apply-apply text counting (ok tt) (ok tt) at_first raw 5 9 peeked

fresh_at_first : (observe text 5 9 at_first.set).1 ≡ new_record
unfolding observe Map.get
fresh_at_first = refl

apply_refused-apply_example :
    ((apply text refusing (ok tt) at_first raw).1 ≡ err (io []))
    × ((apply text refusing (ok tt) (apply text refusing (ok tt) at_first raw).0 raw).1 ≡ ok tt)
    × ◌≡◌ {A = ℕ}
        (apply text refusing (ok tt) (apply text refusing (ok tt) at_first raw).0 raw).0.inner
        1
apply_refused-apply_example =
    apply_refused-apply text refusing (ok tt) (ok tt) at_first raw 5 9 1 (io []) peeked
      fresh_at_first refl
