-- ===== src/Replication/Frame/Stream.antt =====
-- `decode_frame` of grumpydb-replication/src/frame.rs on bytes as they arrive.
use grumpydb.Prelude.{
  ℕ, zero, suc, ◌+◌, ◌-◌, ◌^◌, ◌≤◌, ◌<◌, ◌≡◌, refl, ap, ◌∙◌, inl, inr, arith, Bool-cases, none,
  some, List, [], ◌∷◌, ◌++◌, append_assoc, append-nil, ok, ltb, ge→ltb, lt→ltb, le→leb, ltb→lt,
  ltb→ge, eq→==, if◌then◌else◌, length, length-append, length-take, take-take, take, slice,
  take_front, drop_front,
}
use grumpydb.Prelude.Bytes.{
  Bytes, to_le_bytes, from_le_bytes, number_at, length-to_le_bytes, past_le, number_front,
}
use grumpydb.Replication.Frame.{
  max_frame_payload, frame_header_size, FrameType, hello_type, frame_type_from_u8, as_u8, Frame,
  frame_type, encode_payload, encode_frame, decode_body, decode_frame,
}
use grumpydb.Replication.Frame.RoundTrip.{IsTyped, decode_payload-encode_payload}

frame_type_from_u8-as_u8 : (k : FrameType) → frame_type_from_u8 (as_u8 k) ≡ ok k
unfolding frame_type_from_u8 as_u8
frame_type_from_u8-as_u8 hello_type = refl
frame_type_from_u8-as_u8 _ = refl

module _ {ℓ} {A : Type ℓ} where
  take_within : (n : ℕ) (xs ys : List A) → n ≤ length xs → take n (xs ++ ys) ≡ take n xs
  take_within zero xs ys h = refl
  take_within (suc n) [] ys h = absurd (omega arith)
  take_within (suc n) (x ∷ xs) ys h = ap (◌∷◌ x) (take_within n xs ys (omega arith))

  take_past :
      (n : ℕ) (xs ys : List A) → length xs ≤ n → take n (xs ++ ys) ≡ xs ++ take (n - length xs) ys
  take_past n [] ys h = let e : n - 0 ≡ n = omega arith in rw e
  take_past zero (x ∷ xs) ys h = absurd (omega arith)
  take_past (suc n) (x ∷ xs) ys h =
      let e : suc n - suc (length xs) ≡ n - length xs = omega arith in
      rw e (ap (◌∷◌ x) (take_past n xs ys (omega arith)))

length_bytes : (xs ys : Bytes) → length (xs ++ ys) ≡ length xs + length ys
length_bytes xs ys = length-append xs ys

module _ (crc : Bytes → ℕ) (f : Frame) where
  abbrev payload : Bytes
  payload = encode_payload f

  abbrev kind : ℕ
  kind = as_u8 (frame_type f)

  abbrev sum : ℕ
  sum = crc (kind ∷ payload)

  abbrev whole : Bytes → Bytes
  whole rest = to_le_bytes 4 (length payload) ++ (kind ∷ (payload ++ (to_le_bytes 4 sum ++ rest)))

  encode_frame-ok :
      (bs : Bytes)
      → encode_frame crc f ≡ ok bs
      → (length payload ≤ max_frame_payload) × (bs ≡ whole [])
  unfolding encode_frame
  encode_frame-ok bs e = ground (arith, append-nil (to_le_bytes 4 sum))

  length-whole : (rest : Bytes) → length (whole rest) ≡ 9 + length payload + length rest
  length-whole rest =
      omega (arith, length_bytes, length-to_le_bytes 4 (length payload), length-to_le_bytes 4 sum)

  whole-append : (rest : Bytes) → whole [] ++ rest ≡ whole rest
  whole-append rest = simp append_assoc

  kind_at : (rest : Bytes) → number_at 1 4 (whole rest) ≡ kind
  unfolding from_le_bytes
  kind_at rest =
      rw
        (past_le 4 (length payload) 4 0 (kind ∷ (payload ++ (to_le_bytes 4 sum ++ rest)))
          (omega arith))
        (omega arith)

  payload_at : (rest : Bytes) → slice 5 (length payload) (whole rest) ≡ payload
  payload_at rest =
      rw
        (past_le 4 (length payload) 5 1 (kind ∷ (payload ++ (to_le_bytes 4 sum ++ rest)))
          (omega arith))
        (take_front (length payload) payload _ refl)

  sum_at : (rest : Bytes) → sum < 2 ^ 32 → number_at 4 (5 + length payload) (whole rest) ≡ sum
  sum_at rest h =
      rw
        (past_le 4 (length payload) (5 + length payload) (suc (length payload))
          (kind ∷ (payload ++ (to_le_bytes 4 sum ++ rest))) (omega arith))
        (rw (drop_front (length payload) 0 payload (to_le_bytes 4 sum ++ rest) (omega arith))
          (number_front 4 sum rest h))

  decode_body-whole :
      (rest : Bytes)
      → IsTyped f
      → sum < 2 ^ 32
      → decode_body crc (length payload) (whole rest) ≡ ok (some (f, 9 + length payload))
  unfolding decode_body
  decode_body-whole rest t h =
      let total : 5 + length payload + 4 ≡ 9 + length payload = omega arith in
      rw (kind_at rest, frame_type_from_u8-as_u8 (frame_type f), payload_at rest, sum_at rest h)
        (rw (eq→== sum sum refl, decode_payload-encode_payload f t, total))

  -- From the length on, which is there.
  decode_frame_header :
      (buf : Bytes)
      → frame_header_size ≤ length buf
      → number_at 4 0 buf ≡ length payload
      → length payload ≤ max_frame_payload
      → decode_frame crc buf ≡ (
          if ltb (length buf) (9 + length payload)
          then ok none
          else decode_body crc (length payload) buf)
  unfolding decode_frame
  decode_frame_header buf h e m =
      let total : 5 + length payload + 4 ≡ 9 + length payload = omega arith in
      rw (e, ge→ltb (length buf) 5 h, le→leb (length payload) max_frame_payload m) (rw total)

  decode_frame_short :
      (buf : Bytes) → length buf < frame_header_size → decode_frame crc buf ≡ ok none
  unfolding decode_frame
  decode_frame_short buf h = rw (lt→ltb (length buf) 5 h)

-- What `encode_frame` writes for a frame of the types is decoded at every point of its arrival: while
-- bytes of it are missing, `decode_frame` asks for more, and from its last byte on, whatever
-- follows, it gives the frame and the number of its bytes. The checksum function gives 32 bits.
pub decode_frame-encode_frame :
    (crc : Bytes → ℕ) (f : Frame) (bs rest : Bytes) (n : ℕ)
    → ((x : Bytes) → crc x < 2 ^ 32)
    → IsTyped f
    → encode_frame crc f ≡ ok bs
    → n ≤ length (bs ++ rest)
    → decode_frame crc (take n (bs ++ rest))
      ≡ (if ltb n (length bs) then ok none else ok (some (f, length bs)))
decode_frame-encode_frame crc f bs rest n fits t e h =
    let (small, same) = encode_frame-ok crc f bs e in rw same (arrival small (rw same at h))
  where
    len : ℕ
    len = length (encode_payload f)

    arrival :
        len ≤ max_frame_payload
        → n ≤ length (whole crc f [] ++ rest)
        → decode_frame crc (take n (whole crc f [] ++ rest)) ≡ (
            if ltb n (length (whole crc f []))
            then ok none
            else ok (some (f, length (whole crc f []))))
    arrival small h =
        let all : length (whole crc f []) ≡ 9 + len = omega (arith, length-whole crc f []) in
        let got : length (take n (whole crc f rest)) ≡ n =
          length-take n (whole crc f rest) (rw (whole-append crc f rest) at h) in
        rw (all, whole-append crc f rest)
          (elim (Bool-cases (ltb n 5)) [
            | inl early ↦ rw (lt→ltb n (9 + len) (omega (arith, ltb→lt n 5 early))) (
                decode_frame_short crc f (take n (whole crc f rest))
                  (omega (arith, got, ltb→lt n 5 early)))
            | inr later ↦
                let five = ltb→ge n 5 later in
                let length_at : number_at 4 0 (take n (whole crc f rest)) ≡ len =
                  rw (take-take 4 n (whole crc f rest) (omega (arith, five)))
                    (number_front 4 len _ (omega (arith, small))) in
                decode_frame_header crc f (take n (whole crc f rest)) (omega (arith, got, five))
                  length_at small
                ∙ rw got (elim (Bool-cases (ltb n (9 + len))) [
                  | inl missing ↦ rw missing
                  | inr here ↦
                      rw (here, ← whole-append crc f rest)
                        (rw
                          (take_past n (whole crc f []) rest
                            (omega (arith, all, ltb→ge n (9 + len) here)))
                          (rw (whole-append crc f (take (n - length (whole crc f [])) rest))
                            (decode_body-whole crc f _ t (fits _))))
                ])
          ])
