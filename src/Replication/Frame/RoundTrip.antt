-- ===== src/Replication/Frame/RoundTrip.antt =====
-- What `encode_frame` of grumpydb-replication/src/frame.rs writes, `decode_frame` reads.
use grumpydb.Prelude.{
  ℕ, ◌+◌, ◌%◌, ◌^◌, ◌≤◌, ◌<◌, ◌≡◌, refl, sym, ap, ◌∙◌, arith, true, ◌++◌, ok, ◌>>=◌, le→leb, eq→==,
  length, length-append, take, drop, slice, take_front, drop_front, take-length,
}
use grumpydb.Prelude.Bytes.{
  Bytes, to_le_bytes, from_le_bytes, number_at, length-to_le_bytes, from_le_bytes-to_le_bytes,
  past_le, number_front,
}
use grumpydb.Document.Text.{is_utf8}
use grumpydb.Wal.Record.Fields.{drop-drop}
use grumpydb.Replication.Frame.{
  FrameType, hello_type, hello_ack_type, subscribe_type, ack_type, heartbeat_type, bye_type, Frame,
  hello, hello_ack, subscribe, wal_record, ack, heartbeat, bye, frame_type, encode_payload,
  at_least, exactly, as_text, decode_hello, decode_bye, decode_payload,
}

-- The fields are of their Rust types, and a text is shorter than its 16-bit length allows.
abbrev pub IsTyped : Frame → Type 0
IsTyped (hello v c n t) =
    (v < 2 ^ 16) × (length c ≡ 16) × (length n ≡ 16) × (length t < 2 ^ 16) × (is_utf8 t ≡ true)
IsTyped (hello_ack v n h) = (v < 2 ^ 16) × (length n ≡ 16) × (h < 2 ^ 64)
IsTyped (subscribe n h) = (length n ≡ 16) × (h < 2 ^ 64)
IsTyped (wal_record b) = Unit
IsTyped (ack n h) = (length n ≡ 16) × (h < 2 ^ 64)
IsTyped (heartbeat h) = h < 2 ^ 64
IsTyped (bye r) = (length r < 2 ^ 16) × (is_utf8 r ≡ true)

length_bytes : (xs ys : Bytes) → length (xs ++ ys) ≡ length xs + length ys
length_bytes xs ys = length-append xs ys

exactly_ok : (kind : FrameType) (n : ℕ) (p : Bytes) → length p ≡ n → exactly kind n p ≡ ok tt
unfolding exactly at_least
exactly_ok kind n p e = rw (le→leb n (length p) (omega arith), eq→== (length p) n e)

at_least_ok : (kind : FrameType) (n : ℕ) (p : Bytes) → n ≤ length p → at_least kind n p ≡ ok tt
unfolding at_least
at_least_ok kind n p h = rw (le→leb n (length p) h)

-- A number with nothing behind it.
number_last : (h : ℕ) → h < 2 ^ 64 → from_le_bytes (take 8 (to_le_bytes 8 h)) ≡ h
number_last h f =
    ap from_le_bytes (
      ap (λ k. take k (to_le_bytes 8 h)) {x = 8} (sym (length-to_le_bytes 8 h))
      ∙ take-length (to_le_bytes 8 h))
    ∙ from_le_bytes-to_le_bytes 8 h f

-- A node and a clock value, as `Subscribe` and `Ack` have them.
node_and_hlc :
    (n : Bytes) (h : ℕ)
    → length n ≡ 16
    → h < 2 ^ 64
    → (length (n ++ to_le_bytes 8 h) ≡ 24)
      × (slice 0 16 (n ++ to_le_bytes 8 h) ≡ n)
      × (number_at 8 16 (n ++ to_le_bytes 8 h) ≡ h)
node_and_hlc n h e f = (
  omega (arith, e, length_bytes, length-to_le_bytes 8 h),
  take_front 16 n _ e,
  rw (drop_front 16 0 n (to_le_bytes 8 h) (omega (arith, e))) (number_last h f),
)

hello_fields :
    (v : ℕ) (c n t : Bytes)
    → length c ≡ 16
    → length n ≡ 16
    → length t < 2 ^ 16
    → decode_hello (to_le_bytes 2 v ++ (c ++ (n ++ (to_le_bytes 2 (length t) ++ t)))) ≡ (do
      token ← as_text t
      ok (
          hello
            (from_le_bytes
              (take 2 (to_le_bytes 2 v ++ (c ++ (n ++ (to_le_bytes 2 (length t) ++ t))))))
            c
            n
            token))
unfolding decode_hello
hello_fields v c n t hc hn ht =
    let p = to_le_bytes 2 v ++ (c ++ (n ++ (to_le_bytes 2 (length t) ++ t))) in
    let long : length p ≡ 36 + length t =
      omega
        (arith, hc, hn, length_bytes, length-to_le_bytes 2 v, length-to_le_bytes 2 (length t)) in
    let at_c : slice 2 16 p ≡ c = rw (past_le 2 v 2 0 _ (omega arith)) (take_front 16 c _ hc) in
    let past_c = drop_front 16 0 c (n ++ (to_le_bytes 2 (length t) ++ t)) (omega (arith, hc)) in
    let at_n : slice 18 16 p ≡ n =
      rw (past_le 2 v 18 16 _ (omega arith), past_c) (take_front 16 n _ hn) in
    let past_n : drop 34 p ≡ to_le_bytes 2 (length t) ++ t =
      rw (past_le 2 v 34 32 _ (omega arith)) (
        rw (drop_front 32 16 c (n ++ (to_le_bytes 2 (length t) ++ t)) (omega (arith, hc)))
          (drop_front 16 0 n _ (omega (arith, hn)))) in
    let past_len : drop 36 p ≡ t =
      drop-drop 34 2 p ∙ ap (drop 2) past_n ∙ past_le 2 (length t) 2 0 t (omega arith) in
    rw (at_least_ok hello_type 36 p (omega (arith, long)), past_n, number_front 2 (length t) t ht)
      (rw (exactly_ok hello_type (36 + length t) p long, at_c, at_n, past_len, take-length t))

pub decode_payload-encode_payload :
    (f : Frame) → IsTyped f → decode_payload (frame_type f) (encode_payload f) ≡ ok f
unfolding decode_payload encode_payload frame_type as_text decode_bye
decode_payload-encode_payload (hello v c n t) h =
    let fits : length t % 2 ^ 16 ≡ length t = omega (arith, h.3) in
    rw fits (rw (hello_fields v c n t h.1 h.2 h.3) (rw (h.4, number_front 2 v _ h.0)))
decode_payload-encode_payload (hello_ack v n h) t =
    let p = to_le_bytes 2 v ++ (n ++ to_le_bytes 8 h) in
    let (long, at_n, at_h) = node_and_hlc n h t.1 t.2 in
    let whole : length p ≡ 26 = omega (arith, long, length_bytes, length-to_le_bytes 2 v) in
    rw (
      exactly_ok hello_ack_type 26 p whole,
      number_front 2 v _ t.0,
      past_le 2 v 2 0 (n ++ to_le_bytes 8 h) (omega arith),
      past_le 2 v 18 16 (n ++ to_le_bytes 8 h) (omega arith),
      at_n,
      at_h,
    )
decode_payload-encode_payload (subscribe n h) t =
    let (long, at_n, at_h) = node_and_hlc n h t.0 t.1 in
    rw (exactly_ok subscribe_type 24 (n ++ to_le_bytes 8 h) long, at_n, at_h)
decode_payload-encode_payload (wal_record b) t = refl
decode_payload-encode_payload (ack n h) t =
    let (long, at_n, at_h) = node_and_hlc n h t.0 t.1 in
    rw (exactly_ok ack_type 24 (n ++ to_le_bytes 8 h) long, at_n, at_h)
decode_payload-encode_payload (heartbeat h) t =
    rw (exactly_ok heartbeat_type 8 (to_le_bytes 8 h) (length-to_le_bytes 8 h), number_last h t)
decode_payload-encode_payload (bye r) t =
    let fits : length r % 2 ^ 16 ≡ length r = omega (arith, t.0) in
    let p = to_le_bytes 2 (length r) ++ r in
    let long : length p ≡ 2 + length r =
      omega (arith, length_bytes, length-to_le_bytes 2 (length r)) in
    rw fits (
      rw (at_least_ok bye_type 2 p (omega (arith, long)), number_front 2 (length r) r t.0)
        (rw (
          exactly_ok bye_type (2 + length r) p long,
          past_le 2 (length r) 2 0 r (omega arith),
          take-length r,
          t.1,
        )))
