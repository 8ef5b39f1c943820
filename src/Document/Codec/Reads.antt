-- ===== src/Document/Codec/Reads.antt =====
-- Each cursor helper of src/document/codec.rs on the bytes that the encoder writes.
use grumpydb.Prelude.{
  ℕ, ◌%◌, ◌^◌, ◌<◌, ◌≡◌, true, arith, ◌++◌, ok, ltb, ge→ltb, length, take, drop, length-append,
  take-append, drop-append,
}
use grumpydb.Prelude.Bytes.{Bytes, to_le_bytes, length-to_le_bytes, from_le_bytes-to_le_bytes}
use grumpydb.Document.Text.{is_utf8}
use grumpydb.Document.Codec.{
  u32_bytes, read_u32_le, read_i64_le, read_f64_le, read_hlc, read_bytes, read_string,
}

-- A test for `w` bytes that are there.
enough : (bs rest : Bytes) → ltb (length (bs ++ rest)) (length bs) ≡ ltb 1 0
enough bs rest = ge→ltb _ _ (omega (arith, length-append bs rest))

pub read_bytes-append :
    (len : ℕ) (bs rest : Bytes) → length bs ≡ len → read_bytes len (bs ++ rest) ≡ ok (bs, rest)
unfolding read_bytes
read_bytes-append len bs rest e = rw (← e) (rw (enough, take-append, drop-append))

pub read_string-append :
    (len : ℕ) (bs rest : Bytes)
    → length bs ≡ len
    → is_utf8 bs ≡ true
    → read_string len (bs ++ rest) ≡ ok (bs, rest)
unfolding read_string
read_string-append len bs rest e u = rw (read_bytes-append, e) (rw u)

-- Of an integer of `w` bytes.
module _ (w n : ℕ) (rest : Bytes) where
  le_enough : ltb (length (to_le_bytes w n ++ rest)) w ≡ ltb 1 0
  le_enough =
      ge→ltb _ _ (omega (arith, length-append (to_le_bytes w n) rest, length-to_le_bytes w n))

  le_take : take w (to_le_bytes w n ++ rest) ≡ to_le_bytes w n
  le_take = let h = take-append (to_le_bytes w n) rest in rw length-to_le_bytes at h

  le_drop : drop w (to_le_bytes w n ++ rest) ≡ rest
  le_drop = let h = drop-append (to_le_bytes w n) rest in rw length-to_le_bytes at h

pub read_u32_le-append :
    (n : ℕ) (rest : Bytes) → n < 2 ^ 32 → read_u32_le (to_le_bytes 4 n ++ rest) ≡ ok (n, rest)
unfolding read_u32_le
read_u32_le-append n rest h =
    rw (le_enough 4 n rest, le_take 4 n rest, le_drop 4 n rest) (rw (from_le_bytes-to_le_bytes, h))

pub read_i64_le-append :
    (n : ℕ) (rest : Bytes) → n < 2 ^ 64 → read_i64_le (to_le_bytes 8 n ++ rest) ≡ ok (n, rest)
unfolding read_i64_le
read_i64_le-append n rest h =
    rw (le_enough 8 n rest, le_take 8 n rest, le_drop 8 n rest) (rw (from_le_bytes-to_le_bytes, h))

pub read_f64_le-append :
    (n : ℕ) (rest : Bytes) → n < 2 ^ 64 → read_f64_le (to_le_bytes 8 n ++ rest) ≡ ok (n, rest)
unfolding read_f64_le
read_f64_le-append n rest h =
    rw (le_enough 8 n rest, le_take 8 n rest, le_drop 8 n rest) (rw (from_le_bytes-to_le_bytes, h))

pub read_hlc-append :
    (n : ℕ) (rest : Bytes) → n < 2 ^ 64 → read_hlc (to_le_bytes 8 n ++ rest) ≡ ok (n, rest)
unfolding read_hlc
read_hlc-append n rest h =
    rw (le_enough 8 n rest, le_take 8 n rest, le_drop 8 n rest) (rw (from_le_bytes-to_le_bytes, h))

-- A length that fits 32 bits is read as it was.
pub read_u32_bytes :
    (n : ℕ) (rest : Bytes) → n < 2 ^ 32 → read_u32_le (u32_bytes n ++ rest) ≡ ok (n, rest)
read_u32_bytes n rest h =
    let fits : n % 2 ^ 32 ≡ n = omega arith in rw fits (read_u32_le-append n rest h)
