-- ===== src/Witnesses/Log.antt =====
-- The clocks and the records of src/wal/ on concrete values.
use grumpydb.Prelude.{
  ℕ, ◌+◌, ◌%◌, ◌^◌, ◌≡◌, refl, arith, List, [], ◌∷◌, ◌++◌, ok, err, ◌==◌, if◌then◌else◌, take,
  length, ◌*◌,
}
use grumpydb.Prelude.Bytes.{Bytes, to_le_bytes}
use grumpydb.Prelude.Order.{nat_ord}
use grumpydb.Prelude.Map.{IsSorted}
use grumpydb.Wal.Hlc.{HlcClock}
use grumpydb.Wal.Hlc.Runs.{Event, local, receive, issued, Ascends, issued-Ascends}
use grumpydb.Error.{wal_corrupted}
use grumpydb.Wal.VClock
use grumpydb.Wal.VClock.{VectorClock, compare, merge, get, encode_to, encoded_len, decode}
use grumpydb.Wal.VClock.Compare.{Means, compare-Means}
use grumpydb.Wal.VClock.Merge.{merge_laws}
use grumpydb.Wal.VClock.RoundTrip.{decode-encode_to, length-encode_to}
use grumpydb.Wal.Record.{
  WalRecord, page_write, encoded_v2_len, covered, payload_bytes, to_bytes, new_page_write,
  from_bytes_v2,
}
use grumpydb.Wal.Record.RoundTrip
use grumpydb.Wal.Record.RoundTrip.{IsShaped, IsSealed, from_bytes_v2-to_bytes, length-to_bytes}
use grumpydb.Wal.Record.Integrity.{from_bytes_v2-damaged, page_images-new_page_write}

-- A checksum function: the length.
abbrev by_length : Bytes → ℕ
by_length bs = length bs % 2 ^ 32

abbrev one : VectorClock
one = (1, 5) ∷ (2, 3) ∷ []

abbrev two : VectorClock
two = (1, 5) ∷ (2, 4) ∷ (7, 1) ∷ []

abbrev three : VectorClock
three = (3, 9) ∷ []

one-IsTyped : VClock.RoundTrip.IsTyped one
one-IsTyped = (omega arith, omega arith, (omega arith, omega arith, tt))

one-IsSorted : IsSorted one
one-IsSorted = ((refl, tt), (tt, tt))

two-IsSorted : IsSorted two
two-IsSorted = ((refl, (refl, tt)), ((refl, tt), (tt, tt)))

compare-Means_example : Means (compare one two) one two
compare-Means_example = compare-Means one two

merge_laws_example :
    (merge one two ≡ merge two one)
    × (merge (merge one two) three ≡ merge one (merge two three))
    × (merge one one ≡ one)
    × IsSorted (merge one two)
merge_laws_example = merge_laws one two three one-IsSorted two-IsSorted (tt, tt)

abbrev clock : HlcClock
clock = record { state = 7 * 2 ^ 16 + 65535; max_skew_ms = 1000 }

abbrev events : List Event
events = local (ok 6) ∷ local (ok 8) ∷ receive (9 * 2 ^ 16 + 1) (ok 8) ∷ local (ok 8) ∷ []

issued-Ascends_example : Ascends clock.state (issued clock events)
issued-Ascends_example = issued-Ascends clock events (omega arith) ground arith

-- A write of two bytes on page 3.
abbrev written : WalRecord
written = record {
  record_len = 109;
  lsn = 4;
  tx_id = 6;
  op_type = page_write;
  origin_node_id = 9;
  hlc = 77;
  vclock = one;
  page_id = 3;
  payload = 12 ∷ 10 ∷ [];
  checksum = 101;
}

written-IsTyped : RoundTrip.IsTyped written
written-IsTyped = record {
  lsn_fits = omega arith;
  tx_fits = omega arith;
  origin_fits = omega arith;
  hlc_fits = omega arith;
  page_fits = omega arith;
  checksum_fits = omega arith;
  clock_typed = one-IsTyped;
  clock_sorted = one-IsSorted;
  clock_small = omega arith;
}

built : new_page_write by_length 4 6 9 77 one 3 (10 ∷ []) (12 ∷ []) ≡ written
unfolding new_page_write encoded_v2_len covered encoded_len encode_to to_le_bytes payload_bytes
built = refl

written-IsSealed : IsSealed by_length written
unfolding encoded_v2_len encoded_len new_page_write
written-IsSealed =
    rw built at (
      (page_images-new_page_write by_length 4 6 9 77 3 one (10 ∷ []) (12 ∷ []) refl
        (omega arith)).0)

from_bytes_v2-to_bytes_example :
    from_bytes_v2 by_length (to_bytes written ++ (1 ∷ [])) ≡ ok (written, written.record_len)
from_bytes_v2-to_bytes_example =
    from_bytes_v2-to_bytes by_length written (1 ∷ []) written-IsTyped written-IsSealed

-- The record with another transaction and another checksum.
abbrev altered : WalRecord
altered = record written { tx_id = 7; checksum = 100 }

altered-IsTyped : RoundTrip.IsTyped altered
altered-IsTyped = record {
  lsn_fits = omega arith;
  tx_fits = omega arith;
  origin_fits = omega arith;
  hlc_fits = omega arith;
  page_fits = omega arith;
  checksum_fits = omega arith;
  clock_typed = one-IsTyped;
  clock_sorted = one-IsSorted;
  clock_small = omega arith;
}

altered-IsShaped : IsShaped altered
unfolding encoded_v2_len encoded_len
altered-IsShaped = record {
  len_is = refl;
  len_fits = omega arith;
  no_page = λ w. cc;
  no_payload = λ w. cc;
}

from_bytes_v2-damaged_example :
    (from_bytes_v2 by_length (take 60 (to_bytes altered)) ≡ err (wal_corrupted 0))
    × (from_bytes_v2 by_length (to_bytes altered ++ (1 ∷ [])) ≡ (
        if by_length (covered altered) == altered.checksum
        then ok (altered, altered.record_len)
        else err (wal_corrupted altered.lsn)))
unfolding encoded_v2_len encoded_len
from_bytes_v2-damaged_example =
    from_bytes_v2-damaged by_length altered (1 ∷ []) 60 altered-IsTyped altered-IsShaped
      (omega (arith, length-to_bytes altered))
