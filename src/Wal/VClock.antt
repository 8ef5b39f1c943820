-- ===== src/Wal/VClock.antt =====
-- The vector clock of src/wal/vclock.rs: a map from node ids (`u128`) to counters (`u64`).
pub mod Merge
pub mod Compare
pub mod RoundTrip
use grumpydb.Prelude.{
  ℕ, zero, suc, ◌+◌, ◌-◌, ◌*◌, ◌%◌, ◌^◌, min, Bool, true, false, List, [], ◌∷◌, ◌++◌, map, none,
  some, Result, ok, err, ltb, if◌then◌else◌, length, take, drop,
}
use grumpydb.Prelude.Bytes.{Bytes, to_le_bytes, from_le_bytes}
use grumpydb.Prelude.Map
use grumpydb.Prelude.Map.{Map}
use grumpydb.Prelude.Order.{nat_ord}

abbrev pub max_vclock_entries : ℕ
max_vclock_entries = 4096

abbrev pub vclock_entry_size : ℕ
vclock_entry_size = 16 + 8

-- the `entries` of the clock
abbrev pub VectorClock : Type 0
VectorClock = Map ℕ ℕ

pub data VClockOrdering : Type 0 where
  equal less_than greater_than concurrent : VClockOrdering

pub data VClockError : Type 0 where
  truncated : ℕ → ℕ → VClockError
  too_many_entries : ℕ → VClockError

abbrev pub new : VectorClock
new = []

unfoldable pub singleton : ℕ → ℕ → VectorClock
singleton node counter = Map.insert node counter []

unfoldable pub get : VectorClock → ℕ → ℕ
get vc node = elim (Map.get node vc) [ none ↦ 0 | some c ↦ c ]

unfoldable pub set : VectorClock → ℕ → ℕ → VectorClock
set vc node counter = Map.insert node counter vc

-- `saturating_add(1)` on a `u64`, and the new value
unfoldable pub bump : VectorClock → ℕ → VectorClock × ℕ
bump vc node = let c = min (get vc node + 1) (2 ^ 64 - 1) in (Map.insert node c vc, c)

-- The body of the loop of `merge`: an absent entry is first made 0.
unfoldable pub merge_entry : VectorClock → ℕ → ℕ → VectorClock
merge_entry vc node counter =
    let cur = get vc node in Map.insert node (if ltb cur counter then counter else cur) vc

unfoldable pub merge : VectorClock → VectorClock → VectorClock
merge vc [] = vc
merge vc ((node, counter) ∷ other) = merge (merge_entry vc node counter) other

-- The union of the key sets, as the set that `collect` builds.
unfoldable pub collect : List ℕ → Map ℕ (Unit {0})
collect [] = []
collect (k ∷ ks) = Map.insert k tt (collect ks)

abbrev pub keys : VectorClock → List ℕ
keys = map (λ e. e.0)

unfoldable pub all_keys : VectorClock → VectorClock → Map ℕ (Unit {0})
unfolding collect
all_keys a b = collect (keys a ++ keys b)

-- The loop of `compare`, over the two flags.
unfoldable pub scan : VectorClock → VectorClock → Map ℕ (Unit {0}) → Bool → Bool → Bool × Bool
scan a b [] le ge = (le, ge)
scan a b ((k, _) ∷ ks) le ge =
    scan a b ks (if ltb (get b k) (get a k) then false else le)
      (if ltb (get a k) (get b k) then false else ge)

abbrev pub verdict : Bool → Bool → VClockOrdering
verdict true true = equal
verdict true false = less_than
verdict false true = greater_than
verdict false false = concurrent

unfoldable pub compare : VectorClock → VectorClock → VClockOrdering
compare a b = let (le, ge) = scan a b (all_keys a b) true true in verdict le ge

unfoldable pub encoded_len : VectorClock → ℕ
encoded_len vc = 2 + length vc * vclock_entry_size

unfoldable pub encode_entries : VectorClock → Bytes
encode_entries [] = []
encode_entries ((node, counter) ∷ vc) =
    to_le_bytes 16 node ++ (to_le_bytes 8 counter ++ encode_entries vc)

-- What `encode_to` appends; the count is cut to a `u16`.
unfoldable pub encode_to : VectorClock → Bytes
unfolding encode_entries
encode_to vc = to_le_bytes 2 (length vc % 2 ^ 16) ++ encode_entries vc

-- The loop of `decode`, from `buf[cur..]`.
unfoldable pub decode_entries : ℕ → Bytes → VectorClock → VectorClock
decode_entries zero buf entries = entries
decode_entries (suc n) buf entries =
    decode_entries n (drop 8 (drop 16 buf))
      (Map.insert (from_le_bytes (take 16 buf)) (from_le_bytes (take 8 (drop 16 buf))) entries)

-- The clock and the number of bytes that it took.
unfoldable pub decode : Bytes → Result (VectorClock × ℕ) VClockError
decode buf =
    if ltb (length buf) 2
    then err (truncated 2 (length buf))
    else (let n = from_le_bytes (take 2 buf) in
        let total = 2 + n * vclock_entry_size in
        if ltb max_vclock_entries n
        then err (too_many_entries n)
        else if ltb (length buf) total
        then err (truncated total (length buf))
        else ok (decode_entries n (drop 2 buf) [], total))
