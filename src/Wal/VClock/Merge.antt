-- ===== src/Wal/VClock/Merge.antt =====
-- `merge` of src/wal/vclock.rs: the pointwise maximum, and its laws.
use grumpydb.Prelude.{ℕ, ◌≡◌, arith, max, Option, none, some, [], ◌∷◌, ltb, if◌then◌else◌}
use grumpydb.Prelude.Order.{nat_ord}
use grumpydb.Prelude.Map
use grumpydb.Prelude.Map.{IsSorted, is_eq, get-insert, insert-IsSorted, get_of_Above}
use grumpydb.Prelude.Map.Ext.{Map_ext}
use grumpydb.Wal.VClock.{VectorClock, get, merge_entry, merge}

-- The larger of two counters, either of which may be absent.
abbrev pub join : Option ℕ → Option ℕ → Option ℕ
join none y = y
join (some x) none = some x
join (some x) (some y) = some (max x y)

-- An entry that is merged holds the larger counter.
get-merge_entry :
    (a : VectorClock) (k n c : ℕ)
    → Map.get k (merge_entry a n c)
      ≡ (if is_eq (nat_ord.cmp k n) then join (Map.get k a) (some c) else Map.get k a)
unfolding merge_entry get
get-merge_entry a k n c = ground (arith, get-insert n k (if ltb (get a n) c then c else get a n) a)

pub merge-IsSorted : (a b : VectorClock) → IsSorted a → IsSorted (merge a b)
unfolding merge merge_entry
merge-IsSorted a [] s = s
merge-IsSorted a ((n, c) ∷ b) s =
    merge-IsSorted (merge_entry a n c) b
      (insert-IsSorted n (if ltb (get a n) c then c else get a n) a s)

pub get-merge :
    (a b : VectorClock) (k : ℕ)
    → IsSorted b
    → Map.get k (merge a b) ≡ join (Map.get k a) (Map.get k b)
unfolding merge Map.get
get-merge a [] k s = ground arith
get-merge a ((n, c) ∷ b) k s =
    ground
      (arith, get-merge (merge_entry a n c) b k s.1, get-merge_entry a k n c, get_of_Above n b s.0)

-- The counter of a node in a merged clock is the larger of its counters in the two clocks, an absent
-- one counting as 0.
pub count-merge :
    (a b : VectorClock) (k : ℕ) → IsSorted b → get (merge a b) k ≡ max (get a k) (get b k)
unfolding get
count-merge a b k s = ground (arith, get-merge a b k s)

join_comm : (x y : Option ℕ) → join x y ≡ join y x
join_comm x y = ground arith

join_assoc : (x y z : Option ℕ) → join (join x y) z ≡ join x (join y z)
join_assoc x y z = ground arith

join_self : (x : Option ℕ) → join x x ≡ x
join_self x = ground arith

-- `merge` is commutative, associative and idempotent on clocks whose keys ascend, and its result is
-- such a clock.
pub merge_laws :
    (a b c : VectorClock)
    → IsSorted a
    → IsSorted b
    → IsSorted c
    → (merge a b ≡ merge b a)
      × (merge (merge a b) c ≡ merge a (merge b c))
      × (merge a a ≡ a)
      × IsSorted (merge a b)
merge_laws a b c s t u =
    let sab = merge-IsSorted a b s in
    let sbc = merge-IsSorted b c t in
    let comm : merge a b ≡ merge b a =
      Map_ext (merge a b) (merge b a) sab (merge-IsSorted b a t)
        (λ k. rw (get-merge a b k t, get-merge b a k s) (join_comm (Map.get k a) (Map.get k b))) in
    let assoc : merge (merge a b) c ≡ merge a (merge b c) =
      Map_ext (merge (merge a b) c) (merge a (merge b c)) (merge-IsSorted (merge a b) c sab)
        (merge-IsSorted a (merge b c) s)
        (λ k.
          rw
            (
              get-merge (merge a b) c k u,
              get-merge a b k t,
              get-merge a (merge b c) k sbc,
              get-merge b c k u,
            )
            (join_assoc (Map.get k a) (Map.get k b) (Map.get k c))) in
    let idem : merge a a ≡ a =
      Map_ext (merge a a) a (merge-IsSorted a a s) s
        (λ k. rw (get-merge a a k s) (join_self (Map.get k a))) in
    (comm, assoc, idem, sab)
