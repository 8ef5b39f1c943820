-- ===== src/Replication/Idempotent.antt =====
-- `IdempotentApplier` of grumpydb-replication/src/idempotent.rs. The applier that it wraps is a
-- parameter, on a state of its own; whether the set can be saved is an argument of each call, since
-- the file is not modelled. Calls are one after another.
use grumpydb.Prelude.{
  ℕ, ◌+◌, ◌≤◌, ◌<◌, ◌^◌, ◌≡◌, refl, ◌∙◌, arith, Option, none, some, ◌++◌, Result, ok, err, ltb,
  ge→ltb, if◌then◌else◌, length, length-append,
}
use mathlib.Core.Path.{subst}
use grumpydb.Prelude.Bytes.{Bytes, number_at, to_le_bytes}
use grumpydb.Prelude.Order.{bytes_ord, bytes_refl}
use grumpydb.Prelude.Map
use grumpydb.Prelude.Map.{insert, is_eq, get-insert}
use grumpydb.Wal.Hlc.{Hlc}
use grumpydb.Wal.Applied.{new_record, already_applied, AppliedSet, value_or_zero, observe}
use grumpydb.Wal.VClock
use grumpydb.Wal.Record.{WalRecord, encoded_v2_len, to_bytes, payload_bytes}
use grumpydb.Wal.Record.Fields.{header, origin_at, hlc_at}
use grumpydb.Wal.Record.RoundTrip.{to_bytes-header, length-to_bytes}

-- the offsets of the two fields in a record of version 2
abbrev pub origin_offset : ℕ
origin_offset = 21

abbrev pub hlc_offset : ℕ
hlc_offset = 37

abbrev pub min_peek : ℕ
min_peek = hlc_offset + 8

pub data ApplyError : Type 0 where
  decode_failed : ℕ → ApplyError
  engine io : Bytes → ApplyError

unfoldable pub peek_origin_hlc : Bytes → Option (ℕ × Hlc)
peek_origin_hlc raw =
    if ltb (length raw) min_peek
    then none
    else some (number_at 16 origin_offset raw, number_at 8 hlc_offset raw)

-- The set is held in memory, beside the state of the inner applier.
pub record Applier (S : Type 0) : Type 0 where
  pub set : AppliedSet
  pub inner : S

module _ (hyphenated : ℕ → Bytes) {S : Type 0}
    (inner_apply : S → Bytes → S × Result (Unit {0}) ApplyError) where
  -- The result of the inner applier, then that of saving the set.
  unfoldable pub delegate :
      Result (Unit {0}) Bytes → Applier S → Bytes → Applier S × Result (Unit {0}) ApplyError
  delegate saved a raw =
      let (s, r) = inner_apply a.inner raw in
      elim r [
        | err e ↦ (record a { inner = s }, err e)
        | ok _ ↦ (record a { inner = s }, elim saved [ ok _ ↦ ok tt | err m ↦ err (engine m) ])
      ]

  unfoldable pub apply :
      Result (Unit {0}) Bytes → Applier S → Bytes → Applier S × Result (Unit {0}) ApplyError
  unfolding delegate
  apply saved a raw = elim (peek_origin_hlc raw) [
    | none ↦ (a, err (decode_failed (length raw)))
    | some (origin, h) ↦
        let (set, outcome) = observe hyphenated origin h a.set in
        elim outcome [
          | already_applied ↦ (record a { set = set }, ok tt)
          | new_record ↦ delegate saved (record a { set = set }) raw
        ]
  ]

  delegate_set :
      (saved : Result (Unit {0}) Bytes) (a : Applier S) (raw : Bytes)
      → (delegate saved a raw).0.set ≡ a.set
  unfolding delegate
  delegate_set saved a raw = ground arith

observe_again :
    (hyphenated : ℕ → Bytes) (s : AppliedSet) (origin : ℕ) (h : Hlc)
    → (observe hyphenated origin h (observe hyphenated origin h s).0).1 ≡ already_applied
unfolding observe
observe_again hyphenated s origin h =
    let key = hyphenated origin in
    let entry = value_or_zero (Map.get key s.last_applied) in
    ground (
      arith,
      get-insert key key h s.last_applied,
      get-insert key key entry s.last_applied,
      bytes_refl key,
    )

-- The two fields are found in what `to_bytes` writes for a record of version 2, whatever follows.
pub peek_origin_hlc-to_bytes :
    (r : WalRecord) (rest : Bytes)
    → r.origin_node_id < 2 ^ 128
    → r.hlc < 2 ^ 64
    → peek_origin_hlc (to_bytes r ++ rest) ≡ some (r.origin_node_id, r.hlc)
unfolding peek_origin_hlc
peek_origin_hlc-to_bytes r rest ho hh =
    let more =
      VClock.encode_to r.vclock ++ (payload_bytes r ++ (to_le_bytes 4 r.checksum ++ rest)) in
    let big : 49 ≤ encoded_v2_len r = unfold encoded_v2_len in omega arith in
    let whole : 45 ≤ length (to_bytes r ++ rest) =
      omega (arith, length-append (to_bytes r) rest, length-to_bytes r, big) in
    let long : 45 ≤ length (header r more) =
      subst (λ (b : Bytes). 45 ≤ length b) (to_bytes-header r rest) whole in
    rw (to_bytes-header r rest)
      (rw (ge→ltb (length (header r more)) 45 long, origin_at r more ho, hlc_at r more hh) refl)

module _ (hyphenated : ℕ → Bytes) {S : Type 0}
    (inner_apply : S → Bytes → S × Result (Unit {0}) ApplyError) where
  apply_set :
      (saved : Result (Unit {0}) Bytes) (a : Applier S) (raw : Bytes) (origin : ℕ) (h : Hlc)
      → peek_origin_hlc raw ≡ some (origin, h)
      → (apply hyphenated inner_apply saved a raw).0.set ≡ (observe hyphenated origin h a.set).0
  unfolding apply delegate
  apply_set saved a raw origin h e = rw (e, apply) (ground arith)

  apply_seen :
      (saved : Result (Unit {0}) Bytes) (a : Applier S) (raw : Bytes) (origin : ℕ) (h : Hlc)
      → peek_origin_hlc raw ≡ some (origin, h)
      → (observe hyphenated origin h a.set).1 ≡ already_applied
      → ((apply hyphenated inner_apply saved a raw).1 ≡ ok tt)
        × ((apply hyphenated inner_apply saved a raw).0.inner ≡ a.inner)
  unfolding apply
  apply_seen saved a raw origin h e seen = rw (e, apply) (ground (arith, seen))

  apply_new :
      (saved : Result (Unit {0}) Bytes) (a : Applier S) (raw : Bytes) (origin : ℕ) (h : Hlc)
      → peek_origin_hlc raw ≡ some (origin, h)
      → (observe hyphenated origin h a.set).1 ≡ new_record
      → (s : S) (x : ApplyError) → inner_apply a.inner raw ≡ (s, err x)
      → ((apply hyphenated inner_apply saved a raw).1 ≡ err x)
        × ((apply hyphenated inner_apply saved a raw).0.inner ≡ s)
  unfolding apply delegate
  apply_new saved a raw origin h e fresh s x f = rw (e, apply) (ground (arith, fresh, f))

-- A record that has been given to `apply` once is not given to the inner applier again: the second
-- call succeeds and leaves the inner state as the first left it, whatever the result of the first.
-- The record is long enough for its origin and clock value.
pub apply-apply :
    (hyphenated : ℕ → Bytes) {S : Type 0}
    (inner_apply : S → Bytes → S × Result (Unit {0}) ApplyError)
    (first second : Result (Unit {0}) Bytes) (a : Applier S) (raw : Bytes) (origin : ℕ) (h : Hlc)
    → peek_origin_hlc raw ≡ some (origin, h)
    → ((apply hyphenated inner_apply second (apply hyphenated inner_apply first a raw).0 raw).1
        ≡ ok tt)
      × ((apply hyphenated inner_apply second
            (apply hyphenated inner_apply first a raw).0
            raw).0.inner
          ≡ (apply hyphenated inner_apply first a raw).0.inner)
apply-apply hyphenated inner_apply first second a raw origin h e =
    apply_seen hyphenated inner_apply second (apply hyphenated inner_apply first a raw).0 raw origin
      h e
      (rw (apply_set hyphenated inner_apply first a raw origin h e)
        (observe_again hyphenated a.set origin h))

-- Where the inner applier refuses a new record, `apply` gives its error, and a retry of that record
-- succeeds without the inner applier: the state stays the one that the refusal left.
pub apply_refused-apply :
    (hyphenated : ℕ → Bytes) {S : Type 0}
    (inner_apply : S → Bytes → S × Result (Unit {0}) ApplyError)
    (first second : Result (Unit {0}) Bytes) (a : Applier S) (raw : Bytes) (origin : ℕ) (h : Hlc)
    (s : S) (x : ApplyError)
    → peek_origin_hlc raw ≡ some (origin, h)
    → (observe hyphenated origin h a.set).1 ≡ new_record
    → inner_apply a.inner raw ≡ (s, err x)
    → ((apply hyphenated inner_apply first a raw).1 ≡ err x)
      × ((apply hyphenated inner_apply second (apply hyphenated inner_apply first a raw).0 raw).1
          ≡ ok tt)
      × ((apply hyphenated inner_apply second
            (apply hyphenated inner_apply first a raw).0
            raw).0.inner
          ≡ s)
apply_refused-apply hyphenated inner_apply first second a raw origin h s x e fresh f =
    let refused = apply_new hyphenated inner_apply first a raw origin h e fresh s x f in
    let again = apply-apply hyphenated inner_apply first second a raw origin h e in
    (refused.0, again.0, again.1 ∙ refused.1)
