-- ===== src/Wal/Hlc.antt =====
-- The hybrid logical clock of src/wal/hlc.rs. An `Hlc` is its packed `u64`; the reading of the
-- system's clock is an argument, as `wall_now_ms` returns it.
pub mod Order
pub mod Runs
use grumpydb.Prelude.{
  ℕ, ◌+◌, ◌-◌, ◌*◌, ◌/◌, ◌%◌, ◌^◌, ◌<◌, max, ◌&&◌, Result, ok, err, ◌>>=◌, ltb, ◌==◌, if◌then◌else◌,
}

abbrev pub Hlc : Type 0
Hlc = ℕ

-- The fields fit their bits, so that `|` is a sum.
unfoldable pub pack : ℕ → ℕ → Hlc
pack physical logical = physical % 2 ^ 48 * 2 ^ 16 + logical

unfoldable pub physical_ms : Hlc → ℕ
physical_ms h = h / 2 ^ 16

unfoldable pub logical : Hlc → ℕ
logical h = h % 2 ^ 16

pub data HlcError : Type 0 where
  skew_exceeded : ℕ → ℕ → HlcError
  logical_overflow : ℕ → HlcError
  before_epoch : HlcError

abbrev pub default_max_skew_ms : ℕ
default_max_skew_ms = 60 * 60 * 1000

pub record HlcClock : Type 0 where
  pub state : Hlc
  pub max_skew_ms : ℕ

-- `wall_now_ms().unwrap_or(0)` seeds the clock.
unfoldable pub with_max_skew : ℕ → Result ℕ HlcError → HlcClock
unfolding pack
with_max_skew skew wall = record {
  state = elim wall [ ok ms ↦ pack ms 0 | err e ↦ pack 0 0 ];
  max_skew_ms = skew;
}

-- `n.checked_add(1)` of a `u16`, and the error that takes the place of an overflow
unfoldable pub bump_logical : ℕ → ℕ → Result ℕ HlcError
bump_logical physical n =
    if ltb (n + 1) (2 ^ 16) then ok (n + 1) else err (logical_overflow physical)

-- The value that `now` issues.
unfoldable pub next_now : Hlc → ℕ → Result Hlc HlcError
unfolding bump_logical
next_now state wall =
    if ltb (physical_ms state) wall
    then ok (pack wall 0)
    else (do l ← bump_logical (physical_ms state) (logical state); ok (pack (physical_ms state) l))

-- The value that `update` issues once the skew is accepted.
unfoldable pub next_update : Hlc → Hlc → ℕ → Result Hlc HlcError
unfolding bump_logical
next_update state remote wall =
    let prev = physical_ms state in
    let rem = physical_ms remote in
    let phys = max (max wall prev) rem in
    do
      l ←
          if phys == prev && phys == rem
          then bump_logical phys (max (logical state) (logical remote))
          else if phys == prev
          then bump_logical phys (logical state)
          else if phys == rem
          then bump_logical phys (logical remote)
          else ok 0
      ok (pack phys l)

-- `*state = next; Ok(next)`, or the error with the state as it was.
abbrev pub commit : HlcClock → Result Hlc HlcError → HlcClock × Result Hlc HlcError
commit c (ok next) = (record c { state = next }, ok next)
commit c (err e) = (c, err e)

unfoldable pub now : HlcClock → Result ℕ HlcError → HlcClock × Result Hlc HlcError
now c (err e) = (c, err e)
now c (ok wall) = commit c (next_now c.state wall)

-- The sum of the wall clock and the tolerance is a `u64`.
unfoldable pub update : HlcClock → Hlc → Result ℕ HlcError → HlcClock × Result Hlc HlcError
update c remote (err e) = (c, err e)
update c remote (ok wall) =
    if ltb ((wall + c.max_skew_ms) % 2 ^ 64) (physical_ms remote)
    then (c, err (skew_exceeded ((physical_ms remote + 2 ^ 64 - wall) % 2 ^ 64) c.max_skew_ms))
    else commit c (next_update c.state remote wall)
