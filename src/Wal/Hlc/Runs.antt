-- ===== src/Wal/Hlc/Runs.antt =====
-- Any run of the clock of src/wal/hlc.rs: the events that `now` and `update` handle, one after
-- another (the clock's mutex makes them a sequence).
use grumpydb.Prelude.{
  ℕ, ◌+◌, ◌-◌, ◌%◌, ◌^◌, ◌≤◌, ◌<◌, ◌≡◌, ◌≢◌, ◌↔◌, refl, Bool, arith, List, [], ◌∷◌, Result, ok, err,
  ltb, ap, ltb→lt, lt→ltb, if◌then◌else◌, Bool-cases, inl, inr,
}
use grumpydb.Wal.Hlc.{
  Hlc, HlcClock, HlcError, physical_ms, logical, next_now, next_update, commit, now, update,
  skew_exceeded, logical_overflow,
}
use grumpydb.Wal.Hlc.Order.{next_now-lt, next_update-lt}

pub data Event : Type 0 where
  local : Result ℕ HlcError → Event
  receive : Hlc → Result ℕ HlcError → Event

unfoldable pub step : HlcClock → Event → HlcClock × Result Hlc HlcError
step c (local wall) = now c wall
step c (receive remote wall) = update c remote wall

-- The clock after the events, and the values that they issued, in order.
unfoldable pub issued : HlcClock → List Event → List Hlc
issued c [] = []
issued c (e ∷ es) =
    let (c', r) = step c e in elim r [ ok h ↦ h ∷ issued c' es | err _ ↦ issued c' es ]

abbrev pub Ascends : Hlc → List Hlc → Type 0
Ascends h [] = Unit
Ascends h (k ∷ ks) = (h < k) × Ascends k ks

abbrev pub WallFits : Result ℕ HlcError → Type 0
WallFits (ok ms) = ms < 2 ^ 48
WallFits (err e) = Unit

-- The wall clock fits 48 bits of milliseconds, and a remote value is a `u64`.
abbrev pub EventFits : Event → Type 0
EventFits (local wall) = WallFits wall
EventFits (receive remote wall) = (remote < 2 ^ 64) × WallFits wall

abbrev pub AllFit : List Event → Type 0
AllFit [] = Unit
AllFit (e ∷ es) = EventFits e × AllFit es

-- What a step does to the state: a value above it is issued and stored, or the clock is unchanged.
data Stepped (c : HlcClock) : HlcClock × Result Hlc HlcError → Type 0 where
  issue : {h : Hlc} → c.state < h → h < 2 ^ 64 → Stepped c (record c { state = h }, ok h)
  refuse : {e : HlcError} → Stepped c (c, err e)

commit-Stepped :
    (c : HlcClock) (r : Result Hlc HlcError)
    → ((h : Hlc) → r ≡ ok h → (c.state < h) × (h < 2 ^ 64))
    → Stepped c (commit c r)
commit-Stepped c (ok h) k = issue (k h refl).0 (k h refl).1
commit-Stepped c (err e) k = refuse

step-Stepped : (c : HlcClock) (e : Event) → c.state < 2 ^ 64 → EventFits e → Stepped c (step c e)
unfolding step now update
step-Stepped c (local (err e)) s f = refuse
step-Stepped c (local (ok wall)) s f =
    commit-Stepped c (next_now c.state wall)
      λ h q. let p = next_now-lt c.state wall s f q in (p.0, p.1)
step-Stepped c (receive remote (err e)) s f = refuse
step-Stepped c (receive remote (ok wall)) s f =
    elim (Bool-cases (ltb ((wall + c.max_skew_ms) % 2 ^ 64) (physical_ms remote))) [
      | inl far ↦ rw far refuse
      | inr near ↦ rw near (
          commit-Stepped c (next_update c.state remote wall)
            λ h q. let p = next_update-lt c.state remote wall s f.0 f.1 q in (p.0, p.2))
    ]

-- Over any events, with wall clocks below 2 ^ 48 ms and remote values of 64 bits, the issued values
-- ascend strictly, and the first is above the state that the clock began with.
pub issued-Ascends :
    (c : HlcClock) (es : List Event) → c.state < 2 ^ 64 → AllFit es → Ascends c.state (issued c es)
unfolding issued
issued-Ascends c [] s f = tt
issued-Ascends c (e ∷ es) s f =
    go (λ c' s'. issued-Ascends c' es s' f.1) (step c e) (step-Stepped c e s f.0)
  where
    go :
        ((c' : HlcClock) → c'.state < 2 ^ 64 → Ascends c'.state (issued c' es))
        → (out : HlcClock × Result Hlc HlcError) → Stepped c out
        → Ascends c.state (elim out.1 [ ok h ↦ h ∷ issued out.0 es | err _ ↦ issued out.0 es ])
    go rest out (issue {h = h} p q) = (p, rest (record c { state = h }) q)
    go rest out refuse = rest c s

-- `now` fails exactly when the wall clock has not passed the state's millisecond and the counter is
-- at its maximum; it then names that millisecond, and the clock is as it was.
pub now-overflow_iff :
    (c : HlcClock) (wall : ℕ)
    → (now c (ok wall) ≡ (c, err (logical_overflow (physical_ms c.state))))
      ↔ ((wall ≤ physical_ms c.state) × (logical c.state ≡ 2 ^ 16 - 1))
unfolding now next_now logical
now-overflow_iff c wall = ground arith

physical_ms-lt : (h : Hlc) → h < 2 ^ 64 → physical_ms h < 2 ^ 48
unfolding physical_ms
physical_ms-lt h f = omega arith

next_update-ne-skew : (s r wall a b : ℕ) → next_update s r wall ≢ err (skew_exceeded a b)
unfolding next_update
next_update-ne-skew s r wall a b = ground arith

commit-ne-skew :
    (c : HlcClock) (r : Result Hlc HlcError) (a b : ℕ)
    → r ≢ err (skew_exceeded a b)
    → commit c r ≢ (c, err (skew_exceeded a b))
commit-ne-skew c (ok h) a b n e = cc (ap (λ (p : HlcClock × Result Hlc HlcError). p.1) e)
commit-ne-skew c (err x) a b n e = n (ap (λ (p : HlcClock × Result Hlc HlcError). p.1) e)

-- `update` refuses a remote value exactly when its millisecond is past the wall clock by more than
-- the tolerance (while the sum of the two is a `u64`), and the clock is then as it was.
pub update-skew_iff :
    (c : HlcClock) (remote wall : ℕ)
    → remote < 2 ^ 64
    → wall + c.max_skew_ms < 2 ^ 64
    → (update c remote (ok wall)
        ≡ (c, err (skew_exceeded (physical_ms remote - wall) c.max_skew_ms)))
      ↔ (wall + c.max_skew_ms < physical_ms remote)
unfolding update
update-skew_iff c remote wall hr hw =
    let fits : (wall + c.max_skew_ms) % 2 ^ 64 ≡ wall + c.max_skew_ms = omega arith in
    rw fits (forth, back)
  where
    test : Bool
    test = ltb (wall + c.max_skew_ms) (physical_ms remote)

    forth :
        (if test
            then (
              c,
              err (skew_exceeded ((physical_ms remote + 2 ^ 64 - wall) % 2 ^ 64) c.max_skew_ms),
            )
            else commit c (next_update c.state remote wall))
          ≡ (c, err (skew_exceeded (physical_ms remote - wall) c.max_skew_ms))
        → wall + c.max_skew_ms < physical_ms remote
    forth e = elim (Bool-cases test) [
      | inl far ↦ ltb→lt _ _ far
      | inr near ↦ absurd (
          commit-ne-skew c (next_update c.state remote wall) _ _
            (next_update-ne-skew c.state remote wall _ _) (rw near at e))
    ]

    back :
        wall + c.max_skew_ms < physical_ms remote
        → (if test
            then (
              c,
              err (skew_exceeded ((physical_ms remote + 2 ^ 64 - wall) % 2 ^ 64) c.max_skew_ms),
            )
            else commit c (next_update c.state remote wall))
          ≡ (c, err (skew_exceeded (physical_ms remote - wall) c.max_skew_ms))
    back h =
        let small = physical_ms-lt remote hr in
        let diff : (physical_ms remote + 2 ^ 64 - wall) % 2 ^ 64 ≡ physical_ms remote - wall =
          omega arith in
        rw (lt→ltb _ _ h) (rw diff)
