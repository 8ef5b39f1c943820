-- ===== src/Wal/Hlc/Order.antt =====
-- What one event of the clock of src/wal/hlc.rs issues.
use grumpydb.Prelude.{ℕ, ◌^◌, ◌≤◌, ◌<◌, ◌≡◌, ◌↔◌, ◌⊎◌, arith, max, ok}
use grumpydb.Wal.Hlc.{Hlc, pack, physical_ms, logical, next_now, next_update}

pack_fields :
    (p l : ℕ) → p < 2 ^ 48 → l < 2 ^ 16 → (physical_ms (pack p l) ≡ p) × (logical (pack p l) ≡ l)
unfolding pack physical_ms logical
pack_fields p l hp hl = omega arith

-- Packed values are ordered by the millisecond first and by the counter within it.
pub pack-lt_iff :
    (p l q m : ℕ)
    → p < 2 ^ 48
    → l < 2 ^ 16
    → q < 2 ^ 48
    → m < 2 ^ 16
    → (pack p l < pack q m) ↔ ((p < q) ⊎ ((p ≡ q) × (l < m)))
unfolding pack
pack-lt_iff p l q m hp hl hq hm = (λ h. omega arith, λ h. omega arith)

-- What `now` issues is above the state, and not before the wall clock.
pub next_now-lt :
    (s wall : ℕ) {h : Hlc}
    → s < 2 ^ 64
    → wall < 2 ^ 48
    → next_now s wall ≡ ok h
    → (s < h) × (h < 2 ^ 64) × (wall ≤ physical_ms h)
unfolding next_now pack physical_ms logical
next_now-lt s wall hs hw e = ground arith

-- What `update` issues, once the skew is accepted, is above both the state and the remote value, and
-- its millisecond is the largest of the three. State and remote value are of 64 bits, the wall clock
-- of 48.
pub next_update-lt :
    (s r wall : ℕ) {h : Hlc}
    → s < 2 ^ 64
    → r < 2 ^ 64
    → wall < 2 ^ 48
    → next_update s r wall ≡ ok h
    → (s < h)
      × (r < h)
      × (h < 2 ^ 64)
      × (physical_ms h ≡ max (max wall (physical_ms s)) (physical_ms r))
unfolding next_update pack physical_ms logical
next_update-lt s r wall hs hr hw e = ground arith
