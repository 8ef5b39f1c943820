-- ===== src/Replication/Lag.antt =====
-- `LagTracker` of grumpydb-replication/src/lag_tracker.rs. The atomic and the mutex hold explicit
-- state; a poisoned mutex is left out, since no code panics while it is held. A peer's UUID is a
-- number.
use grumpydb.Prelude.{
  ℕ, ◌-◌, ◌≤◌, ◌≡◌, ◌↔◌, refl, arith, max, Option, none, some, [], ◌∷◌, if◌then◌else◌,
}
use grumpydb.Prelude.Order.{nat_ord}
use grumpydb.Prelude.Map
use grumpydb.Prelude.Map.{Map, insert, is_eq, get-insert}

pub record LagTracker : Type 0 where
  pub peer_hlc : Map ℕ ℕ
  pub leader_hlc : ℕ

abbrev pub new_tracker : LagTracker
new_tracker = record { peer_hlc = []; leader_hlc = 0 }

unfoldable pub set_leader_hlc : ℕ → LagTracker → LagTracker
set_leader_hlc hlc t = record t { leader_hlc = hlc }

unfoldable pub set_peer_hlc : ℕ → ℕ → LagTracker → LagTracker
set_peer_hlc peer hlc t = record t { peer_hlc = insert peer hlc t.peer_hlc }

-- `leader.saturating_sub(peer)` is the subtraction of ℕ.
unfoldable pub peer_lag : LagTracker → ℕ → Option ℕ
peer_lag t peer = elim (Map.get peer t.peer_hlc) [
  | none ↦ none
  | some hlc ↦ some (t.leader_hlc - hlc)
]

-- `map.values().map(..).max()`, over a map that is not empty
unfoldable pub max_over : ℕ → ℕ → Map ℕ ℕ → ℕ
max_over leader hlc [] = leader - hlc
max_over leader hlc ((_, other) ∷ rest) = max (leader - hlc) (max_over leader other rest)

unfoldable pub max_lag : LagTracker → Option ℕ
max_lag t = elim t.peer_hlc [ [] ↦ none | (_, hlc) ∷ rest ↦ some (max_over t.leader_hlc hlc rest) ]

unfoldable pub lags_of : ℕ → Map ℕ ℕ → Map ℕ ℕ
lags_of leader [] = []
lags_of leader ((peer, hlc) ∷ rest) = (peer, leader - hlc) ∷ lags_of leader rest

unfoldable pub all_lags : LagTracker → Map ℕ ℕ
all_lags t = lags_of t.leader_hlc t.peer_hlc

get-lags_of :
    (leader k : ℕ) (m : Map ℕ ℕ)
    → Map.get k (lags_of leader m)
      ≡ elim (Map.get k m) [ none ↦ none | some hlc ↦ some (leader - hlc) ]
unfolding lags_of Map.get
get-lags_of leader k [] = refl
get-lags_of leader k ((p, h) ∷ m) = ground (arith, get-lags_of leader k m)

max_over-peer :
    (leader hlc p k : ℕ) (m : Map ℕ ℕ) (h : ℕ)
    → Map.get k ((p, hlc) ∷ m) ≡ some h
    → leader - h ≤ max_over leader hlc m
unfolding max_over Map.get
max_over-peer leader hlc p k [] h e = ground arith
max_over-peer leader hlc p k ((q, other) ∷ m) h e =
    ground (arith, max_over-peer leader other q k m h)

-- After an acknowledgement the lag of the peer is the leader's clock less the one acknowledged, at
-- least 0, and the lags of the others are as they were.
pub peer_lag-set_peer_hlc :
    (t : LagTracker) (peer hlc k : ℕ)
    → peer_lag (set_peer_hlc peer hlc t) k
      ≡ (if is_eq (nat_ord.cmp k peer) then some (t.leader_hlc - hlc) else peer_lag t k)
unfolding peer_lag set_peer_hlc
peer_lag-set_peer_hlc t peer hlc k = ground (arith, get-insert peer k hlc t.peer_hlc)

-- `all_lags` lists for each peer what `peer_lag` says, and `max_lag` is absent exactly when there is
-- no peer.
pub all_lags-peer_lag :
    (t : LagTracker) (k : ℕ)
    → (Map.get k (all_lags t) ≡ peer_lag t k) × ((max_lag t ≡ none) ↔ (t.peer_hlc ≡ []))
unfolding all_lags peer_lag max_lag
all_lags-peer_lag t k = (get-lags_of t.leader_hlc k t.peer_hlc, ground arith)

-- No lag of a peer is above `max_lag`.
pub peer_lag-le-max_lag :
    (t : LagTracker) (k lag most : ℕ) → peer_lag t k ≡ some lag → max_lag t ≡ some most → lag ≤ most
unfolding peer_lag max_lag
peer_lag-le-max_lag t k lag most e f = bound t.peer_hlc e f
  where
    at_most :
        (o : Option ℕ)
        → ((h : ℕ) → o ≡ some h → t.leader_hlc - h ≤ most)
        → elim o [ none ↦ none | some hlc ↦ some (t.leader_hlc - hlc) ] ≡ some lag
        → lag ≤ most
    at_most none g e = cc
    at_most (some h) g e = ground (arith, g h refl)

    bound :
        (m : Map ℕ ℕ)
        → elim (Map.get k m) [ none ↦ none | some hlc ↦ some (t.leader_hlc - hlc) ] ≡ some lag
        → elim m [ [] ↦ none | (_, hlc) ∷ rest ↦ some (max_over t.leader_hlc hlc rest) ] ≡ some most
        → lag ≤ most
    bound [] e f = cc
    bound ((p, hlc) ∷ m) e f =
        at_most (Map.get k ((p, hlc) ∷ m))
          (λ h q. ground (arith, max_over-peer t.leader_hlc hlc p k m h q)) e
