-- ===== src/Cluster/ReadRepair.antt =====
-- The queue of grumpydb-server/src/cluster/read_repair.rs. The file is its lines, or missing, and
-- its I/O succeeds. JSON, the test for a blank line and the coordinator are parameters.
pub mod Queue
use grumpydb.Prelude.{
  ℕ, zero, suc, ◌+◌, ◌≡◌, refl, ap, arith, Bool, true, false, Option, none, some, List, [], ◌∷◌,
  ◌++◌, map, Result, ok, err, ◌>>=◌, ◌==◌, if◌then◌else◌, length, take, drop,
}
use grumpydb.Prelude.Bytes.{Bytes}

pub record ReadRepairIntent : Type 0 where
  pub created_at_unix : ℕ
  pub tenant : Bytes
  pub database : Bytes
  pub collection : Bytes
  pub key : Bytes
  pub target_node_id : Bytes
  pub value_json : Bytes
  pub reason : Bytes

abbrev pub File : Type 0
File = Option (List Bytes)

-- the limit that the worker drains with
abbrev pub drain_limit : ℕ
drain_limit = 64

module _ (to_string : ReadRepairIntent → Bytes) where
  unfoldable pub append : ReadRepairIntent → File → File
  append intent none = some (to_string intent ∷ [])
  append intent (some lines) = some (lines ++ (to_string intent ∷ []))

module _ (is_blank : Bytes → Bool) where
  unfoldable pub count : List Bytes → ℕ
  count [] = 0
  count (line ∷ lines) = if is_blank line then count lines else suc (count lines)

  unfoldable pub backlog_len : File → ℕ
  backlog_len none = 0
  backlog_len (some lines) = count lines

unfoldable pub rewrite : List Bytes → File
rewrite [] = none
rewrite (line ∷ lines) = some (line ∷ lines)

module _ (is_blank : Bytes → Bool) (from_str : Bytes → Result ReadRepairIntent Bytes) where
  -- The drained intents, of which there is still room for some, and the lines that are kept.
  unfoldable pub sift : ℕ → List Bytes → Result (List ReadRepairIntent × List Bytes) Bytes
  sift room [] = ok ([], [])
  sift zero (line ∷ lines) = elim (is_blank line) [
    | true ↦ sift zero lines
    | false ↦ sift zero lines >>= λ p. ok (p.0, line ∷ p.1)
  ]
  sift (suc room) (line ∷ lines) = elim (is_blank line) [
    | true ↦ sift (suc room) lines
    | false ↦ from_str line >>= λ intent. sift room lines >>= λ p. ok (intent ∷ p.0, p.1)
  ]

  unfoldable pub drain : ℕ → File → File × Result (List ReadRepairIntent) Bytes
  unfolding rewrite sift
  drain limit none = (none, ok [])
  drain limit (some lines) =
      if limit == 0
      then (some lines, ok [])
      else elim (sift limit lines) [ err e ↦ (some lines, err e) | ok p ↦ (rewrite p.1, ok p.0) ]

module _ {S : Type 0} (to_string : ReadRepairIntent → Bytes)
    (repair_peer_value : S → ReadRepairIntent → S × Result (Unit {0}) Bytes) where
  unfoldable pub replay : List ReadRepairIntent → S → File → S × File
  unfolding append
  replay [] s file = (s, file)
  replay (intent ∷ intents) s file =
      let (s', r) = repair_peer_value s intent in
      replay intents s' (elim r [ ok _ ↦ file | err _ ↦ append to_string intent file ])

  -- One turn of the worker's loop.
  unfoldable pub tick :
      (Bytes → Bool) → (Bytes → Result ReadRepairIntent Bytes) → S → File → S × File
  unfolding drain replay
  tick is_blank from_str s file =
      let (file', r) = drain is_blank from_str drain_limit file in
      elim r [ ok intents ↦ replay intents s file' | err _ ↦ (s, file') ]
