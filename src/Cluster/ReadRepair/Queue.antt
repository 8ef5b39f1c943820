-- ===== src/Cluster/ReadRepair/Queue.antt =====
-- The file of read-repair intents as a queue: grumpydb-server/src/cluster/read_repair.rs.
use grumpydb.Prelude.{
  ℕ, zero, suc, ◌≡◌, refl, sym, ap, arith, Bool, false, some, List, [], ◌∷◌, ◌++◌, append-nil,
  append_assoc, map, Result, ok, err, Split, Result-cases, length, take, drop,
}
use grumpydb.Prelude.Bytes.{Bytes}
use grumpydb.Cluster.ReadRepair.{
  ReadRepairIntent, File, append, backlog_len, count, sift, rewrite, drain, replay, tick,
}

-- An intent is written as a line that is not blank and is read back.
pub record IsLawful (to_string : ReadRepairIntent → Bytes) (is_blank : Bytes → Bool)
    (from_str : Bytes → Result ReadRepairIntent Bytes) : Type 0 where
  pub visible : (i : ReadRepairIntent) → is_blank (to_string i) ≡ false
  pub back : (i : ReadRepairIntent) → from_str (to_string i) ≡ ok i

-- The file of a queue: none for an empty one.
abbrev pub stored : (ReadRepairIntent → Bytes) → List ReadRepairIntent → File
stored to_string intents = rewrite (map to_string intents)

-- The intents that the coordinator fails to repair, and its state after all of them.
unfoldable pub unrepaired :
    {S : Type 0} (repair_peer_value : S → ReadRepairIntent → S × Result (Unit {0}) Bytes)
    → List ReadRepairIntent
    → S
    → S × List ReadRepairIntent
unrepaired repair_peer_value [] s = (s, [])
unrepaired repair_peer_value (intent ∷ intents) s =
    let (s', r) = repair_peer_value s intent in
    let (s'', failed) = unrepaired repair_peer_value intents s' in
    (s'', elim r [ ok _ ↦ failed | err _ ↦ intent ∷ failed ])

module _ (to_string : ReadRepairIntent → Bytes) where
  map_snoc :
      (xs : List ReadRepairIntent) (i : ReadRepairIntent)
      → map to_string (xs ++ (i ∷ [])) ≡ map to_string xs ++ (to_string i ∷ [])
  map_snoc [] i = refl
  map_snoc (x ∷ xs) i = ap (◌∷◌ (to_string x)) (map_snoc xs i)

  append-stored :
      (i : ReadRepairIntent) (xs : List ReadRepairIntent)
      → append to_string i (stored to_string xs) ≡ stored to_string (xs ++ (i ∷ []))
  unfolding append rewrite
  append-stored i [] = refl
  append-stored i (x ∷ xs) = ap (λ l. some (to_string x ∷ l)) (sym (map_snoc xs i))

module _ (to_string : ReadRepairIntent → Bytes) (is_blank : Bytes → Bool)
    (from_str : Bytes → Result ReadRepairIntent Bytes)
    (lawful : IsLawful to_string is_blank from_str) where
  count_lem : (xs : List ReadRepairIntent) → count is_blank (map to_string xs) ≡ length xs
  unfolding count
  count_lem [] = refl
  count_lem (x ∷ xs) = rw (lawful.visible x) (ap suc (count_lem xs))

  sift_lem :
      (room : ℕ) (xs : List ReadRepairIntent)
      → sift is_blank from_str room (map to_string xs)
        ≡ ok (take room xs, map to_string (drop room xs))
  unfolding sift
  sift_lem zero [] = refl
  sift_lem (suc room) [] = refl
  sift_lem zero (x ∷ xs) = rw (lawful.visible x) (rw (sift_lem zero xs) refl)
  sift_lem (suc room) (x ∷ xs) = rw (lawful.visible x, lawful.back x) (rw (sift_lem room xs) refl)

  drain-stored :
      (limit : ℕ) (xs : List ReadRepairIntent)
      → drain is_blank from_str limit (stored to_string xs)
        ≡ (stored to_string (drop limit xs), ok (take limit xs))
  unfolding drain rewrite
  drain-stored zero [] = refl
  drain-stored (suc limit) [] = refl
  drain-stored zero (x ∷ xs) = refl
  drain-stored (suc limit) (x ∷ xs) = rw (sift_lem (suc limit) (x ∷ xs)) (ground arith)

  backlog_len-stored :
      (xs : List ReadRepairIntent) → backlog_len is_blank (stored to_string xs) ≡ length xs
  unfolding backlog_len rewrite
  backlog_len-stored [] = refl
  backlog_len-stored (x ∷ xs) = count_lem (x ∷ xs)

module _ {S : Type 0} (to_string : ReadRepairIntent → Bytes)
    (repair_peer_value : S → ReadRepairIntent → S × Result (Unit {0}) Bytes) where
  replay-stored :
      (todo : List ReadRepairIntent) (s : S) (xs : List ReadRepairIntent)
      → replay to_string repair_peer_value todo s (stored to_string xs) ≡ (
        (unrepaired repair_peer_value todo s).0,
        stored to_string (xs ++ (unrepaired repair_peer_value todo s).1),
      )
  unfolding replay unrepaired
  replay-stored [] s xs = rw (append-nil xs) refl
  replay-stored (i ∷ todo) s xs = elim (Result-cases (repair_peer_value s i).1) [
    | Split.returned _ e ↦ rw e (replay-stored todo (repair_peer_value s i).0 xs)
    | Split.raised _ e ↦ rw e (
        rw (append-stored to_string i xs) (
          rw (replay-stored todo (repair_peer_value s i).0 (xs ++ (i ∷ []))) (
            rw
              (append_assoc xs (i ∷ [])
                (unrepaired repair_peer_value todo (repair_peer_value s i).0).1)
              refl)))
  ]

-- The file implements a queue of intents: `append` puts one behind the others, `backlog_len` is
-- their number, `drain` takes the first `limit` of them off the front, and a turn of the worker
-- takes the first 64, repairs them in order and puts those that fail behind the rest, each once.
-- An intent is written as a line that is not blank and is read back.
pub queue_lem :
    {S : Type 0} (to_string : ReadRepairIntent → Bytes) (is_blank : Bytes → Bool)
    (from_str : Bytes → Result ReadRepairIntent Bytes)
    (repair_peer_value : S → ReadRepairIntent → S × Result (Unit {0}) Bytes)
    → IsLawful to_string is_blank from_str
    → (xs : List ReadRepairIntent) (i : ReadRepairIntent) (limit : ℕ) (s : S)
    → (append to_string i (stored to_string xs) ≡ stored to_string (xs ++ (i ∷ [])))
      × (backlog_len is_blank (stored to_string xs) ≡ length xs)
      × (drain is_blank from_str limit (stored to_string xs)
          ≡ (stored to_string (drop limit xs), ok (take limit xs)))
      × (tick to_string repair_peer_value is_blank from_str s (stored to_string xs) ≡ (
        (unrepaired repair_peer_value (take 64 xs) s).0,
        stored to_string (drop 64 xs ++ (unrepaired repair_peer_value (take 64 xs) s).1),
      ))
unfolding tick
queue_lem to_string is_blank from_str repair_peer_value lawful xs i limit s =
    let taken = drain-stored to_string is_blank from_str lawful 64 xs in
    (
      append-stored to_string i xs,
      backlog_len-stored to_string is_blank from_str lawful xs,
      drain-stored to_string is_blank from_str lawful limit xs,
      rw (tick, taken)
          (rw taken (replay-stored to_string repair_peer_value (take 64 xs) s (drop 64 xs))),
    )
