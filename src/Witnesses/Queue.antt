-- ===== src/Witnesses/Queue.antt =====
-- The queue of read-repair intents on concrete values.
use grumpydb.Prelude.{
  ℕ, ◌+◌, ◌≡◌, refl, ap, Bool, true, false, Option, none, some, [], ◌∷◌, List, Result, ok, err,
  zero, suc,
}
use grumpydb.Prelude.Bytes.{Bytes}
use grumpydb.Cluster.ReadRepair.{ReadRepairIntent, append, backlog_len, drain, tick}
use grumpydb.Cluster.ReadRepair.Queue.{IsLawful, stored, unrepaired, queue_lem}
use grumpydb.Witnesses.Json.{Code, nat_code, bytes_code, pair_code, whole, whole_back}

abbrev Pair : Type 0
Pair = Bytes × Bytes

pair : Code (λ (p : Pair). Unit {0} × Unit {0})
pair = pair_code bytes_code bytes_code

abbrev Both : Pair → Type 0
Both p = Unit {0} × Unit {0}

four : Code (λ (p : Pair × Pair). Both p.0 × Both p.1)
four = pair_code pair pair

abbrev Quad : Pair × Pair → Type 0
Quad p = Both p.0 × Both p.1

code : Code (λ (p : (ℕ × Bytes) × (Pair × (Pair × Pair))).
    (Unit {0} × Unit {0}) × (Both p.1.0 × Quad p.1.1))
code = pair_code (pair_code nat_code bytes_code) (pair_code pair four)

abbrev parts : ReadRepairIntent → (ℕ × Bytes) × (Pair × (Pair × Pair))
parts i = (
  (i.created_at_unix, i.tenant),
  ((i.database, i.collection), ((i.key, i.target_node_id), (i.value_json, i.reason))),
)

abbrev made : Option ((ℕ × Bytes) × (Pair × (Pair × Pair))) → Result ReadRepairIntent Bytes
made none = err []
made (some v) = ok (record {
  created_at_unix = v.0.0;
  tenant = v.0.1;
  database = v.1.0.0;
  collection = v.1.0.1;
  key = v.1.1.0.0;
  target_node_id = v.1.1.0.1;
  value_json = v.1.1.1.0;
  reason = v.1.1.1.1;
})

-- A line is never empty, and only the empty one is blank.
abbrev to_string : ReadRepairIntent → Bytes
to_string i = 123 ∷ code.enc (parts i)

abbrev from_str : Bytes → Result ReadRepairIntent Bytes
from_str [] = err []
from_str (_ ∷ line) = made (whole (code.dec line))

abbrev is_blank : Bytes → Bool
is_blank [] = true
is_blank (_ ∷ _) = false

lawful : IsLawful to_string is_blank from_str
lawful = record {
  visible = λ i. refl;
  back = λ i. ap made (whole_back code (parts i) ((tt, tt), ((tt, tt), ((tt, tt), (tt, tt)))));
}

abbrev intent : ℕ → ReadRepairIntent
intent n = record {
  created_at_unix = n;
  tenant = 116 ∷ [];
  database = 100 ∷ [];
  collection = 117 ∷ [];
  key = n ∷ [];
  target_node_id = 98 ∷ [];
  value_json = 49 ∷ [];
  reason = [];
}

-- A coordinator that counts its calls, of which the first one fails.
abbrev repair_after_one : ℕ → ReadRepairIntent → ℕ × Result (Unit {0}) Bytes
repair_after_one n i = (n + 1, elim n [ zero ↦ err [] | suc _ ↦ ok tt ])

abbrev two_intents : List ReadRepairIntent
two_intents = intent 1 ∷ intent 2 ∷ []

queue_lem_example :
    (append to_string (intent 3) (stored to_string two_intents)
      ≡ stored to_string (intent 1 ∷ intent 2 ∷ intent 3 ∷ []))
    × (backlog_len is_blank (stored to_string two_intents) ≡ 2)
    × (drain is_blank from_str 1 (stored to_string two_intents)
        ≡ (stored to_string (intent 2 ∷ []), ok (intent 1 ∷ [])))
    × (tick to_string repair_after_one is_blank from_str 0 (stored to_string two_intents)
        ≡ (2, stored to_string (intent 1 ∷ [])))
unfolding unrepaired
queue_lem_example =
    queue_lem to_string is_blank from_str repair_after_one lawful two_intents (intent 3) 1 0
