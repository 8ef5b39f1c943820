-- ===== src/Witnesses/Replicas.antt =====
-- Replication on concrete values.
use grumpydb.Prelude.{
  ℕ, ◌≡◌, ◌↔◌, refl, inl, inr, arith, ◌&&◌, List, some, [], ◌∷◌, ok, if◌then◌else◌,
}
use grumpydb.Prelude.Bytes.{Bytes}
use grumpydb.Prelude.Order.{bytes_ord, cmp_bytes}
use grumpydb.Prelude.Map.{is_eq}
use grumpydb.Replication.Writer.{WriterAssignment, check_writer, lookup, elect, elect-check_writer}
use grumpydb.Wal.Hlc.{Hlc}
use grumpydb.Wal.Applied.{
  already_applied, default_set, high_water, observe, observe_all, observe-observe_all,
}

-- Node 1 is the default of database "a", and node 2 writes to "a/b".
abbrev assigned : WriterAssignment
assigned = record { exact = (97 ∷ 47 ∷ 98 ∷ [], 2 ∷ []) ∷ []; defaults = (97 ∷ [], 1 ∷ []) ∷ [] }

elect-check_writer_example :
    ((check_writer (elect (3 ∷ []) (97 ∷ []) (some (98 ∷ [])) assigned) (3 ∷ []) (97 ∷ []) (98 ∷ [])
        ≡ ok tt)
      ↔ (◌≡◌ {A = Bytes} (3 ∷ []) (3 ∷ [])))
    × (lookup (elect (3 ∷ []) (97 ∷ []) (some (98 ∷ [])) assigned) (97 ∷ []) (99 ∷ []) ≡ (
        if is_eq (cmp_bytes (97 ∷ []) (97 ∷ [])) && is_eq (cmp_bytes (99 ∷ []) (98 ∷ []))
        then some (3 ∷ [])
        else lookup assigned (97 ∷ []) (99 ∷ [])))
elect-check_writer_example =
    elect-check_writer assigned (3 ∷ []) (97 ∷ []) (98 ∷ []) (97 ∷ []) (99 ∷ []) (3 ∷ [])
      ((λ e. omega (arith, e)), tt) ((λ e. omega (arith, e)), tt)

-- A text of an id: its number alone.
abbrev text : ℕ → Bytes
text n = n ∷ []

text-injective : (a b : ℕ) → text a ≡ text b → a ≡ b
text-injective a b e = cc

abbrev seen : List (ℕ × Hlc)
seen = (4, 9) ∷ (5, 3) ∷ (4, 7) ∷ []

observe-observe_all_example :
    ((observe text 4 7 (observe_all text seen default_set)).1 ≡ already_applied)
    × (high_water text (observe text 4 7 (observe_all text seen default_set)).0 5
        ≡ high_water text (observe_all text seen default_set) 5)
observe-observe_all_example =
    observe-observe_all text seen default_set 4 5 7 text-injective (inr (inr (inl (refl, refl))))
