-- ===== src/Wal/Applied.antt =====
-- `AppliedSet` of src/wal/applied_set.rs: the highest clock value applied from each origin. The text
-- of a UUID is a parameter, which gives different ids different texts; the file that holds the set
-- is not modelled.
use grumpydb.Prelude.{
  ℕ, ◌≤◌, ◌<◌, ◌≡◌, ◌↔◌, ◌⊎◌, inl, inr, refl, ap, arith, max, List, Option, none, some, [], ◌∷◌,
  ltb, ◌==◌, if◌then◌else◌,
}
use grumpydb.Prelude.Bytes.{Bytes}
use grumpydb.Prelude.Order.{bytes_ord, bytes_refl, bytes_eq}
use grumpydb.Prelude.Map
use grumpydb.Prelude.Map.{Map, insert, is_eq, get-insert}
use grumpydb.Wal.Hlc.{Hlc}

pub data ObserveOutcome : Type 0 where
  new_record already_applied : ObserveOutcome

pub record AppliedSet : Type 0 where
  pub last_applied : Map Bytes ℕ
  pub schema_version : ℕ

abbrev pub default_set : AppliedSet
default_set = record { last_applied = []; schema_version = 1 }

abbrev pub value_or_zero : Option ℕ → ℕ
value_or_zero none = 0
value_or_zero (some n) = n

module _ (hyphenated : ℕ → Bytes) where
  unfoldable pub high_water : AppliedSet → ℕ → Hlc
  high_water s origin = value_or_zero (Map.get (hyphenated origin) s.last_applied)

  -- `entry(key).or_insert(0)` leaves an entry behind, whatever the outcome.
  unfoldable pub observe : ℕ → Hlc → AppliedSet → AppliedSet × ObserveOutcome
  observe origin h s =
      let key = hyphenated origin in
      let entry = value_or_zero (Map.get key s.last_applied) in
      if ltb entry h
      then (record s { last_applied = insert key h s.last_applied }, new_record)
      else (record s { last_applied = insert key entry s.last_applied }, already_applied)

  -- A replay of records, each the origin and the clock value.
  unfoldable pub observe_all : List (ℕ × Hlc) → AppliedSet → AppliedSet
  observe_all [] s = s
  observe_all ((origin, h) ∷ rest) s = observe_all rest (observe origin h s).0

-- The pair stands in the list.
abbrev pub Occurs : ℕ → Hlc → List (ℕ × Hlc) → Type 0
Occurs origin h [] = ◌<◌ 1 0
Occurs origin h ((o, k) ∷ rest) = ((origin ≡ o) × (h ≡ k)) ⊎ Occurs origin h rest

-- A record is new exactly when it is above the high-water mark of its origin, which becomes the
-- larger of the two, and the marks of all other origins are as they were. Different origins have
-- different texts.
pub high_water-observe :
    (hyphenated : ℕ → Bytes) (s : AppliedSet) (origin k : ℕ) (h : Hlc)
    → ((a b : ℕ) → hyphenated a ≡ hyphenated b → a ≡ b)
    → ((observe hyphenated origin h s).1 ≡ new_record ↔ high_water hyphenated s origin < h)
      × (high_water hyphenated (observe hyphenated origin h s).0 k ≡ (
          if k == origin
          then max (high_water hyphenated s origin) h
          else high_water hyphenated s k))
unfolding observe high_water
high_water-observe hyphenated s origin k h inj =
    let own = hyphenated origin in
    let other = hyphenated k in
    let entry = value_or_zero (Map.get own s.last_applied) in
    (
      ground arith,
      ground (
        arith,
        get-insert own other h s.last_applied,
        get-insert own other entry s.last_applied,
        bytes_eq other own,
        bytes_refl own,
        ap hyphenated {x = k} {y = origin},
        inj k origin,
      ),
    )

observe_all-above :
    (hyphenated : ℕ → Bytes) (es : List (ℕ × Hlc)) (s : AppliedSet) (k : ℕ)
    → ((a b : ℕ) → hyphenated a ≡ hyphenated b → a ≡ b)
    → high_water hyphenated s k ≤ high_water hyphenated (observe_all hyphenated es s) k
unfolding observe_all
observe_all-above hyphenated [] s k inj = omega arith
observe_all-above hyphenated ((o, h) ∷ es) s k inj =
    let s' = (observe hyphenated o h s).0 in
    let later = observe_all-above hyphenated es s' k inj in
    ground (
      arith,
      later,
      (high_water-observe hyphenated s o k h inj).1,
      ap (high_water hyphenated s) {x = k} {y = o},
    )

observe_all-Occurs :
    (hyphenated : ℕ → Bytes) (es : List (ℕ × Hlc)) (s : AppliedSet) (origin : ℕ) (h : Hlc)
    → ((a b : ℕ) → hyphenated a ≡ hyphenated b → a ≡ b)
    → Occurs origin h es
    → h ≤ high_water hyphenated (observe_all hyphenated es s) origin
unfolding observe_all
observe_all-Occurs hyphenated ((o, k) ∷ es) s origin h inj (inl (e, f)) =
    let s' = (observe hyphenated o k s).0 in
    rw (e, f)
      (ground (
        arith,
        observe_all-above hyphenated es s' o inj,
        (high_water-observe hyphenated s o o k inj).1,
      ))
observe_all-Occurs hyphenated ((o, k) ∷ es) s origin h inj (inr later) =
    observe_all-Occurs hyphenated es (observe hyphenated o k s).0 origin h inj later
observe_all-Occurs hyphenated [] s origin h inj none_left = absurd (omega (arith, none_left))

-- Once records have been replayed, in any order, each of them is found to be applied already and its
-- replay leaves every high-water mark as it is, if different origins have different texts.
pub observe-observe_all :
    (hyphenated : ℕ → Bytes) (es : List (ℕ × Hlc)) (s : AppliedSet) (origin k : ℕ) (h : Hlc)
    → ((a b : ℕ) → hyphenated a ≡ hyphenated b → a ≡ b)
    → Occurs origin h es
    → ((observe hyphenated origin h (observe_all hyphenated es s)).1 ≡ already_applied)
      × (high_water hyphenated (observe hyphenated origin h (observe_all hyphenated es s)).0 k
          ≡ high_water hyphenated (observe_all hyphenated es s) k)
observe-observe_all hyphenated es s origin k h inj o =
    let s' = observe_all hyphenated es s in
    let above = observe_all-Occurs hyphenated es s origin h inj o in
    let step = high_water-observe hyphenated s' origin k h inj in
    (
      already _ step.0 above,
      ground (arith, step.1, above, ap (high_water hyphenated s') {x = k} {y = origin}),
    )
  where
    already :
        {a b : ℕ} (r : ObserveOutcome) → (r ≡ new_record ↔ a < b) → b ≤ a → r ≡ already_applied
    already new_record t le = absurd (omega (arith, t.0 refl))
    already already_applied t le = refl
