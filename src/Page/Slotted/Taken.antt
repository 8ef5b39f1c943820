-- ===== src/Page/Slotted/Taken.antt =====
-- The slot that `insert` of src/page/slotted.rs takes.
use grumpydb.Prelude.{
  ℕ, zero, suc, ◌+◌, ◌%◌, ◌^◌, ◌≤◌, ◌<◌, ◌≡◌, refl, sym, ap, ◌∙◌, arith, Option, none, some, length,
  slice,
}
use grumpydb.Prelude.Splice.{
  splice, length-splice, slice-splice_self, slice-splice_before, slice-splice_after,
}
use grumpydb.Prelude.Bytes.{
  to_le_bytes, from_le_bytes, length-to_le_bytes, from_le_bytes-to_le_bytes,
}
use grumpydb.Page.Slotted.{
  SlottedPage, page_id, num_slots, free_space_start, free_space_end, set_num_slots,
  set_free_space_start, free_space, slot_offset, find_from, find_tombstone_slot, take_slot,
}
use grumpydb.Page.Slotted.Access.{IsPage}

find_from-lt : (p : SlottedPage) (i n : ℕ) {k : ℕ} → find_from p i n ≡ some k → k < i + n
unfolding find_from
find_from-lt p i zero e = cc
find_from-lt p i (suc n) {k = k} e = ground (arith, find_from-lt p (i + 1) n {k = k})

-- What `take_slot` gives: a slot of the array, which has grown by it or is as it was.
pub record Taken (p : SlottedPage) (i : ℕ) (q : SlottedPage) : Type 0 where
  pub full : length q ≡ length p
  pub id : page_id q ≡ page_id p
  pub end : free_space_end q ≡ free_space_end p
  pub starts : free_space_start q ≡ slot_offset (num_slots q)
  pub within : i < num_slots q
  pub grows : num_slots p ≤ num_slots q
  pub others : num_slots q ≤ num_slots p + 1
  pub last : num_slots p < num_slots q → i ≡ num_slots p
  pub kept : (s n : ℕ) → 32 ≤ s → slice s n q ≡ slice s n p

module _ (p : SlottedPage) (t : IsPage p) (room : 4 ≤ free_space p) where
  abbrev count : ℕ
  count = num_slots p + 1

  count_small : slot_offset count ≤ 8192
  unfolding slot_offset free_space
  count_small = omega (arith, t.slots_fit, t.end_fits, t.starts, room)

  abbrev grown : SlottedPage
  grown = splice 8 (to_le_bytes 2 (slot_offset count)) (splice 6 (to_le_bytes 2 count) p)

  grown-Taken : Taken p (num_slots p) grown
  grown-Taken = record {
    full =
        length-splice 8 (to_le_bytes 2 (slot_offset count)) _
        ∙ length-splice 6 (to_le_bytes 2 count) p;
    id = unfold page_id in ap from_le_bytes (before 0 4 (omega arith));
    end = unfold free_space_end in ap from_le_bytes (after 10 2 (omega arith));
    starts = start ∙ ap slot_offset (sym num);
    within = omega (arith, num);
    grows = omega (arith, num);
    others = omega (arith, num);
    last = λ h. refl;
    kept = λ s n h. after s n (omega (arith, h));
  }
    where
      before : (s n : ℕ) → s + n ≤ 6 → slice s n grown ≡ slice s n p
      before s n h =
          slice-splice_before s n 8 (to_le_bytes 2 (slot_offset count)) _ (omega (arith, h))
          ∙ slice-splice_before s n 6 (to_le_bytes 2 count) p h

      after : (s n : ℕ) → 10 ≤ s → slice s n grown ≡ slice s n p
      after s n h =
          slice-splice_after s n 8 (to_le_bytes 2 (slot_offset count)) _
            (omega (arith, h, length-to_le_bytes 2 (slot_offset count)))
          ∙ slice-splice_after s n 6 (to_le_bytes 2 count) p
              (omega (arith, h, length-to_le_bytes 2 count))

      num : num_slots grown ≡ count
      num =
          unfold num_slots in
          (ap from_le_bytes (
              slice-splice_before 6 2 8 (to_le_bytes 2 (slot_offset count)) _ (omega arith)
              ∙ slice-splice_self 6 2 (to_le_bytes 2 count) p (sym (length-to_le_bytes 2 count))
                  (omega (arith, t.full)))
            ∙ from_le_bytes-to_le_bytes 2 count (unfold slot_offset in omega (arith, count_small)))

      start : free_space_start grown ≡ slot_offset count
      start =
          unfold free_space_start in
          (ap from_le_bytes (
              slice-splice_self 8 2 (to_le_bytes 2 (slot_offset count)) _
                (sym (length-to_le_bytes 2 (slot_offset count)))
                (omega (arith, t.full, length-splice 6 (to_le_bytes 2 count) p)))
            ∙ from_le_bytes-to_le_bytes 2 (slot_offset count) (omega (arith, count_small)))

  reused-Taken : (i : ℕ) → i < num_slots p → Taken p i p
  reused-Taken i h = record {
    full = refl;
    id = refl;
    end = refl;
    starts = t.starts;
    within = h;
    grows = omega arith;
    others = omega arith;
    last = λ k. absurd (omega (arith, k));
    kept = λ s n k. refl;
  }

  pub take_slot-Taken : Taken p (take_slot p).0 (take_slot p).1
  unfolding take_slot find_tombstone_slot set_free_space_start set_num_slots
  take_slot-Taken = go (find_from p 0 (num_slots p)) refl
    where
      go :
          (o : Option ℕ)
          → find_from p 0 (num_slots p) ≡ o
          → Taken p
              (elim o as (λ _. ℕ × SlottedPage) [
                | some i ↦ (i, p)
                | none ↦ (
                  num_slots p,
                  splice 8
                      (to_le_bytes 2 (slot_offset (count % 2 ^ 16) % 2 ^ 16))
                      (splice 6 (to_le_bytes 2 (count % 2 ^ 16)) p),
                )
              ]).0
              (elim o as (λ _. ℕ × SlottedPage) [
                | some i ↦ (i, p)
                | none ↦ (
                  num_slots p,
                  splice 8
                      (to_le_bytes 2 (slot_offset (count % 2 ^ 16) % 2 ^ 16))
                      (splice 6 (to_le_bytes 2 (count % 2 ^ 16)) p),
                )
              ]).1
      go (some i) e = reused-Taken i (omega (arith, find_from-lt p 0 (num_slots p) e))
      go none e =
          let small : count % 2 ^ 16 ≡ count = unfold slot_offset in omega (arith, count_small) in
          let low : slot_offset count % 2 ^ 16 ≡ slot_offset count = omega (arith, count_small) in
          rw (small, low) grown-Taken
