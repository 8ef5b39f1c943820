-- ===== src/Page/Slotted/Access.antt =====
-- What a write of a slot leaves of the page of src/page/slotted.rs, and what `delete` does.
use grumpydb.Prelude.{
  ℕ, ◌+◌, ◌^◌, ◌≤◌, ◌<◌, ◌≡◌, ◌≢◌, sym, ap, ◌∙◌, ◌⊎◌, inl, inr, arith, length, slice,
}
use grumpydb.Prelude.Bytes.{
  to_le_bytes, from_le_bytes, length-to_le_bytes, from_le_bytes-to_le_bytes,
}
use native.Mathlib.Nat.{add-zero}
use grumpydb.Prelude.Splice.{
  splice, length-splice, slice-splice_self, slice-splice_before, slice-splice_after,
}
use grumpydb.Page.{page_size}
use grumpydb.Page.Slotted.{
  SlottedPage, page_id, num_slots, free_space_start, free_space_end, slot_offset, offset_of,
  raw_length_of,
}

-- A page of full size whose slot array ends before the tuples, and whose live slots point there.
pub record IsPage (p : SlottedPage) : Type 0 where
  pub full : length p ≡ page_size
  pub starts : free_space_start p ≡ slot_offset (num_slots p)
  pub slots_fit : slot_offset (num_slots p) ≤ free_space_end p
  pub end_fits : free_space_end p ≤ page_size
  pub live : (j : ℕ) → j < num_slots p → offset_of p j ≢ 0 → free_space_end p ≤ offset_of p j

module _ (i o l : ℕ) (p : SlottedPage) where
  -- The page with the two fields of slot `i` written.
  abbrev pub slot_written : SlottedPage
  slot_written =
      splice (slot_offset i + 2) (to_le_bytes 2 l) (splice (slot_offset i) (to_le_bytes 2 o) p)

  pub slice_before : (s n : ℕ) → s + n ≤ slot_offset i → slice s n slot_written ≡ slice s n p
  slice_before s n h =
      slice-splice_before s n (slot_offset i + 2) (to_le_bytes 2 l) _ (omega (arith, h))
      ∙ slice-splice_before s n (slot_offset i) (to_le_bytes 2 o) p h

  pub slice_after : (s n : ℕ) → slot_offset i + 4 ≤ s → slice s n slot_written ≡ slice s n p
  slice_after s n h =
      slice-splice_after s n (slot_offset i + 2) (to_le_bytes 2 l) _
        (omega (arith, h, length-to_le_bytes 2 l))
      ∙ slice-splice_after s n (slot_offset i) (to_le_bytes 2 o) p
          (omega (arith, h, length-to_le_bytes 2 o))

  pub offset_of_self : slot_offset i + 4 ≤ length p → o < 2 ^ 16 → offset_of slot_written i ≡ o
  unfolding offset_of
  offset_of_self h f =
      ap from_le_bytes (
        slice-splice_before (slot_offset i) 2 (slot_offset i + 2) (to_le_bytes 2 l) _ (omega arith)
        ∙ slice-splice_self (slot_offset i) 2 (to_le_bytes 2 o) p (sym (length-to_le_bytes 2 o))
            (omega (arith, h)))
      ∙ from_le_bytes-to_le_bytes 2 o f

  pub raw_length_of_self :
      slot_offset i + 4 ≤ length p → l < 2 ^ 16 → raw_length_of slot_written i ≡ l
  unfolding raw_length_of
  raw_length_of_self h f =
      ap from_le_bytes (
        slice-splice_self (slot_offset i + 2) 2 (to_le_bytes 2 l) _ (sym (length-to_le_bytes 2 l))
          (omega (arith, h, length-splice (slot_offset i) (to_le_bytes 2 o) p)))
      ∙ from_le_bytes-to_le_bytes 2 l f

  -- The bytes of another slot stand before or after.
  pub slice_other :
      (j k n : ℕ)
      → j ≢ i
      → k + n ≤ 4
      → slice (slot_offset j + k) n slot_written ≡ slice (slot_offset j + k) n p
  slice_other j k n d h = elim (apart j i d) [
    | inl below ↦ slice_before (slot_offset j + k) n (unfold slot_offset in omega (arith, below, h))
    | inr above ↦ slice_after (slot_offset j + k) n (unfold slot_offset in omega (arith, above, h))
  ]
    where
      apart : (a b : ℕ) → a ≢ b → (a < b) ⊎ (b < a)
      apart a b d = ground (arith, d)

  pub slot_other :
      (j : ℕ)
      → j ≢ i
      → (offset_of slot_written j ≡ offset_of p j)
        × (raw_length_of slot_written j ≡ raw_length_of p j)
  unfolding offset_of raw_length_of
  slot_other j d = (
    rw (add-zero (slot_offset j)) at (ap from_le_bytes (slice_other j 0 2 d (omega arith))),
    ap from_le_bytes (slice_other j 2 2 d (omega arith)),
  )

  pub header_kept :
      (page_id slot_written ≡ page_id p)
      × (num_slots slot_written ≡ num_slots p)
      × (free_space_end slot_written ≡ free_space_end p)
      × (free_space_start slot_written ≡ free_space_start p)
  unfolding page_id num_slots free_space_end free_space_start
  header_kept = (
    ap from_le_bytes (slice_before 0 4 (unfold slot_offset in omega arith)),
    ap from_le_bytes (slice_before 6 2 (unfold slot_offset in omega arith)),
    ap from_le_bytes (slice_before 10 2 (unfold slot_offset in omega arith)),
    ap from_le_bytes (slice_before 8 2 (unfold slot_offset in omega arith)),
  )
