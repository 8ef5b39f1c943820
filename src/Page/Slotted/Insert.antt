-- ===== src/Page/Slotted/Insert.antt =====
-- `insert` of src/page/slotted.rs.
use grumpydb.Prelude.{
  ℕ, ◌+◌, ◌-◌, ◌%◌, ◌^◌, ◌≤◌, ◌<◌, ◌≡◌, ◌≢◌, refl, sym, ap, ◌∙◌, inl, inr, arith, Bool-cases, false,
  ok, leb, gt→leb, ◌==◌, length, slice,
}
use grumpydb.Prelude.Splice.{
  splice, length-splice, slice-splice_self, slice-splice_before, slice-splice_after,
}
use grumpydb.Prelude.Bytes.{
  Bytes, to_le_bytes, from_le_bytes, length-to_le_bytes, from_le_bytes-to_le_bytes,
}
use grumpydb.Page.{page_size}
use grumpydb.Page.Slotted.{
  SlottedPage, max_slot_length, page_id, num_slots, free_space_start, free_space_end, free_space,
  slot_offset, offset_of, raw_length_of, length_of, get,
}
use grumpydb.Page.Slotted.Access.{
  IsPage, slot_written, slice_after, offset_of_self, raw_length_of_self, slot_other, header_kept,
}
use grumpydb.Page.Slotted.Taken.{Taken}

module _ (p q : SlottedPage) (i : ℕ) (tuple : Bytes) (t : IsPage p) (k : Taken p i q)
    (room : length tuple + 4 ≤ free_space p) where
  abbrev pub start : ℕ
  start = free_space_end p - length tuple

  pub bound :
      (slot_offset (num_slots q) ≤ start)
      × (start + length tuple ≡ free_space_end p)
      × (start ≤ page_size)
  unfolding slot_offset free_space
  bound = (
    omega (arith, room, t.starts, t.slots_fit, k.others),
    omega (arith, room),
    omega (arith, t.end_fits),
  )

  -- The page with the tuple and the new end of the free space.
  abbrev pub copied : SlottedPage
  copied = splice start tuple (splice 10 (to_le_bytes 2 start) q)

  low : 32 ≤ start
  low = unfold slot_offset in omega (arith, bound.0)

  pub copied_full : length copied ≡ page_size
  copied_full =
      length-splice start tuple _ ∙ length-splice 10 (to_le_bytes 2 start) q ∙ k.full ∙ t.full

  copied_header : (s n : ℕ) → s + n ≤ 10 → slice s n copied ≡ slice s n q
  copied_header s n h =
      slice-splice_before s n start tuple _ (omega (arith, h, low))
      ∙ slice-splice_before s n 10 (to_le_bytes 2 start) q h

  copied_slots : (s n : ℕ) → 32 ≤ s → s + n ≤ start → slice s n copied ≡ slice s n p
  copied_slots s n h l =
      slice-splice_before s n start tuple _ l
      ∙ slice-splice_after s n 10 (to_le_bytes 2 start) q
          (omega (arith, h, length-to_le_bytes 2 start))
      ∙ k.kept s n h

  copied_tail : (s n : ℕ) → free_space_end p ≤ s → slice s n copied ≡ slice s n p
  copied_tail s n h =
      slice-splice_after s n start tuple _ (omega (arith, h, bound.1))
      ∙ slice-splice_after s n 10 (to_le_bytes 2 start) q
          (omega (arith, h, low, bound.1, length-to_le_bytes 2 start))
      ∙ k.kept s n (omega (arith, h, low, bound.1))

  copied_tuple : slice start (length tuple) copied ≡ tuple
  copied_tuple =
      slice-splice_self start (length tuple) tuple _ refl (
        omega
          (arith, bound.1, t.end_fits, t.full, k.full, length-splice 10 (to_le_bytes 2 start) q))

  copied_end : free_space_end copied ≡ start
  unfolding free_space_end
  copied_end =
      ap from_le_bytes (
        slice-splice_before 10 2 start tuple _ (omega (arith, low))
        ∙ slice-splice_self 10 2 (to_le_bytes 2 start) q (sym (length-to_le_bytes 2 start))
            (omega (arith, t.full, k.full)))
      ∙ from_le_bytes-to_le_bytes 2 start (omega (arith, bound.2))

  abbrev pub inserted : SlottedPage
  inserted = slot_written i start (length tuple) copied

  pub inserted_header :
      (page_id inserted ≡ page_id p)
      × (num_slots inserted ≡ num_slots q)
      × (free_space_end inserted ≡ start)
      × (free_space_start inserted ≡ slot_offset (num_slots q))
  inserted_header =
      let (id, n, end, begin) = header_kept i start (length tuple) copied in
      (
        id ∙ unfold page_id in ap from_le_bytes (copied_header 0 4 (omega arith)) ∙ k.id,
        n ∙ unfold num_slots in ap from_le_bytes (copied_header 6 2 (omega arith)),
        end ∙ copied_end,
        begin
            ∙ unfold free_space_start in
              ap from_le_bytes (copied_header 8 2 (omega arith)) ∙ k.starts,
      )

  pub slot_in : slot_offset i + 4 ≤ start
  slot_in = unfold slot_offset in omega (arith, bound.0, k.within)

  pub inserted_slot :
      length tuple < 2 ^ 16
      → (offset_of inserted i ≡ start) × (raw_length_of inserted i ≡ length tuple)
  inserted_slot h =
      let inside : slot_offset i + 4 ≤ length copied =
        omega (arith, slot_in, bound.2, copied_full) in
      (
        offset_of_self i start (length tuple) copied inside (omega (arith, bound.2)),
        raw_length_of_self i start (length tuple) copied inside h,
      )

  pub inserted_other :
      (j : ℕ)
      → j < num_slots p
      → j ≢ i
      → (offset_of inserted j ≡ offset_of p j) × (raw_length_of inserted j ≡ raw_length_of p j)
  inserted_other j h d =
      let (offset, len) = slot_other i start (length tuple) copied j d in
      (
        offset
            ∙ unfold offset_of in
              ap from_le_bytes (
                copied_slots (slot_offset j) 2 (unfold slot_offset in omega arith)
                  (unfold slot_offset in omega (arith, h, bound.0, k.grows))),
        len
            ∙ unfold raw_length_of in
              ap from_le_bytes (
                copied_slots (slot_offset j + 2) 2 (unfold slot_offset in omega arith)
                  (unfold slot_offset in omega (arith, h, bound.0, k.grows))),
      )

  pub get-inserted : length tuple ≤ max_slot_length → get inserted i ≡ ok tuple
  unfolding get length_of
  get-inserted h =
      let (id, n, end, begin) = inserted_header in
      let (offset, len) = inserted_slot (omega (arith, h)) in
      let fits : length tuple % 2 ^ 15 ≡ length tuple = omega (arith, h) in
      let used : start == 0 ≡ false = ground (arith, low) in
      rw (n, offset, len, gt→leb (num_slots q) i k.within)
        (rw (used, fits)
          (ap ok (
            slice_after i start (length tuple) copied start (length tuple) slot_in ∙ copied_tuple)))

  -- Another slot is in the array exactly when it was.
  same_range : (j : ℕ) → j ≢ i → leb (num_slots q) j ≡ leb (num_slots p) j
  same_range j d = ground (arith, k.grows, k.others, k.last, d)

  pub get-inserted_other : (j : ℕ) → j ≢ i → get inserted j ≡ get p j
  unfolding get length_of
  get-inserted_other j d =
      let (id, n, end, begin) = inserted_header in
      rw (id, n, same_range j d)
        (elim (Bool-cases (leb (num_slots p) j)) [
          | inl out ↦ rw out
          | inr inside ↦
              let h : j < num_slots p = ground (arith, inside) in
              let (offset, len) = inserted_other j h d in
              rw (inside, offset, len)
                (elim (Bool-cases (offset_of p j == 0)) [
                  | inl free ↦ rw free
                  | inr used ↦
                      let live = t.live j h (ground (arith, used)) in
                      rw used (
                        ap ok (
                          slice_after i start (length tuple) copied (offset_of p j)
                            (raw_length_of p j % 2 ^ 15) (omega (arith, live, slot_in, bound.1))
                          ∙ copied_tail (offset_of p j) (raw_length_of p j % 2 ^ 15) live))
                ])
        ])
