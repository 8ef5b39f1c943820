-- ===== src/Page/Slotted/Delete.antt =====
-- `delete` of src/page/slotted.rs.
use grumpydb.Prelude.{
  ℕ, ◌+◌, ◌%◌, ◌^◌, ◌≤◌, ◌<◌, ◌≡◌, ◌≢◌, ap, ◌∙◌, inl, inr, arith, Bool-cases, ok, err, leb, ◌==◌,
  ==→eq, if◌then◌else◌,
}
use grumpydb.Prelude.Splice.{length-splice}
use grumpydb.Prelude.Bytes.{to_le_bytes}
use grumpydb.Error.{page_not_found}
use grumpydb.Page.Slotted.{
  SlottedPage, page_id, num_slots, free_space_end, slot_offset, offset_of, raw_length_of, length_of,
  write_slot, get, delete,
}
use grumpydb.Page.Slotted.Access.{
  IsPage, slot_written, slice_after, offset_of_self, slot_other, header_kept,
}

delete-ok :
    (i : ℕ) (p p' : SlottedPage)
    → delete i p ≡ ok p'
    → (i < num_slots p) × (offset_of p i ≢ 0) × (p' ≡ slot_written i 0 0 p)
unfolding delete write_slot
delete-ok i p p' e = ground arith

-- A slot below the number of slots stands within the page.
slot_within :
    (i : ℕ) (p : SlottedPage) → IsPage p → i < num_slots p → slot_offset i + 4 ≤ free_space_end p
unfolding slot_offset
slot_within i p t h = omega (arith, t.slots_fit)

get_other :
    (i j : ℕ) (p : SlottedPage)
    → IsPage p
    → i < num_slots p
    → j ≢ i
    → get (slot_written i 0 0 p) j ≡ get p j
unfolding get length_of
get_other i j p t h d =
    let (id, n, end, start) = header_kept i 0 0 p in
    let (offset, len) = slot_other i 0 0 p j d in
    rw (id, n, offset, len)
      (elim (Bool-cases (leb (num_slots p) j)) [
        | inl out ↦ rw out
        | inr within ↦ rw within (elim (Bool-cases (offset_of p j == 0)) [
          | inl free ↦ rw free
          | inr used ↦ rw used (
              ap ok (
                slice_after i 0 0 p (offset_of p j) (raw_length_of p j % 2 ^ 15) (
                  omega (
                    arith,
                    slot_within i p t h,
                    t.live j (ground (arith, within)) (ground (arith, used)),
                  ))))
        ])
      ])

get_self :
    (i : ℕ) (p : SlottedPage)
    → IsPage p
    → i < num_slots p
    → get (slot_written i 0 0 p) i ≡ err (page_not_found (page_id p))
unfolding get
get_self i p t h =
    let (id, n, end, start) = header_kept i 0 0 p in
    let offset =
      offset_of_self i 0 0 p (omega (arith, slot_within i p t h, t.end_fits, t.full))
        (omega arith) in
    rw (id, n, offset) (ground arith)

-- After a successful `delete` of a slot of a page that is well formed, `get` finds no tuple in that
-- slot, in every other slot what it found before, errors included, and the page is well formed.
pub get-delete :
    (i j : ℕ) (p p' : SlottedPage)
    → IsPage p
    → delete i p ≡ ok p'
    → (get p' j ≡ (if j == i then err (page_not_found (page_id p)) else get p j)) × IsPage p'
get-delete i j p p' t e = let (h, used, q) = delete-ok i p p' e in rw q (reads h, kept h)
  where
    reads :
        i < num_slots p
        → get (slot_written i 0 0 p) j
          ≡ (if j == i then err (page_not_found (page_id p)) else get p j)
    reads h = elim (Bool-cases (j == i)) [
      | inl same ↦ rw (same, ==→eq j i same) (get_self i p t h)
      | inr other ↦ rw other (get_other i j p t h (ground (arith, other)))
    ]

    live_kept :
        i < num_slots p
        → (k : ℕ) → k < num_slots p
        → offset_of (slot_written i 0 0 p) k ≢ 0
        → free_space_end (slot_written i 0 0 p) ≤ offset_of (slot_written i 0 0 p) k
    live_kept h k in_range used =
        let (id, n, end, start) = header_kept i 0 0 p in
        elim (Bool-cases (k == i)) [
          | inl same ↦ absurd (
              used (
                rw (==→eq k i same) (
                  offset_of_self i 0 0 p (omega (arith, slot_within i p t h, t.end_fits, t.full))
                    (omega arith))))
          | inr other ↦
              let offset = (slot_other i 0 0 p k (ground (arith, other))).0 in
              rw (end, offset) (t.live k in_range (rw offset at used))
        ]

    kept : i < num_slots p → IsPage (slot_written i 0 0 p)
    kept h =
        let (id, n, end, start) = header_kept i 0 0 p in
        record {
          full =
              length-splice (slot_offset i + 2) (to_le_bytes 2 0) _
              ∙ length-splice (slot_offset i) (to_le_bytes 2 0) p
              ∙ t.full;
          starts = rw (start, n) t.starts;
          slots_fit = rw (n, end) t.slots_fit;
          end_fits = rw end t.end_fits;
          live = λ k in_range used. live_kept h k (rw n at in_range) used;
        }
