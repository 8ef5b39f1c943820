-- ===== src/Page/Slotted/Stored.antt =====
-- What `insert` of src/page/slotted.rs stores, and where.
use grumpydb.Prelude.{
  ℕ, ◌+◌, ◌-◌, ◌%◌, ◌^◌, ◌≤◌, ◌<◌, ◌≡◌, ◌≢◌, sym, ◌∙◌, inl, inr, arith, Bool-cases, true, ok, ltb,
  ge→ltb, ltb→ge, ◌==◌, ==→eq, if◌then◌else◌, length,
}
use grumpydb.Prelude.Splice.{length-splice}
use grumpydb.Prelude.Bytes.{Bytes, to_le_bytes}
use grumpydb.Page.{slot_size}
use grumpydb.Page.Slotted.{
  SlottedPage, max_slot_length, num_slots, free_space_end, set_free_space_end, free_space,
  slot_offset, offset_of, write_slot, take_slot, place, insert, get,
}
use grumpydb.Page.Slotted.Access.{IsPage}
use grumpydb.Page.Slotted.Taken.{Taken, take_slot-Taken}
use grumpydb.Page.Slotted.Insert.{
  start, inserted, bound, inserted_header, inserted_slot, inserted_other, get-inserted,
  get-inserted_other, copied_full,
}

place-inserted :
    (p q : SlottedPage) (i : ℕ) (tuple : Bytes) (t : IsPage p) (k : Taken p i q)
    (room : length tuple + 4 ≤ free_space p)
    → place i tuple q ≡ ok (inserted p q i tuple t k room, i)
unfolding place write_slot set_free_space_end
place-inserted p q i tuple t k room =
    let small : length tuple ≤ 8192 = unfold free_space in omega (arith, room, t.end_fits) in
    let fits : length tuple % 2 ^ 16 ≡ length tuple = omega (arith, small) in
    let begin : (free_space_end p + 2 ^ 16 - length tuple) % 2 ^ 16 ≡ start p q i tuple t k room =
      omega (arith, (bound p q i tuple t k room).1, t.end_fits) in
    rw (k.end, fits) (rw begin (rw (ge→ltb max_slot_length (length tuple) (omega (arith, small)))))

insert-inserted :
    (p : SlottedPage) (tuple : Bytes) (t : IsPage p) (room : length tuple + 4 ≤ free_space p)
    → insert tuple p
      ≡ ok (
        inserted p
            (take_slot p).1
            (take_slot p).0
            tuple
            t
            (take_slot-Taken p t (omega (arith, room)))
            room,
        (take_slot p).0,
      )
unfolding insert
insert-inserted p tuple t room = rw (ge→ltb (free_space p) (length tuple + 4) room) (
    place-inserted p (take_slot p).1 (take_slot p).0 tuple t
      (take_slot-Taken p t (omega (arith, room))) room)

inserted-IsPage :
    (p q : SlottedPage) (i : ℕ) (tuple : Bytes) (t : IsPage p) (k : Taken p i q)
    (room : length tuple + 4 ≤ free_space p)
    → IsPage (inserted p q i tuple t k room)
inserted-IsPage p q i tuple t k room =
    let (id, n, end, begin) = inserted_header p q i tuple t k room in
    let (slots, whole, fits) = bound p q i tuple t k room in
    record {
      full =
          length-splice (slot_offset i + 2) (to_le_bytes 2 (length tuple)) _
          ∙ length-splice (slot_offset i) (to_le_bytes 2 (start p q i tuple t k room)) _
          ∙ copied_full p q i tuple t k room;
      starts = rw (begin, n);
      slots_fit = rw (n, end) slots;
      end_fits = rw end fits;
      live = λ j h used. live j (rw n at h) used;
    }
  where
    live :
        (j : ℕ)
        → j < num_slots q
        → offset_of (inserted p q i tuple t k room) j ≢ 0
        → free_space_end (inserted p q i tuple t k room)
          ≤ offset_of (inserted p q i tuple t k room) j
    live j h used =
        let (id, n, end, begin) = inserted_header p q i tuple t k room in
        let (slots, whole, fits) = bound p q i tuple t k room in
        let small : length tuple < 2 ^ 16 = unfold free_space in omega (arith, room, t.end_fits) in
        elim (Bool-cases (j == i)) [
          | inl same ↦
              rw (==→eq j i same)
                (rw (end, (inserted_slot p q i tuple t k room small).0) (omega arith))
          | inr other ↦
              let below : j < num_slots p = ground (arith, h, k.others, k.last, k.grows, other) in
              let offset =
                (inserted_other p q i tuple t k room j below (ground (arith, other))).0 in
              rw (end, offset) (omega (arith, whole, t.live j below (rw offset at used)))
        ]

-- `insert` of a tuple for which a well-formed page has room, its slot included, returns a page and a
-- slot.
pub insert-returns :
    (p : SlottedPage) (tuple : Bytes)
    → IsPage p
    → length tuple + slot_size ≤ free_space p
    → (r : SlottedPage × ℕ) × (insert tuple p ≡ ok r)
insert-returns p tuple t room = (_, insert-inserted p tuple t room)

-- After a successful `insert` into a well-formed page `get` finds the tuple in the slot that was
-- returned, in every other slot what it found before, errors included, and the page is well formed.
pub get-insert_tuple :
    (p p' : SlottedPage) (tuple : Bytes) (i j : ℕ)
    → IsPage p
    → insert tuple p ≡ ok (p', i)
    → (get p' j ≡ (if j == i then ok tuple else get p j)) × IsPage p'
get-insert_tuple p p' tuple i j t e = elim (Bool-cases (ltb (free_space p) (length tuple + 4))) [
  | inl full ↦ absurd (omega (arith, refused full))
  | inr room ↦ stored (ltb→ge _ _ room)
]
  where
    refused : ltb (free_space p) (length tuple + 4) ≡ true → ◌<◌ 1 0
    refused full = unfold insert in ground (arith, full, e)

    stored :
        length tuple + 4 ≤ free_space p
        → (get p' j ≡ (if j == i then ok tuple else get p j)) × IsPage p'
    stored room =
        let k = take_slot-Taken p t (omega (arith, room)) in
        let q = (take_slot p).1 in
        let s = (take_slot p).0 in
        let page = inserted p q s tuple t k room in
        let both = sym e ∙ insert-inserted p tuple t room in
        let same_page : p' ≡ page = cc in
        let same_slot : i ≡ s = cc in
        let small : length tuple ≤ max_slot_length =
          unfold free_space in omega (arith, room, t.end_fits) in
        rw (same_page, same_slot)
          (
            elim (Bool-cases (j == s)) [
              | inl same ↦ rw (same, ==→eq j s same) (get-inserted p q s tuple t k room small)
              | inr other ↦
                  rw other (get-inserted_other p q s tuple t k room j (ground (arith, other)))
            ],
            inserted-IsPage p q s tuple t k room,
          )
