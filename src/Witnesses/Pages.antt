-- ===== src/Witnesses/Pages.antt =====
-- The pages of src/page/ on concrete values.
use grumpydb.Prelude.{
  ℕ, zero, suc, ◌≤◌, ◌≢◌, err, ◌==◌, if◌then◌else◌, ◌<◌, ◌≡◌, refl, arith, ok, replicate, [], ◌∷◌,
  ◌++◌,
}
use grumpydb.Prelude.Bytes.{Bytes, to_le_bytes, from_le_bytes}
use grumpydb.Page.{page_size}
use grumpydb.Error.{page_not_found}
use grumpydb.Page.Slotted.{
  SlottedPage, page_id, num_slots, free_space, free_space_start, free_space_end, set_num_slots,
  set_free_space_start, set_free_space_end, slot_offset, offset_of, write_slot, find_from,
  find_tombstone_slot, take_slot, place, insert, get, delete,
}
use grumpydb.Page.Slotted.Stored.{insert-returns, get-insert_tuple}
use grumpydb.Prelude.Splice.{splice}
use grumpydb.Page.Slotted.Access.{IsPage, slot_written}
use grumpydb.Page.Slotted.Delete.{get-delete}

abbrev page : Bytes
page = replicate page_size 5

-- A page with one tuple, of two bytes, at its end.
abbrev stored_page : Bytes
stored_page =
    (7 ∷ 0 ∷ 0 ∷ 0 ∷ 1 ∷ 0 ∷ 1 ∷ 0 ∷ 36 ∷ 0 ∷ 254 ∷ 31 ∷ [])
    ++ (replicate 20 0 ++ ((254 ∷ 31 ∷ 2 ∷ 0 ∷ []) ++ (replicate 8154 0 ++ (5 ∷ 6 ∷ []))))

stored_page-IsPage : IsPage stored_page
unfolding num_slots slot_offset free_space_start free_space_end offset_of from_le_bytes
stored_page-IsPage = record {
  full = refl;
  starts = refl;
  slots_fit = omega arith;
  end_fits = omega arith;
  live = only;
}
  where
    only :
        (j : ℕ)
        → j < num_slots stored_page
        → offset_of stored_page j ≢ 0
        → free_space_end stored_page ≤ offset_of stored_page j
    only zero h u = omega arith
    only (suc j) h u = absurd (omega (arith, h))

abbrev deleted_page : Bytes
deleted_page = slot_written 0 0 0 stored_page

deletes : delete 0 stored_page ≡ ok deleted_page
unfolding delete num_slots offset_of slot_offset from_le_bytes write_slot
deletes = refl

get-delete_example :
    (get deleted_page 0
      ≡ (if 0 == 0 then err (page_not_found (page_id stored_page)) else get stored_page 0))
    × IsPage deleted_page
get-delete_example = get-delete 0 0 stored_page deleted_page stored_page-IsPage deletes

insert-returns_example : (r : SlottedPage × ℕ) × (insert (9 ∷ 8 ∷ 7 ∷ []) stored_page ≡ ok r)
unfolding free_space free_space_start free_space_end from_le_bytes
insert-returns_example =
    insert-returns stored_page (9 ∷ 8 ∷ 7 ∷ []) stored_page-IsPage (omega arith)

-- The page with a second tuple, of three bytes, in a slot of its own.
abbrev inserted_page : Bytes
inserted_page = slot_written 1 8187 3 (
    splice 8187 (9 ∷ 8 ∷ 7 ∷ []) (
      splice 10 (to_le_bytes 2 8187)
        (splice 8 (to_le_bytes 2 40) (splice 6 (to_le_bytes 2 2) stored_page))))

inserts : insert (9 ∷ 8 ∷ 7 ∷ []) stored_page ≡ ok (inserted_page, 1)
unfolding insert free_space free_space_start free_space_end take_slot find_tombstone_slot find_from
    num_slots offset_of slot_offset place write_slot set_num_slots set_free_space_start
    set_free_space_end from_le_bytes to_le_bytes
inserts = refl

get-insert_tuple_example :
    (get inserted_page 1 ≡ (if 1 == 1 then ok (9 ∷ 8 ∷ 7 ∷ []) else get stored_page 1))
    × IsPage inserted_page
get-insert_tuple_example =
    get-insert_tuple stored_page inserted_page (9 ∷ 8 ∷ 7 ∷ []) 1 1 stored_page-IsPage inserts
