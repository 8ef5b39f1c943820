-- ===== src/Page/Manager/FreeList.antt =====
-- The list of the freed pages in page 0: what is written is read back.
use grumpydb.Prelude.{
  ℕ, ◌%◌, ◌^◌, ◌<◌, ◌≡◌, refl, sym, ap, ◌∙◌, arith, List, [], ok, length, take, replicate, All,
}
use grumpydb.Prelude.Bytes.{
  Bytes, to_le_bytes, from_le_bytes, number_at, length-to_le_bytes, from_le_bytes-to_le_bytes,
}
use grumpydb.Prelude.Splice.{splice, length-splice, slice-splice_self, slice-splice_before}
use grumpydb.Page.{
  page_size, free_list, new_header, PageHeader, write_to, read_from, stamp_checksum,
  verify_checksum,
}
use grumpydb.Page.Header.{verify_checksum-stamp, read_from-write_to, IsTyped}
use grumpydb.Page.Manager.{
  PageManager, blank, new, put, read_entries, list_page, read_page, read_free_list,
}
use grumpydb.Page.Manager.Entries.{
  length-blank, length-write_entries, slice-write_entries, read_entries-write_entries,
  read_entries-stamp, stamped,
}

length-list_page : (ids : List ℕ) → length (list_page ids) ≡ page_size
unfolding list_page
length-list_page ids = rw (length-write_entries, length-splice, length-blank) refl

count_at : (ids : List ℕ) → number_at 4 32 (list_page ids) ≡ length ids % 2 ^ 32
unfolding list_page
count_at ids =
    let count = to_le_bytes 4 (length ids % 2 ^ 32) in
    let empty = blank (new_header 0 free_list) in
    ap from_le_bytes (
      slice-write_entries ids 32 4 36 (splice 32 count empty) (omega arith)
      ∙ slice-splice_self 32 4 count empty (sym (length-to_le_bytes 4 (length ids % 2 ^ 32)))
          (omega (arith, length-blank (new_header 0 free_list))))
    ∙ from_le_bytes-to_le_bytes 4 (length ids % 2 ^ 32) (omega arith)

-- The most ids that the page holds.
abbrev pub free_list_capacity : ℕ
free_list_capacity = 2039

entries_of :
    (ids : List ℕ)
    → All (λ (id : ℕ). id < 2 ^ 32) ids
    → read_entries (length ids) 36 (list_page ids) ≡ take free_list_capacity ids
unfolding list_page
entries_of ids small =
    let count = to_le_bytes 4 (length ids % 2 ^ 32) in
    let empty = blank (new_header 0 free_list) in
    read_entries-write_entries free_list_capacity ids 36 (splice 32 count empty)
      (length-splice 32 count empty ∙ length-blank (new_header 0 free_list)) (omega arith)
      (omega arith) small

pub read_page-put :
    (crc : Bytes → ℕ) (id : ℕ) (buf : Bytes) (pm : PageManager)
    → ((bs : Bytes) → crc bs < 2 ^ 32)
    → id < pm.num_pages
    → length buf ≡ page_size
    → read_page crc id (put id (stamp_checksum crc buf) pm) ≡ ok (stamp_checksum crc buf)
unfolding read_page put
read_page-put crc id buf pm fits inside full =
    ground (arith, (verify_checksum-stamp crc buf id fits full).0)

read_free_list_of :
    (crc : Bytes → ℕ) (pm : PageManager) (buf : Bytes)
    → read_page crc 0 pm ≡ ok buf
    → read_free_list crc pm ≡ ok (read_entries (number_at 4 32 buf) 36 buf)
unfolding read_free_list
read_free_list_of crc pm buf e = rw (e, read_free_list) refl

-- What `write_free_list` leaves in page 0 is read back by `read_free_list`, as far as it has room:
-- the first 2039 ids. The checksum function gives 32 bits, and so do the ids.
pub read_free_list-list_page :
    (crc : Bytes → ℕ) (ids : List ℕ) (pm : PageManager)
    → ((bs : Bytes) → crc bs < 2 ^ 32)
    → 0 < pm.num_pages
    → length ids < 2 ^ 32
    → All (λ (id : ℕ). id < 2 ^ 32) ids
    → read_free_list crc (put 0 (stamp_checksum crc (list_page ids)) pm)
      ≡ ok (take free_list_capacity ids)
read_free_list-list_page crc ids pm fits some_page few small =
    let now = stamp_checksum crc (list_page ids) in
    let count : number_at 4 32 now ≡ length ids =
      stamped crc 4 32 (list_page ids) (omega arith) ∙ count_at ids ∙ omega arith in
    let entries : read_entries (length ids) 36 now ≡ take free_list_capacity ids =
      read_entries-stamp crc (length ids) 36 (list_page ids) (omega arith) ∙ entries_of ids small in
    let found : read_page crc 0 (put 0 now pm) ≡ ok now =
      read_page-put crc 0 (list_page ids) pm fits some_page (length-list_page ids) in
    read_free_list_of crc (put 0 now pm) now found
    ∙ ap ok (ap (λ (n : ℕ). read_entries n 36 now) count ∙ entries)

new_header-IsTyped : (id : ℕ) → id < 2 ^ 32 → IsTyped (new_header id free_list)
unfolding new_header
new_header-IsTyped id h = record {
  id_fits = h;
  flags_fit = omega arith;
  slots_fit = omega arith;
  start_fits = omega arith;
  end_fits = omega arith;
  next_fits = omega arith;
  prev_fits = omega arith;
  lsn_fits = omega arith;
  checksum_fits = omega arith;
}

unsummed : (h : PageHeader) → h.checksum ≡ 0 → IsTyped h → number_at 4 28 (blank h) ≡ 0
unfolding blank read_from
unsummed h e t = sum
  where
    back : read_from (write_to h (replicate page_size 0)) ≡ h
    back = (read_from-write_to h (replicate page_size 0) t).0

    sum : number_at 4 28 (write_to h (replicate page_size 0)) ≡ 0
    sum = ap (λ (g : PageHeader). g.checksum) back ∙ e

-- A new file holds an empty list, under a checksum of 0.
pub read_free_list-new :
    (crc : Bytes → ℕ) (pages : ℕ → Bytes) → read_free_list crc (new 0 pages) ≡ ok []
unfolding read_free_list read_page new
read_free_list-new crc pages =
    let h : PageHeader = new_header 0 free_list in
    let empty = blank h in
    let first = splice 32 (to_le_bytes 4 0) empty in
    let whole : length empty ≡ page_size = length-blank h in
    let count : number_at 4 32 first ≡ 0 =
      ap from_le_bytes (
        slice-splice_self 32 4 (to_le_bytes 4 0) empty (sym (length-to_le_bytes 4 0))
          (omega (arith, whole)))
      ∙ from_le_bytes-to_le_bytes 4 0 (omega arith) in
    let sum : number_at 4 28 first ≡ 0 =
      ap from_le_bytes (slice-splice_before 28 4 32 (to_le_bytes 4 0) empty (omega arith))
      ∙ unsummed h (unfold new_header in refl) (new_header-IsTyped 0 (omega arith)) in
    let passes : verify_checksum crc first 0 ≡ ok tt =
      unfold verify_checksum in ground (arith, sum) in
    let none_listed : read_entries (number_at 4 32 first) 36 first ≡ [] =
      unfold read_entries in rw count refl in
    ground (arith, passes, none_listed)
