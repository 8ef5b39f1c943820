-- ===== src/Page/Manager.antt =====
-- `PageManager` of src/page/manager.rs. The file is a function from page numbers to their bytes, and
-- the calls of the file system succeed. Page 0 holds the list of the freed pages.

pub mod Entries
pub mod FreeList
pub mod Valid
pub mod Reuse
use grumpydb.Prelude.{
  ℕ, zero, suc, ◌+◌, ◌-◌, ◌*◌, ◌/◌, ◌%◌, ◌^◌, true, false, Option, none, some, List, [], ◌∷◌, ◌++◌,
  ok, err, ltb, leb, ◌==◌, if◌then◌else◌, length, replicate,
}
use grumpydb.Prelude.Bytes.{Bytes, to_le_bytes, number_at}
use grumpydb.Prelude.Splice.{splice}
use grumpydb.Prelude.Stateful.{Method, ◌>>=◌, ◌>>◌, return, reads}
use grumpydb.Error.{GrumpyError, Outcome, page_not_found}
use grumpydb.Page.{
  page_size, page_header_size, free_page, free_list, new_header, write_to, PageHeader,
  stamp_checksum, verify_checksum,
}

pub record PageManager : Type 0 where
  pub num_pages : ℕ
  pub page_at : ℕ → Bytes

abbrev pub Pages : Type 0 → Type 0
Pages = Method PageManager GrumpyError

-- The header in a page of zeros.
unfoldable pub blank : PageHeader → Bytes
blank h = write_to h (replicate page_size 0)

-- `seek` and `write_all` of a page
unfoldable pub put : ℕ → Bytes → PageManager → PageManager
put id buf pm = record pm { page_at = λ i. if i == id then buf else pm.page_at i }

-- The file has that many bytes; a new file has none.
unfoldable pub new : ℕ → (ℕ → Bytes) → PageManager
new file_len pages =
    if file_len == 0
    then record {
      num_pages = 1;
      page_at = λ i.
          if i == 0
          then splice page_header_size (to_le_bytes 4 0) (blank (new_header 0 free_list))
          else pages i;
    }
    else record { num_pages = file_len / page_size % 2 ^ 32; page_at = pages }

-- The loops of `read_free_list` and `write_free_list`, from an offset on.
unfoldable pub read_entries : ℕ → ℕ → Bytes → List ℕ
read_entries zero offset buf = []
read_entries (suc n) offset buf = elim (ltb page_size (offset + 4)) [
  | true ↦ []
  | false ↦ number_at 4 offset buf ∷ read_entries n (offset + 4) buf
]

unfoldable pub write_entries : List ℕ → ℕ → Bytes → Bytes
write_entries [] offset buf = buf
write_entries (id ∷ ids) offset buf = elim (ltb page_size (offset + 4)) [
  | true ↦ buf
  | false ↦ write_entries ids (offset + 4) (splice offset (to_le_bytes 4 id) buf)
]

-- The page that holds the list.
unfoldable pub list_page : List ℕ → Bytes
list_page ids =
    write_entries ids (page_header_size + 4) (
      splice page_header_size (to_le_bytes 4 (length ids % 2 ^ 32))
        (blank (new_header 0 free_list)))

-- `Vec::pop`
unfoldable pub pop : List ℕ → Option (List ℕ × ℕ)
pop [] = none
pop (x ∷ xs) = elim (pop xs) [ none ↦ some ([], x) | some (ys, y) ↦ some (x ∷ ys, y) ]

module _ (crc : Bytes → ℕ) where
  unfoldable pub read_page : ℕ → PageManager → Outcome Bytes
  read_page id pm =
      if leb pm.num_pages id
      then err (page_not_found id)
      else elim (verify_checksum crc (pm.page_at id) id) [
        | ok _ ↦ ok (pm.page_at id)
        | err e ↦ err e
      ]

  unfoldable pub write_page : ℕ → Bytes → Pages (Unit {0})
  write_page id buf pm =
      if leb pm.num_pages id
      then (pm, err (page_not_found id))
      else (put id (stamp_checksum crc buf) pm, ok tt)

  unfoldable pub read_free_list : PageManager → Outcome (List ℕ)
  unfolding read_page
  read_free_list pm = elim (read_page 0 pm) [
    | err e ↦ err e
    | ok buf ↦ ok (read_entries (number_at 4 page_header_size buf) (page_header_size + 4) buf)
  ]

  unfoldable pub write_free_list : List ℕ → Pages (Unit {0})
  write_free_list ids = write_page 0 (list_page ids)

  unfoldable pub pop_rest : Option (List ℕ × ℕ) → Pages (Option ℕ)
  pop_rest none = return none
  pop_rest (some (ids, id)) = do write_free_list ids; return (some id)

  unfoldable pub pop_free_list : Pages (Option ℕ)
  pop_free_list = do ids ← reads read_free_list; pop_rest (pop ids)

  unfoldable pub push_free_list : ℕ → Pages (Unit {0})
  push_free_list id = do ids ← reads read_free_list; write_free_list (ids ++ id ∷ [])

  -- A blank page behind the last one. It is not stamped.
  unfoldable pub extend : Pages ℕ
  extend pm =
      let id = pm.num_pages in
      let grown = put id (blank (new_header id free_page)) pm in
      (record grown { num_pages = (id + 1) % 2 ^ 32 }, ok id)

  unfoldable pub or_extend : Option ℕ → Pages ℕ
  or_extend none = extend
  or_extend (some id) = return id

  unfoldable pub allocate_page : Pages ℕ
  allocate_page = do reused ← pop_free_list; or_extend reused

  unfoldable pub free_page_at : ℕ → Pages (Unit {0})
  free_page_at id pm =
      if id == 0
      then (pm, err (page_not_found 0))
      else if leb pm.num_pages id
      then (pm, err (page_not_found id))
      else (do write_page id (blank (new_header id free_page)); push_free_list id) pm
