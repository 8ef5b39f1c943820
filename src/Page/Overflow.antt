-- ===== src/Page/Overflow.antt =====
-- Chains of overflow pages: src/page/overflow.rs, over the pages of src/page/manager.rs.
pub mod Chain
pub mod RoundTrip
use grumpydb.Prelude.{
  ℕ, zero, suc, ◌+◌, ◌%◌, ◌^◌, Bool, true, false, not, ◌&&◌, ◌||◌, Option, none, some, List, [],
  ◌∷◌, ◌++◌, ok, err, ltb, ◌==◌, if◌then◌else◌, length, take, drop, slice, replicate,
}
use grumpydb.Prelude.Bytes.{Bytes, to_le_bytes, number_at}
use grumpydb.Prelude.Splice.{splice}
use grumpydb.Prelude.Stateful.{◌>>=◌, ◌>>◌, return}
use grumpydb.Error.{Outcome}
use grumpydb.Page.{
  page_size, page_header_size, overflow_page, PageHeader, new_header, write_to, read_from,
}
use grumpydb.Page.Manager.{PageManager, Pages, read_page, write_page, allocate_page, free_page_at}

abbrev pub overflow_marker : ℕ
overflow_marker = 0xff

abbrev pub overflow_ref_size : ℕ
overflow_ref_size = 9

abbrev pub page_usable_space : ℕ
page_usable_space = 8160

unfoldable pub encode_overflow_ref : ℕ → ℕ → Bytes
encode_overflow_ref first_page_id total_len =
    overflow_marker ∷ (to_le_bytes 4 first_page_id ++ to_le_bytes 4 total_len)

abbrev pub head_is : ℕ → Bytes → Bool
head_is marker [] = false
head_is marker (b ∷ bs) = b == marker

unfoldable pub decode_overflow_ref : Bytes → Option (ℕ × ℕ)
decode_overflow_ref buf =
    if ltb (length buf) overflow_ref_size || not (head_is overflow_marker buf)
    then none
    else some (number_at 4 1 buf, number_at 4 5 buf)

unfoldable pub is_overflow : Bytes → Bool
is_overflow buf = head_is overflow_marker buf && length buf == overflow_ref_size

-- `data.chunks(n)`, with the length of the data as fuel
unfoldable pub chunks_from : ℕ → ℕ → Bytes → List Bytes
chunks_from zero n bs = []
chunks_from (suc fuel) n [] = []
chunks_from (suc fuel) n (b ∷ bs) = take n (b ∷ bs) ∷ chunks_from fuel n (drop n (b ∷ bs))

unfoldable pub chunks : ℕ → Bytes → List Bytes
unfolding chunks_from
chunks n bs = chunks_from (length bs) n bs

abbrev pub next_of : List ℕ → ℕ
next_of [] = 0
next_of (id ∷ ids) = id

-- The page of a chunk, before it is stamped. The number of slots is the chunk's length.
unfoldable pub chunk_page : ℕ → ℕ → Bytes → Bytes
chunk_page id next chunk =
    let h = record (new_header id overflow_page) {
      num_slots = length chunk % 2 ^ 16;
      next_page_id = next;
    } in
    splice page_header_size chunk (write_to h (replicate page_size 0))

-- How a loop over a chain ends. `running` is the loop that has not ended on its fuel.
pub data Traversal (A : Type 0) : Type 0 where
  finished : A → Traversal A
  panicked running : Traversal A

module _ (crc : Bytes → ℕ) where
  unfoldable pub allocate_pages : ℕ → Pages (List ℕ)
  allocate_pages zero = return []
  allocate_pages (suc n) = do id ← allocate_page crc; ids ← allocate_pages n; return (id ∷ ids)

  unfoldable pub write_chain : List ℕ → List Bytes → Pages (Unit {0})
  write_chain [] cs = return tt
  write_chain (id ∷ ids) [] = return tt
  write_chain (id ∷ ids) (c ∷ cs) = do
    write_page crc id (chunk_page id (next_of ids) c)
    write_chain ids cs

  -- `Ok(page_ids[0])`, where `none` is the panic that data of no bytes leads to
  abbrev pub first_id : List ℕ → Option ℕ
  first_id [] = none
  first_id (id ∷ ids) = some id

  unfoldable pub write_overflow : Bytes → Pages (Option ℕ)
  write_overflow bs = do
    ids ← allocate_pages (length (chunks page_usable_space bs))
    write_chain ids (chunks page_usable_space bs)
    return (first_id ids)

  -- The `while` loop, with fuel. A chunk that is longer than its page panics.
  unfoldable pub read_chain : ℕ → ℕ → Bytes → PageManager → Traversal (Outcome Bytes)
  read_chain zero id out pm = running
  read_chain (suc fuel) id out pm = elim (id == 0) [
    | true ↦ finished (ok out)
    | false ↦ elim (read_page crc id pm) [
      | err e ↦ finished (err e)
      | ok buf ↦ elim (ltb page_usable_space (read_from buf).num_slots) [
        | true ↦ panicked
        | false ↦
            read_chain fuel (read_from buf).next_page_id
              (out ++ slice page_header_size (read_from buf).num_slots buf) pm
      ]
    ]
  ]

  unfoldable pub read_overflow : ℕ → ℕ → PageManager → Traversal (Outcome Bytes)
  unfolding read_chain
  read_overflow fuel id pm = read_chain fuel id [] pm

  unfoldable pub free_overflow : ℕ → ℕ → PageManager → PageManager × Traversal (Outcome (Unit {0}))
  free_overflow zero id pm = (pm, running)
  free_overflow (suc fuel) id pm = elim (id == 0) [
    | true ↦ (pm, finished (ok tt))
    | false ↦ elim (read_page crc id pm) [
      | err e ↦ (pm, finished (err e))
      | ok buf ↦ elim (free_page_at crc id pm).1 [
        | err e ↦ ((free_page_at crc id pm).0, finished (err e))
        | ok _ ↦ free_overflow fuel (read_from buf).next_page_id (free_page_at crc id pm).0
      ]
    ]
  ]
