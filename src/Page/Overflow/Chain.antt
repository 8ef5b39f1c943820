-- ===== src/Page/Overflow/Chain.antt =====
-- A chain of overflow pages, as src/page/overflow.rs writes it and reads it.
use grumpydb.Prelude.{
  ℕ, zero, suc, ◌+◌, ◌%◌, ◌^◌, ◌≤◌, ◌<◌, ◌≡◌, refl, sym, ap, ◌∙◌, arith, false, List, [], ◌∷◌, ◌++◌,
  append_assoc, append-nil, ok, ge→ltb, gt→leb, ◌==◌, length, slice, replicate, All,
}
use grumpydb.Prelude.Bytes.{Bytes, from_le_bytes, number_at, to_le_bytes, length-to_le_bytes}
use grumpydb.Prelude.Splice.{
  splice, length-splice, slice-splice_self, slice-splice_before, slice-splice_after,
}
use grumpydb.Prelude.Members.{contains, Distinct}
use grumpydb.Error.{Outcome}
use grumpydb.Page.{
  page_size, overflow_page, PageHeader, new_header, write_to, read_from, stamp_checksum,
  compute_checksum,
}
use grumpydb.Page.Header.{IsTyped, read_from-write_to}
use grumpydb.Page.Manager.{PageManager, blank, put, read_page, write_page}
use grumpydb.Page.Manager.Entries.{length-blank}
use grumpydb.Page.Manager.FreeList.{read_page-put}
use grumpydb.Page.Manager.Valid.{InRange}
use grumpydb.Page.Overflow.{
  page_usable_space, next_of, chunk_page, finished, write_chain, read_chain,
}

abbrev chunk_header : ℕ → ℕ → Bytes → PageHeader
chunk_header id next c = record (new_header id overflow_page) {
  num_slots = length c % 2 ^ 16;
  next_page_id = next;
}

chunk_header-IsTyped :
    (id next : ℕ) (c : Bytes) → id < 2 ^ 32 → next < 2 ^ 32 → IsTyped (chunk_header id next c)
unfolding new_header
chunk_header-IsTyped id next c h k = record {
  id_fits = h;
  flags_fit = omega arith;
  slots_fit = omega arith;
  start_fits = omega arith;
  end_fits = omega arith;
  next_fits = k;
  prev_fits = omega arith;
  lsn_fits = omega arith;
  checksum_fits = omega arith;
}

length-header_page : (h : PageHeader) → length (write_to h (replicate page_size 0)) ≡ page_size
length-header_page h = unfold blank in length-blank h

pub length-chunk_page : (id next : ℕ) (c : Bytes) → length (chunk_page id next c) ≡ page_size
unfolding chunk_page
length-chunk_page id next c =
    let h = chunk_header id next c in
    length-splice 32 c (write_to h (replicate page_size 0)) ∙ length-header_page h

abbrev pub joined : List Bytes → Bytes
joined [] = []
joined (c ∷ cs) = c ++ joined cs

module _ (crc : Bytes → ℕ) where
  -- A part of the header before the checksum.
  header_part :
      (id next w i : ℕ) (c : Bytes)
      → i + w ≤ 28
      → number_at w i (stamp_checksum crc (chunk_page id next c))
        ≡ number_at w i (write_to (chunk_header id next c) (replicate page_size 0))
  unfolding stamp_checksum chunk_page
  header_part id next w i c h =
      let zeros = write_to (chunk_header id next c) (replicate page_size 0) in
      ap from_le_bytes (
        slice-splice_before i w 28 (to_le_bytes 4 (compute_checksum crc (chunk_page id next c)))
          (splice 32 c zeros) h
        ∙ slice-splice_before i w 32 c zeros (omega arith))

  -- What is read from the page of a chunk: its length, the next page and the chunk.
  chunk_fields :
      (id next : ℕ) (c : Bytes)
      → id < 2 ^ 32
      → next < 2 ^ 32
      → length c ≤ page_usable_space
      → ((read_from (stamp_checksum crc (chunk_page id next c))).num_slots ≡ length c)
        × ((read_from (stamp_checksum crc (chunk_page id next c))).next_page_id ≡ next)
        × (slice 32 (length c) (stamp_checksum crc (chunk_page id next c)) ≡ c)
  unfolding read_from
  chunk_fields id next c h k short =
      let hd = chunk_header id next c in
      let zeros = write_to hd (replicate page_size 0) in
      let back =
        (read_from-write_to hd (replicate page_size 0) (chunk_header-IsTyped id next c h k)).0 in
      (
        header_part id next 2 6 c (omega arith)
            ∙ ap (λ (g : PageHeader). g.num_slots) back
            ∙ omega (arith, short),
        header_part id next 4 12 c (omega arith) ∙ ap (λ (g : PageHeader). g.next_page_id) back,
        unfold stamp_checksum chunk_page in
            slice-splice_after 32 (length c) 28
              (to_le_bytes 4 (compute_checksum crc (chunk_page id next c))) (splice 32 c zeros)
              (omega (arith, length-to_le_bytes 4 (compute_checksum crc (chunk_page id next c))))
            ∙ slice-splice_self 32 (length c) c zeros refl
                (omega (arith, short, length-header_page hd)),
      )

  -- The pages `ids` hold the chunks, each with a link to the next.
  abbrev pub Holds : PageManager → List ℕ → List Bytes → Type 0
  Holds pm [] [] = Unit {0}
  Holds pm (id ∷ ids) (c ∷ cs) =
      InRange pm id
      × (read_page crc id pm ≡ ok (stamp_checksum crc (chunk_page id (next_of ids) c)))
      × (length c ≤ page_usable_space)
      × Holds pm ids cs
  Holds pm _ _ = ◌<◌ 1 0

  next_small :
      (pm : PageManager) (ids : List ℕ) (cs : List Bytes)
      → pm.num_pages < 2 ^ 32
      → Holds pm ids cs
      → next_of ids < 2 ^ 32
  next_small pm [] cs h k = omega arith
  next_small pm (id ∷ ids) [] h k = absurd (omega (arith, k))
  next_small pm (id ∷ ids) (c ∷ cs) h k = omega (arith, k.0)

  read_more :
      (fuel id : ℕ) (out buf : Bytes) (pm : PageManager)
      → 0 < id
      → (read_from buf).num_slots ≤ page_usable_space
      → read_page crc id pm ≡ ok buf
      → read_chain crc (suc fuel) id out pm
        ≡ read_chain crc fuel
            (read_from buf).next_page_id
            (out ++ slice 32 (read_from buf).num_slots buf)
            pm
  unfolding read_chain
  read_more fuel id out buf pm pos short e =
      let other : (id == 0) ≡ false = ground arith in
      rw (other, read_chain)
        (rw (e, read_chain)
          (rw (ge→ltb page_usable_space (read_from buf).num_slots short, read_chain) refl))

  read_step :
      (fuel id next : ℕ) (c out : Bytes) (pm : PageManager)
      → 0 < id
      → id < 2 ^ 32
      → next < 2 ^ 32
      → length c ≤ page_usable_space
      → read_page crc id pm ≡ ok (stamp_checksum crc (chunk_page id next c))
      → read_chain crc (suc fuel) id out pm ≡ read_chain crc fuel next (out ++ c) pm
  read_step fuel id next c out pm pos h k short e =
      let (len, link, body) = chunk_fields id next c h k short in
      let buf = stamp_checksum crc (chunk_page id next c) in
      read_more fuel id out buf pm pos (rw len short) e
      ∙ ap (λ (n : ℕ). read_chain crc fuel n (out ++ slice 32 (read_from buf).num_slots buf) pm)
          link
      ∙ ap (λ (b : Bytes). read_chain crc fuel next (out ++ b) pm)
          (ap (λ (n : ℕ). slice 32 n buf) len ∙ body)

  pub read_chain-Holds :
      (fuel : ℕ) (ids : List ℕ) (cs : List Bytes) (out : Bytes) (pm : PageManager)
      → pm.num_pages < 2 ^ 32
      → length ids < fuel
      → Holds pm ids cs
      → read_chain crc fuel (next_of ids) out pm ≡ finished (ok (out ++ joined cs))
  read_chain-Holds zero ids cs out pm small enough h = absurd (omega arith)
  read_chain-Holds (suc fuel) [] [] out pm small enough h =
      unfold read_chain in ap (λ (b : Bytes). finished (ok b)) (sym (append-nil out))
  read_chain-Holds (suc fuel) [] (c ∷ cs) out pm small enough h = absurd (omega (arith, h))
  read_chain-Holds (suc fuel) (id ∷ ids) [] out pm small enough h = absurd (omega (arith, h))
  read_chain-Holds (suc fuel) (id ∷ ids) (c ∷ cs) out pm small enough h =
      let (range, e, short, more) = h in
      read_step fuel id (next_of ids) c out pm range.0 (omega (arith, range, small))
        (next_small pm ids cs small more) short e
      ∙ read_chain-Holds fuel ids cs (out ++ c) pm small (omega arith) more
      ∙ ap (λ (b : Bytes). finished (ok b)) (append_assoc out c (joined cs))

  read_page-frame :
      (id : ℕ) (pm later : PageManager)
      → later.num_pages ≡ pm.num_pages
      → later.page_at id ≡ pm.page_at id
      → read_page crc id later ≡ read_page crc id pm
  unfolding read_page
  read_page-frame id pm later e f = ground arith

  write_step :
      (id : ℕ) (ids : List ℕ) (c : Bytes) (cs : List Bytes) (pm : PageManager)
      → id < pm.num_pages
      → write_chain crc (id ∷ ids) (c ∷ cs) pm
        ≡ write_chain crc ids cs (put id (stamp_checksum crc (chunk_page id (next_of ids) c)) pm)
  unfolding write_chain write_page
  write_step id ids c cs pm h = ground (arith, gt→leb pm.num_pages id h)

  -- What `write_chain` leaves: the chain, and every other page as it was.
  pub record IsWritten (pm : PageManager) (ids : List ℕ) (cs : List Bytes)
      (r : PageManager × Outcome (Unit {0})) : Type 0 where
    pub returned : r.1 ≡ ok tt
    pub holds : Holds r.0 ids cs
    pub same_pages : r.0.num_pages ≡ pm.num_pages
    pub kept : (k : ℕ) → contains k ids ≡ false → r.0.page_at k ≡ pm.page_at k

  pub write_chain-IsWritten :
      (ids : List ℕ) (cs : List Bytes) (pm : PageManager)
      → ((bs : Bytes) → crc bs < 2 ^ 32)
      → All (InRange pm) ids
      → Distinct ids
      → length ids ≡ length cs
      → All (λ (c : Bytes). length c ≤ page_usable_space) cs
      → IsWritten pm ids cs (write_chain crc ids cs pm)
  unfolding write_chain put
  write_chain-IsWritten [] [] pm fits range distinct e short = record {
    returned = refl;
    holds = tt;
    same_pages = refl;
    kept = λ k h. refl;
  }
  write_chain-IsWritten [] (c ∷ cs) pm fits range distinct e short = absurd (omega arith)
  write_chain-IsWritten (id ∷ ids) [] pm fits range distinct e short = absurd (omega arith)
  write_chain-IsWritten (id ∷ ids) (c ∷ cs) pm fits range distinct e short =
      let page = chunk_page id (next_of ids) c in
      let after = put id (stamp_checksum crc page) pm in
      let rest : IsWritten after ids cs (write_chain crc ids cs after) =
        write_chain-IsWritten ids cs after fits (range.1) distinct.1 (omega arith) short.1 in
      let final = (write_chain crc ids cs after).0 in
      let mine : read_page crc id final ≡ ok (stamp_checksum crc page) =
        read_page-frame id after final rest.same_pages (rest.kept id distinct.0)
        ∙ read_page-put crc id page pm fits range.0.1 (length-chunk_page id (next_of ids) c) in
      rw (write_step id ids c cs pm range.0.1) (record {
        returned = rest.returned;
        holds = (rw rest.same_pages range.0, mine, short.0, rest.holds);
        same_pages = rest.same_pages;
        kept = λ k h. ground (arith, rest.kept k, h);
      })
