-- ===== src/Page/Overflow/RoundTrip.antt =====
-- `write_overflow` and `read_overflow` of src/page/overflow.rs, over the free list.
use grumpydb.Prelude.{
  ℕ, zero, suc, ◌+◌, ◌^◌, ◌≤◌, ◌<◌, ◌≡◌, refl, ap, ◌∙◌, arith, true, false, inl, inr, Bool-cases,
  Option, some, List, [], ◌∷◌, ◌++◌, ok, ◌==◌, ==→eq, length, length-drop, take, drop,
  take-append-drop, take_front, All,
}
use grumpydb.Prelude.Bytes.{
  Bytes, from_le_bytes, to_le_bytes, number_at, length-to_le_bytes, past_le, number_front,
  from_le_bytes-to_le_bytes,
}
use grumpydb.Prelude.Members.{contains, Distinct, All-contains}
use grumpydb.Error.{Outcome}
use grumpydb.Page.Manager.{PageManager, allocate_page}
use grumpydb.Page.Manager.Valid.{live, InRange, IsValid, IsAllocation}
use grumpydb.Page.Manager.Reuse.{allocate_page-IsAllocation}
use grumpydb.Page.Overflow.{
  page_usable_space, encode_overflow_ref, decode_overflow_ref, is_overflow, chunks_from, chunks,
  next_of, finished, allocate_pages, write_chain, first_id, write_overflow, read_overflow,
}
use grumpydb.Page.Overflow.Chain.{joined, IsWritten, write_chain-IsWritten, read_chain-Holds}

-- An overflow reference is read back as the page and the length that it was made of, and it is
-- recognised; both are `u32`.
pub decode_overflow_ref-encode :
    (first len : ℕ)
    → first < 2 ^ 32
    → len < 2 ^ 32
    → (decode_overflow_ref (encode_overflow_ref first len) ≡ some (first, len))
      × (is_overflow (encode_overflow_ref first len) ≡ true)
unfolding decode_overflow_ref encode_overflow_ref is_overflow to_le_bytes
decode_overflow_ref-encode first len h k =
    let at_page : number_at 4 1 (encode_overflow_ref first len) ≡ first =
      unfold encode_overflow_ref in number_front 4 first (to_le_bytes 4 len) h in
    let len_at : number_at 4 5 (encode_overflow_ref first len) ≡ len =
      unfold encode_overflow_ref in
      rw (past_le 4 first 4 0 (to_le_bytes 4 len) (omega arith)) (
        ap from_le_bytes (take_front 4 (to_le_bytes 4 len) [] (length-to_le_bytes 4 len))
        ∙ from_le_bytes-to_le_bytes 4 len k) in
    (rw (at_page, len_at) refl, refl)

take_le : (n : ℕ) (bs : Bytes) → length (take n bs) ≤ n
take_le zero bs = omega arith
take_le (suc n) [] = omega arith
take_le (suc n) (b ∷ bs) = omega (arith, take_le n bs)

-- The chunks are the data, and none is longer than `n`.
short_chunks : (fuel n : ℕ) (bs : Bytes) → All (λ (c : Bytes). length c ≤ n) (chunks_from fuel n bs)
unfolding chunks_from
short_chunks zero n bs = tt
short_chunks (suc fuel) n [] = tt
short_chunks (suc fuel) n (b ∷ bs) = (take_le n (b ∷ bs), short_chunks fuel n (drop n (b ∷ bs)))

joined-chunks :
    (fuel n : ℕ) (bs : Bytes) → 0 < n → length bs ≤ fuel → joined (chunks_from fuel n bs) ≡ bs
unfolding chunks_from
joined-chunks zero n [] pos h = refl
joined-chunks zero n (b ∷ bs) pos h = absurd (omega arith)
joined-chunks (suc fuel) n [] pos h = refl
joined-chunks (suc fuel) n (b ∷ bs) pos h =
    ap (◌++◌ (take n (b ∷ bs)))
      (joined-chunks fuel n (drop n (b ∷ bs)) pos (omega (arith, length-drop n (b ∷ bs))))
    ∙ take-append-drop n (b ∷ bs)

-- What `allocate_pages` returns: so many different pages of the file, none of them in use before.
record IsReserved (crc : Bytes → ℕ) (pm : PageManager) (free : List ℕ) (n : ℕ)
    (r : PageManager × Outcome (List ℕ)) : Type 0 where
  ids : List ℕ
  rest : List ℕ
  returned : r.1 ≡ ok ids
  many : length ids ≡ n
  valid : IsValid crc r.0 rest
  distinct : Distinct ids
  range : All (InRange r.0) ids
  fresh : All (λ (k : ℕ). live pm free k ≡ false) ids
  kept : (k : ℕ) → live pm free k ≡ true → r.0.page_at k ≡ pm.page_at k
  still : (k : ℕ) → live pm free k ≡ true → live r.0 rest k ≡ true

module _ (crc : Bytes → ℕ) where
  All-All : {P Q : ℕ → Type 0} → ((k : ℕ) → P k → Q k) → (ids : List ℕ) → All P ids → All Q ids
  All-All f [] all = tt
  All-All f (id ∷ ids) all = (f id all.0, All-All f ids all.1)

  allocate_pages_step :
      (n id : ℕ) (ids : List ℕ) (pm : PageManager)
      → (allocate_page crc pm).1 ≡ ok id
      → (allocate_pages crc n (allocate_page crc pm).0).1 ≡ ok ids
      → allocate_pages crc (suc n) pm
        ≡ ((allocate_pages crc n (allocate_page crc pm).0).0, ok (id ∷ ids))
  unfolding allocate_pages
  allocate_pages_step n id ids pm e f = ground arith

  absent :
      (pm : PageManager) (rest : List ℕ) (id : ℕ) (ids : List ℕ)
      → live pm rest id ≡ true
      → All (λ (k : ℕ). live pm rest k ≡ false) ids
      → contains id ids ≡ false
  absent pm rest id ids h all = elim (Bool-cases (contains id ids)) [
    | inl at ↦
        let dead : live pm rest id ≡ false =
          All-contains (λ (k : ℕ). live pm rest k ≡ false) id ids all at in
        cc
    | inr new ↦ new
  ]

  apart :
      (pm : PageManager) (free : List ℕ) (k id : ℕ)
      → live pm free k ≡ true
      → live pm free id ≡ false
      → (k == id) ≡ false
  apart pm free k id h dead = elim (Bool-cases (k == id)) [
    | inl same ↦
        let e : live pm free k ≡ live pm free id = ap (live pm free) (==→eq k id same) in cc
    | inr other ↦ other
  ]

  allocate_pages-IsReserved :
      (n : ℕ) (pm : PageManager) (free : List ℕ)
      → ((bs : Bytes) → crc bs < 2 ^ 32)
      → IsValid crc pm free
      → pm.num_pages + n < 2 ^ 32
      → IsReserved crc pm free n (allocate_pages crc n pm)
  allocate_pages-IsReserved zero pm free fits v room =
      unfold allocate_pages in
      record {
        ids = [];
        rest = free;
        returned = refl;
        many = refl;
        valid = v;
        distinct = tt;
        range = tt;
        fresh = tt;
        kept = λ k h. refl;
        still = λ k h. h;
      }
  allocate_pages-IsReserved (suc n) pm free fits v room =
      let a : IsAllocation crc pm free (allocate_page crc pm) =
        allocate_page-IsAllocation crc fits pm free v (omega arith) in
      let pm1 = (allocate_page crc pm).0 in
      let more : IsReserved crc pm1 a.rest n (allocate_pages crc n pm1) =
        allocate_pages-IsReserved n pm1 a.rest fits a.valid (omega (arith, a.grown)) in
      let used : live pm1 a.rest a.id ≡ true = ground (arith, a.lives a.id) in
      let final = (allocate_pages crc n pm1).0 in
      let in_use : live final more.rest a.id ≡ true = more.still a.id used in
      let own : InRange final a.id = ground (arith, in_use) in
      rw (allocate_pages_step n a.id more.ids pm a.returned more.returned) (record {
        ids = a.id ∷ more.ids;
        rest = more.rest;
        returned = refl;
        many = omega (arith, more.many);
        valid = more.valid;
        distinct = (absent pm1 a.rest a.id more.ids used more.fresh, more.distinct);
        range = (own, more.range);
        fresh = (
          a.fresh,
          All-All {P = λ (k : ℕ). live pm1 a.rest k ≡ false} {Q = λ (k : ℕ). live pm free k ≡ false}
              (λ (k : ℕ) (dead : live pm1 a.rest k ≡ false). ground (arith, a.lives k, dead))
              more.ids more.fresh,
        );
        kept = λ k h.
            more.kept k (ground (arith, a.lives k, h))
            ∙ a.kept k (ground (arith, h)) (apart pm free k a.id h a.fresh);
        still = λ k h. more.still k (ground (arith, a.lives k, h));
      })

  write_overflow_step :
      (bs : Bytes) (ids : List ℕ) (pm : PageManager)
      → (allocate_pages crc (length (chunks page_usable_space bs)) pm).1 ≡ ok ids
      → (write_chain crc ids
          (chunks page_usable_space bs)
          (allocate_pages crc (length (chunks page_usable_space bs)) pm).0).1
        ≡ ok tt
      → write_overflow crc bs pm ≡ (
        (write_chain crc ids
            (chunks page_usable_space bs)
            (allocate_pages crc (length (chunks page_usable_space bs)) pm).0).0,
        ok (first_id crc ids),
      )
  unfolding write_overflow
  write_overflow_step bs ids pm e f = ground arith

  first_id-next : (ids : List ℕ) → 0 < length ids → first_id crc ids ≡ some (next_of ids)
  first_id-next [] h = absurd (omega arith)
  first_id-next (id ∷ ids) h = refl

  chunked : (bs : Bytes) → 0 < length bs → 0 < length (chunks page_usable_space bs)
  unfolding chunks
  chunked [] h = absurd (omega arith)
  chunked (b ∷ bs) h = omega arith

-- Data of at least a byte that `write_overflow` has stored is what `read_overflow` reads back from the
-- page that it returned, with more fuel than the data has chunks, and every page that was in use is
-- as it was. The free list is valid, the checksum function gives 32 bits, and so do the page numbers.
pub read_overflow-write_overflow :
    (crc : Bytes → ℕ) (pm : PageManager) (free : List ℕ) (bs : Bytes)
    → ((b : Bytes) → crc b < 2 ^ 32)
    → IsValid crc pm free
    → 0 < length bs
    → pm.num_pages + length (chunks page_usable_space bs) < 2 ^ 32
    → (id : ℕ) × ((write_overflow crc bs pm).1 ≡ ok (some id))
      × ((fuel : ℕ)
          → length (chunks page_usable_space bs) < fuel
          → read_overflow crc fuel id (write_overflow crc bs pm).0 ≡ finished (ok bs))
      × ((k : ℕ) → live pm free k ≡ true → (write_overflow crc bs pm).0.page_at k ≡ pm.page_at k)
read_overflow-write_overflow crc pm free bs fits v some_data room =
    let cs = chunks page_usable_space bs in
    let got : IsReserved crc pm free (length cs) (allocate_pages crc (length cs) pm) =
      allocate_pages-IsReserved crc (length cs) pm free fits v room in
    let reserved = (allocate_pages crc (length cs) pm).0 in
    let short : All (λ (c : Bytes). length c ≤ page_usable_space) cs =
      unfold chunks in short_chunks (length bs) page_usable_space bs in
    let out : IsWritten crc reserved got.ids cs (write_chain crc got.ids cs reserved) =
      write_chain-IsWritten crc got.ids cs reserved fits got.range got.distinct got.many short in
    let all : joined cs ≡ bs =
      unfold chunks in joined-chunks (length bs) page_usable_space bs (omega arith) (omega arith) in
    let step = write_overflow_step crc bs got.ids pm got.returned out.returned in
    (
      next_of got.ids,
      rw step (
          ap (λ (o : Option ℕ). ok o)
            (first_id-next crc got.ids (omega (arith, got.many, chunked crc bs some_data)))),
      (λ fuel enough.
          unfold read_overflow in
          rw step (
            read_chain-Holds crc fuel got.ids cs [] (write_chain crc got.ids cs reserved).0
              (omega (arith, out.same_pages, got.valid.pages_fit)) (omega (arith, got.many))
              out.holds
            ∙ ap (λ (b : Bytes). finished (ok b)) all)),
      λ k h. rw step (out.kept k (absent crc pm free k got.ids h got.fresh) ∙ got.kept k h),
    )
