-- ===== src/Page/Manager/Reuse.antt =====
-- Which pages are in use, as `allocate_page` and `free_page` of src/page/manager.rs change it.
use grumpydb.Prelude.{
  ℕ, ◌+◌, ◌^◌, ◌<◌, ◌≡◌, refl, sym, subst, ap, ◌∙◌, arith, true, false, some, List, [], ◌∷◌, ◌++◌,
  ok, ◌==◌, length, length-append, take_front, All, All-append,
}
use grumpydb.Prelude.Bytes.{Bytes}
use grumpydb.Prelude.Members.{contains, contains-append, append-Distinct, append-Distinct_inv}
use grumpydb.Page.{free_page, new_header, stamp_checksum}
use grumpydb.Page.Manager.{
  PageManager, blank, put, new, list_page, pop, read_page, read_free_list, write_page, pop_rest,
  pop_free_list, push_free_list, extend, or_extend, allocate_page, free_page_at,
}
use grumpydb.Page.Manager.FreeList.{
  free_list_capacity, read_free_list-new, read_free_list-list_page,
}
use grumpydb.Page.Manager.Valid.{
  live, InRange, IsValid, IsAllocation, IsRelease, All-u32, All-append_inv, nothing, last,
  pop-cases, relisted, read_free_list-put, write_free_list-put,
}

module _ (crc : Bytes → ℕ) (fits : (bs : Bytes) → crc bs < 2 ^ 32) where
  allocate_page-empty :
      (pm : PageManager) → read_free_list crc pm ≡ ok [] → allocate_page crc pm ≡ extend crc pm
  unfolding allocate_page pop_free_list pop pop_rest or_extend
  allocate_page-empty pm e = ground arith

  allocate_page-last :
      (pm : PageManager) (ids rest : List ℕ) (id : ℕ)
      → read_free_list crc pm ≡ ok ids
      → pop ids ≡ some (rest, id)
      → 0 < pm.num_pages
      → allocate_page crc pm ≡ (put 0 (stamp_checksum crc (list_page rest)) pm, ok id)
  unfolding allocate_page pop_free_list pop_rest or_extend
  allocate_page-last pm ids rest id e f h = ground (arith, write_free_list-put crc fits rest pm)

  free_page-put :
      (pm : PageManager) (ids : List ℕ) (id : ℕ)
      → IsValid crc pm ids
      → InRange pm id
      → free_page_at crc id pm ≡ (
        put 0
            (stamp_checksum crc (list_page (ids ++ id ∷ [])))
            (put id (stamp_checksum crc (blank (new_header id free_page))) pm),
        ok tt,
      )
  unfolding free_page_at write_page push_free_list put
  free_page-put pm ids id v r =
      let wiped = put id (stamp_checksum crc (blank (new_header id free_page))) pm in
      ground (
        arith,
        read_free_list-put crc fits id (stamp_checksum crc (blank (new_header id free_page))) pm,
        write_free_list-put crc fits (ids ++ id ∷ []) wiped,
      )

  pub extend-IsValid :
      (pm : PageManager)
      → IsValid crc pm []
      → pm.num_pages + 1 < 2 ^ 32
      → IsValid crc (extend crc pm).0 []
  unfolding extend put
  extend-IsValid pm v room = record {
    list_is = unfold read_free_list read_page in ground (arith, v.list_is);
    in_range = tt;
    few = omega arith;
    distinct = tt;
    some_page = omega arith;
    pages_fit = omega arith;
  }

  extend-IsAllocation :
      (pm : PageManager)
      → IsValid crc pm []
      → pm.num_pages + 1 < 2 ^ 32
      → IsAllocation crc pm [] (extend crc pm)
  unfolding extend put
  extend-IsAllocation pm v room = record {
    id = pm.num_pages;
    rest = [];
    returned = refl;
    valid = extend-IsValid pm v room;
    fresh = ground arith;
    lives = λ k. ground arith;
    kept = λ k h other. ground arith;
    grown = omega arith;
  }

  reuse-IsAllocation :
      (pm : PageManager) (rest : List ℕ) (id : ℕ)
      → IsValid crc pm (rest ++ id ∷ [])
      → IsAllocation crc pm
          (rest ++ id ∷ [])
          (put 0 (stamp_checksum crc (list_page rest)) pm, ok id)
  reuse-IsAllocation pm rest id v =
      let (range, own) = All-append_inv pm rest id v.in_range in
      let (distinct, new) = append-Distinct_inv id rest v.distinct in
      record {
        id = id;
        rest = rest;
        returned = refl;
        valid =
            relisted crc fits pm rest range (omega (arith, v.few, length-append rest (id ∷ [])))
              distinct v.some_page v.pages_fit;
        fresh = ground (arith, contains-append id rest (id ∷ []));
        lives = λ k. unfold put in ground (arith, contains-append k rest (id ∷ []), new, own);
        kept = λ k h other. unfold put in ground arith;
        grown = unfold put in omega arith;
      }

  -- `allocate_page` returns a page that was not in use. It is in use from then on, every other page is
  -- in use as before, and only page 0 and that page are written. The page number still fits a `u32`.
  pub allocate_page-IsAllocation :
      (pm : PageManager) (ids : List ℕ)
      → IsValid crc pm ids
      → pm.num_pages + 1 < 2 ^ 32
      → IsAllocation crc pm ids (allocate_page crc pm)
  allocate_page-IsAllocation pm ids v room = elim (pop-cases ids) [
    | nothing e f ↦ rw (allocate_page-empty pm (v.list_is ∙ ap ok e)) (
        subst (λ (l : List ℕ). IsAllocation crc pm l (extend crc pm)) (sym e)
          (extend-IsAllocation pm (subst (IsValid crc pm) e v) room))
    | last ys y e f ↦ rw (allocate_page-last pm ids ys y v.list_is f v.some_page) (
        subst
          (λ (l : List ℕ).
            IsAllocation crc pm l (put 0 (stamp_checksum crc (list_page ys)) pm, ok y))
          (sym e) (reuse-IsAllocation pm ys y (subst (IsValid crc pm) e v)))
  ]

  -- `free_page` of a page in use, where the free list has room for one more, takes it out of use; every
  -- other page is in use as before, and only page 0 and that page are written.
  pub free_page_at-IsRelease :
      (pm : PageManager) (ids : List ℕ) (id : ℕ)
      → IsValid crc pm ids
      → live pm ids id ≡ true
      → length ids < free_list_capacity
      → IsRelease crc pm ids id (free_page_at crc id pm)
  free_page_at-IsRelease pm ids id v used room =
      let range : InRange pm id = ground (arith, used) in
      let new : contains id ids ≡ false = ground (arith, used) in
      let wiped = put id (stamp_checksum crc (blank (new_header id free_page))) pm in
      let more : All (InRange wiped) (ids ++ id ∷ []) =
        unfold put in All-append (InRange wiped) ids (id ∷ []) v.in_range (range, tt) in
      rw (free_page-put pm ids id v range) (record {
        returned = refl;
        valid =
            relisted crc fits wiped (ids ++ id ∷ []) more
              (omega (arith, room, length-append ids (id ∷ [])))
              (append-Distinct id ids v.distinct new) (unfold put in v.some_page)
              (unfold put in v.pages_fit);
        lives = λ k. unfold put in ground (arith, contains-append k ids (id ∷ []), range);
        kept = λ k h other. unfold put in ground arith;
      })

  -- Where the free list is full, `free_page` of a page in use returns, but the page is lost: it is
  -- overwritten with a blank one, the free list stays as it was, so that neither this page nor
  -- another one comes out of use, and only page 0 and that page are written.
  pub free_page_at-full :
      (pm : PageManager) (ids : List ℕ) (id : ℕ)
      → IsValid crc pm ids
      → live pm ids id ≡ true
      → length ids ≡ free_list_capacity
      → ((free_page_at crc id pm).1 ≡ ok tt)
        × IsValid crc (free_page_at crc id pm).0 ids
        × ((free_page_at crc id pm).0.page_at id
            ≡ stamp_checksum crc (blank (new_header id free_page)))
        × ((k : ℕ) → live (free_page_at crc id pm).0 ids k ≡ live pm ids k)
        × ((k : ℕ)
            → 0 < k
            → (k == id) ≡ false
            → (free_page_at crc id pm).0.page_at k ≡ pm.page_at k)
  free_page_at-full pm ids id v used full =
      let range : InRange pm id = ground (arith, used) in
      let wiped = put id (stamp_checksum crc (blank (new_header id free_page))) pm in
      let longer = ids ++ id ∷ [] in
      let small : All (λ (i : ℕ). i < 2 ^ 32) longer =
        All-u32 pm longer v.pages_fit
          (All-append (InRange pm) ids (id ∷ []) v.in_range (range, tt)) in
      let few : length longer < 2 ^ 32 = omega (arith, full, length-append ids (id ∷ [])) in
      let same : read_free_list crc (put 0 (stamp_checksum crc (list_page longer)) wiped) ≡ ok ids =
        read_free_list-list_page crc longer wiped fits (unfold put in v.some_page) few small
        ∙ ap ok (take_front free_list_capacity ids (id ∷ []) full) in
      rw (free_page-put pm ids id v range) (
        refl,
        record {
          list_is = same;
          in_range = unfold put in v.in_range;
          few = v.few;
          distinct = v.distinct;
          some_page = unfold put in v.some_page;
          pages_fit = unfold put in v.pages_fit;
        },
        unfold put in ground (arith, range),
        λ k. unfold put in refl,
        λ k h other. unfold put in ground arith,
      )

  -- A new file has one page, an empty free list and no page in use.
  pub new-IsValid :
      (pages : ℕ → Bytes)
      → IsValid crc (new 0 pages) [] × ((k : ℕ) → live (new 0 pages) [] k ≡ false)
  unfolding new
  new-IsValid pages = (
    record {
      list_is = unfold new in read_free_list-new crc pages;
      in_range = tt;
      few = omega arith;
      distinct = tt;
      some_page = omega arith;
      pages_fit = omega arith;
    },
    λ k. ground arith,
  )
