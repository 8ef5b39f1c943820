-- ===== src/Page/Manager/Valid.antt =====
-- Files whose page 0 holds a free list: src/page/manager.rs.
use grumpydb.Prelude.{
  ℕ, zero, suc, ◌+◌, ◌^◌, ◌≤◌, ◌<◌, ◌≡◌, refl, ap, ◌∙◌, arith, Bool, false, not, ◌&&◌, ◌||◌, none,
  some, List, [], ◌∷◌, ◌++◌, ok, ltb, gt→leb, ◌==◌, length, take, All,
}
use grumpydb.Prelude.Bytes.{Bytes}
use grumpydb.Prelude.Members.{contains, Distinct}
use grumpydb.Error.{Outcome}
use grumpydb.Page.{stamp_checksum}
use grumpydb.Page.Manager.{
  PageManager, put, list_page, pop, read_page, read_free_list, write_page, write_free_list,
}
use grumpydb.Page.Manager.FreeList.{free_list_capacity, read_free_list-list_page}

-- The page is neither page 0 nor in the free list.
abbrev pub live : PageManager → List ℕ → ℕ → Bool
live pm ids k = ltb 0 k && (ltb k pm.num_pages && not (contains k ids))

abbrev pub InRange : PageManager → ℕ → Type 0
InRange pm id = (0 < id) × (id < pm.num_pages)

-- Page 0 holds the free list `ids`, of different pages of the file.
pub record IsValid (crc : Bytes → ℕ) (pm : PageManager) (ids : List ℕ) : Type 0 where
  pub list_is : read_free_list crc pm ≡ ok ids
  pub in_range : All (InRange pm) ids
  pub few : length ids ≤ free_list_capacity
  pub distinct : Distinct ids
  pub some_page : 0 < pm.num_pages
  pub pages_fit : pm.num_pages < 2 ^ 32

-- A page `id` has come into use, and nothing else has changed: the free list is now `rest`, and only
-- page 0 and the page itself are written.
pub record IsAllocation (crc : Bytes → ℕ) (pm : PageManager) (ids : List ℕ)
    (r : PageManager × Outcome ℕ) : Type 0 where
  pub id : ℕ
  pub rest : List ℕ
  pub returned : r.1 ≡ ok id
  pub valid : IsValid crc r.0 rest
  pub fresh : live pm ids id ≡ false
  pub lives : (k : ℕ) → live r.0 rest k ≡ (k == id || live pm ids k)
  pub kept : (k : ℕ) → 0 < k → (k == id) ≡ false → r.0.page_at k ≡ pm.page_at k
  pub grown : r.0.num_pages ≤ pm.num_pages + 1

-- The page `id` has gone out of use, and nothing else has changed.
pub record IsRelease (crc : Bytes → ℕ) (pm : PageManager) (ids : List ℕ) (id : ℕ)
    (r : PageManager × Outcome (Unit {0})) : Type 0 where
  pub returned : r.1 ≡ ok tt
  pub valid : IsValid crc r.0 (ids ++ id ∷ [])
  pub lives : (k : ℕ) → live r.0 (ids ++ id ∷ []) k ≡ (not (k == id) && live pm ids k)
  pub kept : (k : ℕ) → 0 < k → (k == id) ≡ false → r.0.page_at k ≡ pm.page_at k

pub take_all : (n : ℕ) (xs : List ℕ) → length xs ≤ n → take n xs ≡ xs
take_all zero [] h = refl
take_all zero (x ∷ xs) h = absurd (omega arith)
take_all (suc n) [] h = refl
take_all (suc n) (x ∷ xs) h = ap (◌∷◌ x) (take_all n xs (omega arith))

-- The range of a longer file.
pub All-InRange :
    (pm later : PageManager) (ids : List ℕ)
    → pm.num_pages ≤ later.num_pages
    → All (InRange pm) ids
    → All (InRange later) ids
All-InRange pm later [] h all = tt
All-InRange pm later (id ∷ ids) h all = (omega (arith, all.0), All-InRange pm later ids h all.1)

pub All-u32 :
    (pm : PageManager) (ids : List ℕ)
    → pm.num_pages < 2 ^ 32
    → All (InRange pm) ids
    → All (λ (id : ℕ). id < 2 ^ 32) ids
All-u32 pm [] h all = tt
All-u32 pm (id ∷ ids) h all = (omega (arith, all.0), All-u32 pm ids h all.1)

pub All-append_inv :
    (pm : PageManager) (xs : List ℕ) (x : ℕ)
    → All (InRange pm) (xs ++ x ∷ [])
    → All (InRange pm) xs × InRange pm x
All-append_inv pm [] x all = (tt, all.0)
All-append_inv pm (y ∷ ys) x all =
    let later = All-append_inv pm ys x all.1 in ((all.0, later.0), later.1)

pub data PopCase (ids : List ℕ) : Type 0 where
  nothing : ids ≡ [] → pop ids ≡ none → PopCase ids
  last : (ys : List ℕ) (y : ℕ) → ids ≡ ys ++ y ∷ [] → pop ids ≡ some (ys, y) → PopCase ids

pub pop-cases : (ids : List ℕ) → PopCase ids
unfolding pop
pop-cases [] = nothing refl refl
pop-cases (x ∷ xs) = elim (pop-cases xs) [
  | nothing e f ↦ last [] x (ap (◌∷◌ x) e) (rw (f, pop) refl)
  | last ys y e f ↦ last (x ∷ ys) y (ap (◌∷◌ x) e) (rw (f, pop) refl)
]

module _ (crc : Bytes → ℕ) (fits : (bs : Bytes) → crc bs < 2 ^ 32) where
  -- The list that is written to a file whose pages it names.
  pub relisted :
      (pm : PageManager) (ids : List ℕ)
      → All (InRange pm) ids
      → length ids ≤ free_list_capacity
      → Distinct ids
      → 0 < pm.num_pages
      → pm.num_pages < 2 ^ 32
      → IsValid crc (put 0 (stamp_checksum crc (list_page ids)) pm) ids
  unfolding put
  relisted pm ids range few distinct some_page pages = record {
    list_is =
        read_free_list-list_page crc ids pm fits some_page (omega arith)
          (All-u32 pm ids pages range)
        ∙ ap ok (take_all free_list_capacity ids few);
    in_range =
        All-InRange pm (put 0 (stamp_checksum crc (list_page ids)) pm) ids (omega arith) range;
    few = few;
    distinct = distinct;
    some_page = some_page;
    pages_fit = pages;
  }

  -- Page 0 is all that the list is read from.
  pub read_free_list-put :
      (id : ℕ) (buf : Bytes) (pm : PageManager)
      → 0 < id
      → read_free_list crc (put id buf pm) ≡ read_free_list crc pm
  unfolding read_free_list read_page put
  read_free_list-put id buf pm h = ground arith

  pub write_free_list-put :
      (ids : List ℕ) (pm : PageManager)
      → 0 < pm.num_pages
      → write_free_list crc ids pm ≡ (put 0 (stamp_checksum crc (list_page ids)) pm, ok tt)
  unfolding write_free_list write_page
  write_free_list-put ids pm h = rw (gt→leb pm.num_pages 0 h) refl
