-- ===== src/Wal/Recovery/Images.antt =====
-- What recovery of src/wal/recovery.rs leaves in each page.
use grumpydb.Prelude.{
  ℕ, ◌+◌, ◌*◌, ◌<◌, ◌≡◌, refl, ap, ◌∙◌, arith, Bool, true, false, ◌&&◌, not, Option, none, some,
  List, [], ◌∷◌, ◌++◌, ok, ltb, ◌==◌, if◌then◌else◌, length, take, slice,
}
use grumpydb.Prelude.Bytes.{Bytes}
use grumpydb.Error.{Outcome}
use grumpydb.Page.{page_size, stamp_checksum}
use grumpydb.Page.Manager.{put, write_page}
use grumpydb.Wal.Record.{WalRecord}
use grumpydb.Wal.Recovery.{
  Files, in_index, real_id, select_pm, replace_pm, reversed, apply_image, apply_after_image,
  apply_before_image,
}

-- The page `k` of the index file or of the data file.
abbrev pub block : Bool → ℕ → Files → Bytes
block side k f = (select_pm side f).page_at k

abbrev pub same_side : Bool → Bool → Bool
same_side true b = b
same_side false b = not b

-- The record has both images, of that page.
unfoldable pub hits : Bool → ℕ → WalRecord → Bool
hits side k r =
    same_side side (in_index r.page_id)
    && (real_id r.page_id == k && not (ltb (length r.payload) (page_size * 2)))

abbrev pub after_image : WalRecord → Bytes
after_image r = take page_size r.payload

abbrev pub before_image : WalRecord → Bytes
before_image r = slice page_size page_size r.payload

-- The first and the last image that the records of a kind hold of a page.
abbrev pub or_image : Option Bytes → Option Bytes → Option Bytes
or_image none other = other
or_image (some b) other = some b

abbrev pub image_or : Option Bytes → Bytes → Bytes
image_or none old = old
image_or (some b) old = b

module _ (kind : WalRecord → Bool) (image : WalRecord → Bytes) (side : Bool) (k : ℕ) where
  abbrev pub image_in : WalRecord → Option Bytes
  image_in r = if kind r && hits side k r then some (image r) else none

  unfoldable pub first_image : List WalRecord → Option Bytes
  first_image [] = none
  first_image (r ∷ rs) = or_image (image_in r) (first_image rs)

  unfoldable pub last_image : List WalRecord → Option Bytes
  last_image [] = none
  last_image (r ∷ rs) = or_image (last_image rs) (image_in r)

  last_image-append :
      (rs : List WalRecord) (r : WalRecord)
      → last_image (rs ++ r ∷ []) ≡ or_image (image_in r) (last_image rs)
  unfolding last_image
  last_image-append [] r = ground arith
  last_image-append (s ∷ rs) r = ground (arith, last_image-append rs r)

  pub last_image-reversed : (rs : List WalRecord) → last_image (reversed rs) ≡ first_image rs
  unfolding last_image first_image
  last_image-reversed [] = refl
  last_image-reversed (r ∷ rs) =
      last_image-append (reversed rs) r ∙ ap (or_image (image_in r)) (last_image-reversed rs)

unfoldable pub count : (WalRecord → Bool) → List WalRecord → ℕ
count kind [] = 0
count kind (r ∷ rs) = (if kind r then 1 else 0) + count kind rs

module _ (crc : Bytes → ℕ) where
  apply_image-ok :
      (image : Bytes) (r : WalRecord) (f : Files) → (apply_image crc image r f).1 ≡ ok tt
  unfolding apply_image write_page
  apply_image-ok image r f = ground arith

  -- The file has as many pages as before, and the page that the record names has the image.
  apply_image-block :
      (image : Bytes) (r : WalRecord) (f : Files) (side : Bool) (k : ℕ)
      → ((select_pm side (apply_image crc image r f).0).num_pages ≡ (select_pm side f).num_pages)
        × (k < (select_pm side f).num_pages
            → block side k (apply_image crc image r f).0 ≡ (
                if same_side side (in_index r.page_id) && real_id r.page_id == k
                then stamp_checksum crc image
                else block side k f))
  unfolding apply_image write_page put select_pm replace_pm
  apply_image-block image r f true k = (ground arith, λ h. ground (arith, h))
  apply_image-block image r f false k = (ground arith, λ h. ground (arith, h))

  -- An action that writes an image of the record to the page that it names.
  pub record Writes (image : WalRecord → Bytes)
      (act : WalRecord → Files → Files × Outcome (Unit {0})) : Type 0 where
    pub succeeds : (r : WalRecord) (f : Files) → (act r f).1 ≡ ok tt
    pub same_pages :
        (r : WalRecord) (f : Files) (side : Bool)
        → (select_pm side (act r f).0).num_pages ≡ (select_pm side f).num_pages
    pub writes :
        (r : WalRecord) (f : Files) (side : Bool) (k : ℕ)
        → k < (select_pm side f).num_pages
        → block side k (act r f).0
          ≡ (if hits side k r then stamp_checksum crc (image r) else block side k f)

  pub apply_after_image-Writes : Writes after_image (apply_after_image crc)
  unfolding apply_after_image hits
  apply_after_image-Writes = record {
    succeeds = λ r f. ground (arith, apply_image-ok (after_image r) r f);
    same_pages = λ r f side. ground (arith, (apply_image-block (after_image r) r f side 0).0);
    writes = λ r f side k h. ground (arith, (apply_image-block (after_image r) r f side k).1 h);
  }

  pub apply_before_image-Writes : Writes before_image (apply_before_image crc)
  unfolding apply_before_image hits
  apply_before_image-Writes = record {
    succeeds = λ r f. ground (arith, apply_image-ok (before_image r) r f);
    same_pages = λ r f side. ground (arith, (apply_image-block (before_image r) r f side 0).0);
    writes = λ r f side k h. ground (arith, (apply_image-block (before_image r) r f side k).1 h);
  }

  module _ (kind : WalRecord → Bool) (image : WalRecord → Bytes)
      (act : WalRecord → Files → Files × Outcome (Unit {0})) where
    -- The files after the records of a kind, in order.
    unfoldable pub act_all : List WalRecord → Files → Files
    act_all [] f = f
    act_all (r ∷ rs) f = act_all rs (if kind r then (act r f).0 else f)

    pub act_all-pages :
        Writes image act
        → (rs : List WalRecord) (f : Files) (side : Bool)
        → (select_pm side (act_all rs f)).num_pages ≡ (select_pm side f).num_pages
    unfolding act_all
    act_all-pages w [] f side = refl
    act_all-pages w (r ∷ rs) f side =
        act_all-pages w rs (if kind r then (act r f).0 else f) side
        ∙ ground (arith, w.same_pages r f side)

    -- The last image that is written to a page stays.
    pub act_all-block :
        Writes image act
        → (rs : List WalRecord) (f : Files) (side : Bool) (k : ℕ) → k < (select_pm side f).num_pages
        → block side k (act_all rs f)
          ≡ image_or
              (last_image kind (λ r. stamp_checksum crc (image r)) side k rs)
              (block side k f)
    unfolding act_all last_image
    act_all-block w [] f side k h = refl
    act_all-block w (r ∷ rs) f side k h =
        let g = if kind r then (act r f).0 else f in
        let pages : (select_pm side g).num_pages ≡ (select_pm side f).num_pages =
          ground (arith, w.same_pages r f side) in
        let rest = act_all-block w rs g side k (omega (arith, h, pages)) in
        rest ∙ ground (arith, w.writes r f side k h)
