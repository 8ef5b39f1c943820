-- ===== src/Wal/Recovery/Interrupted.antt =====
-- `recover` of src/wal/recovery.rs after a crash: runs of it that stopped between two records, and a
-- run to the end.
use grumpydb.Prelude.{
  ℕ, zero, suc, ◌+◌, ◌<◌, ◌≡◌, refl, ap, ◌∙◌, arith, Bool, Option, none, some, List, [], ◌∷◌, take,
}
use grumpydb.Prelude.Bytes.{Bytes}
use grumpydb.Error.{Outcome}
use grumpydb.Page.{stamp_checksum}
use grumpydb.Wal.Record.{WalRecord}
use grumpydb.Wal.Recovery.{
  Files, Progress, select_pm, committed, is_redo, is_undo, reversed, apply_after_image,
  apply_before_image, redo, undo, recover,
}
use grumpydb.Wal.Recovery.Images.{
  block, after_image, before_image, first_image, last_image, last_image-reversed, image_or, count,
  apply_after_image-Writes, apply_before_image-Writes, act_all-pages, act_all-block,
}
use grumpydb.Wal.Recovery.Content.{
  plain, active_of, redone_files, undone_files, redo-plain, undo-plain, recover-block,
}

module _ (crc : Bytes → ℕ) (hyphenated : ℕ → Bytes) (rs : List WalRecord) where
  -- The files that a run leaves which gets to `n` records of the redo phase and `m` of the undo phase.
  unfoldable pub stopped_run : ℕ → ℕ → Files → Files
  stopped_run n m f =
      let active = active_of rs in
      let txs = committed active in
      let redone = redo crc hyphenated txs (take n active) (plain f 0 0) in
      (undo crc hyphenated txs (take m (reversed active)) redone.0).0.files

  -- The files after several of them, one after the other.
  unfoldable pub stopped_runs : List (ℕ × ℕ) → Files → Files
  unfolding stopped_run
  stopped_runs [] f = f
  stopped_runs ((n, m) ∷ stops) f = stopped_runs stops (stopped_run n m f)

  -- What is left in a page that holds `old`, if recovery ends.
  abbrev pub recovered : Bool → ℕ → Bytes → Bytes
  recovered side k old =
      let active = active_of rs in
      let txs = committed active in
      image_or (first_image (is_undo txs) (λ r. stamp_checksum crc (before_image r)) side k active)
        (image_or (last_image (is_redo txs) (λ r. stamp_checksum crc (after_image r)) side k active)
          old)

last_image-take :
    (kind : WalRecord → Bool) (image : WalRecord → Bytes) (side : Bool) (k n : ℕ)
    (rs : List WalRecord)
    → last_image kind image side k rs ≡ none
    → last_image kind image side k (take n rs) ≡ none
unfolding last_image
last_image-take kind image side k zero rs h = refl
last_image-take kind image side k (suc n) [] h = refl
last_image-take kind image side k (suc n) (r ∷ rs) h =
    ground (arith, last_image-take kind image side k n rs)

-- Images of a part of the records are overwritten by those of all of them.
image_or-again :
    (undone redone undone_part redone_part : Option Bytes) (old : Bytes)
    → (undone ≡ none → undone_part ≡ none)
    → (redone ≡ none → redone_part ≡ none)
    → image_or undone (image_or redone (image_or undone_part (image_or redone_part old)))
      ≡ image_or undone (image_or redone old)
image_or-again (some b) redone u r old h k = refl
image_or-again none (some b) u r old h k = refl
image_or-again none none u r old h k = rw (h refl, k refl) refl

module _ (crc : Bytes → ℕ) (hyphenated : ℕ → Bytes) (rs : List WalRecord) (side : Bool)
    (k : ℕ) where
  stopped_run_lem :
      (n m : ℕ) (f : Files)
      → stopped_run crc hyphenated rs n m f
        ≡ undone_files crc hyphenated
            (committed (active_of rs))
            (take m (reversed (active_of rs)))
            (redone_files crc hyphenated (committed (active_of rs)) (take n (active_of rs)) f)
  unfolding stopped_run
  stopped_run_lem n m f =
      let active = active_of rs in
      let txs = committed active in
      ap
        (λ (p : Progress × Outcome (Unit {0})).
          (undo crc hyphenated txs (take m (reversed active)) p.0).0.files)
        (redo-plain crc hyphenated txs (take n active) f 0 0)
      ∙ ap (λ (p : Progress × Outcome (Unit {0})). p.0.files)
          (undo-plain crc hyphenated txs (take m (reversed active))
            (redone_files crc hyphenated txs (take n active) f)
            (0 + count (is_redo txs) (take n active)) 0)

  stopped_run-pages :
      (n m : ℕ) (f : Files)
      → (select_pm side (stopped_run crc hyphenated rs n m f)).num_pages
        ≡ (select_pm side f).num_pages
  stopped_run-pages n m f =
      let active = active_of rs in
      let txs = committed active in
      rw (stopped_run_lem n m f) (
        act_all-pages crc (is_undo txs) before_image (apply_before_image crc)
          (apply_before_image-Writes crc) (take m (reversed active))
          (redone_files crc hyphenated txs (take n active) f) side
        ∙ act_all-pages crc (is_redo txs) after_image (apply_after_image crc)
            (apply_after_image-Writes crc) (take n active) f side)

  -- A stopped run does not change what recovery leaves in the end.
  recovered-stopped_run :
      (n m : ℕ) (f : Files)
      → k < (select_pm side f).num_pages
      → recovered crc hyphenated rs side k (block side k (stopped_run crc hyphenated rs n m f))
        ≡ recovered crc hyphenated rs side k (block side k f)
  recovered-stopped_run n m f h =
      let active = active_of rs in
      let txs = committed active in
      let g = redone_files crc hyphenated txs (take n active) f in
      let pages =
        act_all-pages crc (is_redo txs) after_image (apply_after_image crc)
          (apply_after_image-Writes crc) (take n active) f side in
      let redo_to =
        act_all-block crc (is_redo txs) after_image (apply_after_image crc)
          (apply_after_image-Writes crc) (take n active) f side k h in
      let undo_to =
        act_all-block crc (is_undo txs) before_image (apply_before_image crc)
          (apply_before_image-Writes crc) (take m (reversed active)) g side k
          (omega (arith, h, pages)) in
      let before : WalRecord → Bytes = λ r. stamp_checksum crc (before_image r) in
      let after : WalRecord → Bytes = λ r. stamp_checksum crc (after_image r) in
      let flipped = last_image-reversed (is_undo txs) before side k active in
      ap (λ g. recovered crc hyphenated rs side k (block side k g)) (stopped_run_lem n m f)
      ∙ ap (recovered crc hyphenated rs side k) (
          undo_to
          ∙ ap (image_or (last_image (is_undo txs) before side k (take m (reversed active))))
              redo_to)
      ∙ image_or-again (first_image (is_undo txs) before side k active)
          (last_image (is_redo txs) after side k active)
          (last_image (is_undo txs) before side k (take m (reversed active)))
          (last_image (is_redo txs) after side k (take n active)) (block side k f)
          (λ e. last_image-take (is_undo txs) before side k m (reversed active) (flipped ∙ e))
          (last_image-take (is_redo txs) after side k n active)

  stopped_runs-pages :
      (stops : List (ℕ × ℕ)) (f : Files)
      → (select_pm side (stopped_runs crc hyphenated rs stops f)).num_pages
        ≡ (select_pm side f).num_pages
  unfolding stopped_runs
  stopped_runs-pages [] f = refl
  stopped_runs-pages ((n, m) ∷ stops) f =
      stopped_runs-pages stops (stopped_run crc hyphenated rs n m f) ∙ stopped_run-pages n m f

  recovered-stopped_runs :
      (stops : List (ℕ × ℕ)) (f : Files)
      → k < (select_pm side f).num_pages
      → recovered crc hyphenated rs side k (block side k (stopped_runs crc hyphenated rs stops f))
        ≡ recovered crc hyphenated rs side k (block side k f)
  unfolding stopped_runs
  recovered-stopped_runs [] f h = refl
  recovered-stopped_runs ((n, m) ∷ stops) f h =
      recovered-stopped_runs stops (stopped_run crc hyphenated rs n m f)
        (omega (arith, h, stopped_run-pages n m f))
      ∙ recovered-stopped_run n m f h

-- After any number of runs of `recover` that stopped, each behind any number of the records of its
-- redo phase and of its undo phase, a run to the end leaves in each page of both files what it would
-- have left without them: the before-image of the first write of an uncommitted transaction to it, or
-- else the after-image of the last write of a committed one, or else what it held before the first of
-- the runs. Each write of a page is whole or did not happen.
pub recover-stopped_runs :
    (crc : Bytes → ℕ) (hyphenated : ℕ → Bytes) (rs : List WalRecord) (f : Files) (side : Bool)
    (k : ℕ) (stops : List (ℕ × ℕ))
    → k < (select_pm side f).num_pages
    → (block side k (recover crc hyphenated rs (stopped_runs crc hyphenated rs stops f)).0.files
        ≡ recovered crc hyphenated rs side k (block side k f))
      × (block side k (recover crc hyphenated rs f).0.files
          ≡ recovered crc hyphenated rs side k (block side k f))
recover-stopped_runs crc hyphenated rs f side k stops h =
    let g = stopped_runs crc hyphenated rs stops f in
    let pages = stopped_runs-pages crc hyphenated rs side k stops f in
    (
      (recover-block crc hyphenated rs g side k (omega (arith, h, pages))).1
          ∙ recovered-stopped_runs crc hyphenated rs side k stops f h,
      (recover-block crc hyphenated rs f side k h).1,
    )
