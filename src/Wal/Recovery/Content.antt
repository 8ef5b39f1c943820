-- ===== src/Wal/Recovery/Content.antt =====
-- `recover` of src/wal/recovery.rs as a whole: what it returns, and every page of both files.
use grumpydb.Prelude.{
  ℕ, ◌+◌, ◌<◌, ◌≡◌, refl, ap, ◌∙◌, arith, Bool, none, List, [], ◌∷◌, ◌++◌, ok, length,
}
use grumpydb.Prelude.Bytes.{Bytes}
use grumpydb.Error.{Outcome}
use grumpydb.Page.{stamp_checksum}
use grumpydb.Wal.Record.{WalRecord}
use grumpydb.Wal.Recovery.{
  Files, Progress, RecoveryResult, select_pm, above, checkpoint_lsn, committed, is_redo, is_undo,
  reversed, apply_after_image, apply_before_image, seen, redo_one, undo_one, redo, undo,
  recover_active, recover_with_applied_set, recover,
}
use grumpydb.Wal.Recovery.Images.{
  block, after_image, before_image, first_image, last_image, last_image-reversed, image_or, count,
  apply_after_image-Writes, apply_before_image-Writes, act_all, act_all-pages, act_all-block,
}

abbrev pub plain : Files → ℕ → ℕ → Progress
plain f n m = record { files = f; applied = none; redo_count = n; undo_count = m; skipped_dup = 0 }

-- The records that recovery looks at: those above the last checkpoint.
abbrev pub active_of : List WalRecord → List WalRecord
active_of rs = above (checkpoint_lsn rs) rs

count-append :
    (kind : WalRecord → Bool) (rs : List WalRecord) (r : WalRecord)
    → count kind (rs ++ r ∷ []) ≡ count kind (r ∷ rs)
unfolding count
count-append kind [] r = refl
count-append kind (s ∷ rs) r = omega (arith, count-append kind rs r)

count-reversed :
    (kind : WalRecord → Bool) (rs : List WalRecord) → count kind (reversed rs) ≡ count kind rs
unfolding count
count-reversed kind [] = refl
count-reversed kind (r ∷ rs) =
    count-append kind (reversed rs) r ∙ omega (arith, count-reversed kind rs)

module _ (crc : Bytes → ℕ) (hyphenated : ℕ → Bytes) (txs : List ℕ) where
  abbrev pub redone_files : List WalRecord → Files → Files
  redone_files rs f = act_all crc (is_redo txs) after_image (apply_after_image crc) rs f

  abbrev pub undone_files : List WalRecord → Files → Files
  undone_files rs f = act_all crc (is_undo txs) before_image (apply_before_image crc) rs f

  pub redo-plain :
      (rs : List WalRecord) (f : Files) (n m : ℕ)
      → redo crc hyphenated txs rs (plain f n m)
        ≡ (plain (redone_files rs f) (n + count (is_redo txs) rs) m, ok tt)
  unfolding redo redo_one seen act_all count
  redo-plain [] f n m = ap (λ (k : ℕ). (plain f k m, ok tt)) (omega arith)
  redo-plain (r ∷ rs) f n m =
      let w : (apply_after_image crc r f).1 ≡ ok tt = (apply_after_image-Writes crc).succeeds r f in
      ground (arith, w, redo-plain rs f n m, redo-plain rs (apply_after_image crc r f).0 (n + 1) m)

  pub undo-plain :
      (rs : List WalRecord) (f : Files) (n m : ℕ)
      → undo crc hyphenated txs rs (plain f n m)
        ≡ (plain (undone_files rs f) n (m + count (is_undo txs) rs), ok tt)
  unfolding undo undo_one act_all count
  undo-plain [] f n m = ap (λ (k : ℕ). (plain f n k, ok tt)) (omega arith)
  undo-plain (r ∷ rs) f n m =
      let w : (apply_before_image crc r f).1 ≡ ok tt =
        (apply_before_image-Writes crc).succeeds r f in
      ground (arith, w, undo-plain rs f n m, undo-plain rs (apply_before_image crc r f).0 n (m + 1))

module _ (crc : Bytes → ℕ) (hyphenated : ℕ → Bytes) where
  -- What `recover` is on the records that it looks at.
  abbrev outcome_of : List WalRecord → List ℕ → Files → Progress × Outcome RecoveryResult
  outcome_of active txs f = (
    plain
        (undone_files crc hyphenated txs (reversed active)
          (redone_files crc hyphenated txs active f))
        (count (is_redo txs) active) (count (is_undo txs) active),
    ok (record {
      redone = count (is_redo txs) active;
      undone = count (is_undo txs) active;
      committed_txs = length txs;
      records_processed = length active;
      skipped_duplicate = 0;
    }),
  )

  recover_active_lem :
      (active : List WalRecord) (f : Files)
      → recover_active crc hyphenated active (plain f 0 0) ≡ outcome_of active (committed active) f
  unfolding recover_active
  recover_active_lem active f =
      let txs = committed active in
      let g = redone_files crc hyphenated txs active f in
      let first : redo crc hyphenated txs active (plain f 0 0)
          ≡ (plain g (count (is_redo txs) active) 0, ok tt) =
        redo-plain crc hyphenated txs active f 0 0
        ∙ ap (λ (n : ℕ). (plain g n 0, ok tt)) (omega arith) in
      let second : undo crc hyphenated txs (reversed active)
            (plain g (count (is_redo txs) active) 0)
          ≡ (
            plain (undone_files crc hyphenated txs (reversed active) g) (count (is_redo txs) active)
                (count (is_undo txs) active),
            ok tt,
          ) =
        undo-plain crc hyphenated txs (reversed active) g (count (is_redo txs) active) 0
        ∙ ap
            (λ (n : ℕ). (
              plain (undone_files crc hyphenated txs (reversed active) g)
                  (count (is_redo txs) active) n,
              ok tt,
            ))
            (omega (arith, count-reversed (is_undo txs) active)) in
      ground (arith, first, second)

  recover_lem :
      (rs : List WalRecord) (f : Files)
      → recover crc hyphenated rs f ≡ outcome_of (active_of rs) (committed (active_of rs)) f
  unfolding recover recover_with_applied_set
  recover_lem [] f = unfold above committed act_all count in refl
  recover_lem (r ∷ rs) f = recover_active_lem (active_of (r ∷ rs)) f

-- `recover` returns; it counts one redo for each page write of a committed transaction above the last
-- checkpoint and one undo for each other page write there; and each page of the data file or of the
-- index file holds, under its checksum, the before-image of the first write of an uncommitted
-- transaction to it, or else the after-image of the last write of a committed one, or else what it
-- held. A record whose payload is too short for its images is none of these.
pub recover-block :
    (crc : Bytes → ℕ) (hyphenated : ℕ → Bytes) (rs : List WalRecord) (f : Files) (side : Bool)
    (k : ℕ)
    → k < (select_pm side f).num_pages
    → ((recover crc hyphenated rs f).1
        ≡ ok (record {
          redone = count (is_redo (committed (active_of rs))) (active_of rs);
          undone = count (is_undo (committed (active_of rs))) (active_of rs);
          committed_txs = length (committed (active_of rs));
          records_processed = length (active_of rs);
          skipped_duplicate = 0;
        }))
      × (block side k (recover crc hyphenated rs f).0.files
          ≡ image_or
              (first_image
                (is_undo (committed (active_of rs)))
                (λ r. stamp_checksum crc (before_image r))
                side
                k
                (active_of rs))
              (image_or
                (last_image
                  (is_redo (committed (active_of rs)))
                  (λ r. stamp_checksum crc (after_image r))
                  side
                  k
                  (active_of rs))
                (block side k f)))
recover-block crc hyphenated rs f side k h =
    let active = active_of rs in
    let txs = committed active in
    let g = redone_files crc hyphenated txs active f in
    let pages =
      act_all-pages crc (is_redo txs) after_image (apply_after_image crc)
        (apply_after_image-Writes crc) active f side in
    let redo_to =
      act_all-block crc (is_redo txs) after_image (apply_after_image crc)
        (apply_after_image-Writes crc) active f side k h in
    let undo_to =
      act_all-block crc (is_undo txs) before_image (apply_before_image crc)
        (apply_before_image-Writes crc) (reversed active) g side k (omega (arith, h, pages)) in
    let flipped =
      last_image-reversed (is_undo txs) (λ (r : WalRecord). stamp_checksum crc (before_image r))
        side k active in
    rw (recover_lem crc hyphenated rs f) (refl, undo_to ∙ rw (flipped, redo_to) refl)
