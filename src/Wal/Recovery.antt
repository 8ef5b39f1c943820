-- ===== src/Wal/Recovery.antt =====
-- Crash recovery: src/wal/recovery.rs. The pages are those of src/page/manager.rs; bit 31 of a page
-- id selects the file.
pub mod Images
pub mod Content
pub mod Interrupted
use grumpydb.Prelude.{
  ℕ, zero, suc, ◌+◌, ◌*◌, ◌/◌, ◌%◌, ◌^◌, max, Bool, true, false, not, ◌&&◌, Option, none, some,
  List, [], ◌∷◌, ◌++◌, Result, ok, err, ltb, ◌==◌, if◌then◌else◌, length, take, slice,
}
use grumpydb.Prelude.Bytes.{Bytes}
use grumpydb.Prelude.Members.{contains, insert_once}
use grumpydb.Prelude.Stateful.{Method, ◌>>=◌, ◌>>◌, return}
use grumpydb.Error.{GrumpyError, Outcome}
use grumpydb.Page.{page_size}
use grumpydb.Page.Manager.{PageManager, write_page}
use grumpydb.Wal.Applied.{AppliedSet, ObserveOutcome, new_record, already_applied, observe}
use grumpydb.Wal.Record.{
  WalOpType, page_write, commit, rollback, checkpoint, is_page_write, WalRecord,
}

pub record Files : Type 0 where
  pub data_pm : PageManager
  pub index_pm : PageManager

-- What the loops carry: the files, the set, and the counts.
pub record Progress : Type 0 where
  pub files : Files
  pub applied : Option AppliedSet
  pub redo_count : ℕ
  pub undo_count : ℕ
  pub skipped_dup : ℕ

pub record RecoveryResult : Type 0 where
  pub redone : ℕ
  pub undone : ℕ
  pub committed_txs : ℕ
  pub records_processed : ℕ
  pub skipped_duplicate : ℕ

abbrev pub Recovering : Type 0 → Type 0
Recovering = Method Progress GrumpyError

abbrev pub is_commit : WalOpType → Bool
is_commit commit = true
is_commit _ = false

abbrev pub is_checkpoint : WalOpType → Bool
is_checkpoint checkpoint = true
is_checkpoint _ = false

-- `page_id & 0x8000_0000 != 0` and `page_id & 0x7FFF_FFFF`
unfoldable pub in_index : ℕ → Bool
in_index page_id = page_id / 2 ^ 31 % 2 == 1

unfoldable pub real_id : ℕ → ℕ
real_id page_id = page_id % 2 ^ 31

unfoldable pub select_pm : Bool → Files → PageManager
select_pm true f = f.index_pm
select_pm false f = f.data_pm

unfoldable pub replace_pm : Bool → PageManager → Files → Files
replace_pm true pm f = record f { index_pm = pm }
replace_pm false pm f = record f { data_pm = pm }

unfoldable pub checkpoint_lsn : List WalRecord → ℕ
checkpoint_lsn [] = 0
checkpoint_lsn (r ∷ rs) = max (if is_checkpoint r.op_type then r.lsn else 0) (checkpoint_lsn rs)

-- The records above an LSN.
unfoldable pub above : ℕ → List WalRecord → List WalRecord
above lsn [] = []
above lsn (r ∷ rs) = if ltb lsn r.lsn then r ∷ above lsn rs else above lsn rs

unfoldable pub committed : List WalRecord → List ℕ
committed [] = []
committed (r ∷ rs) =
    if is_commit r.op_type then insert_once r.tx_id (committed rs) else committed rs

unfoldable pub is_redo : List ℕ → WalRecord → Bool
is_redo txs r = is_page_write r.op_type && contains r.tx_id txs

unfoldable pub is_undo : List ℕ → WalRecord → Bool
is_undo txs r = is_page_write r.op_type && not (contains r.tx_id txs)

abbrev pub reversed : List WalRecord → List WalRecord
reversed [] = []
reversed (r ∷ rs) = reversed rs ++ r ∷ []

module _ (crc : Bytes → ℕ) where
  -- An image of a page is written, if the page is in the file.
  unfoldable pub apply_image : Bytes → WalRecord → Files → Files × Outcome (Unit {0})
  apply_image image r f =
      let side = in_index r.page_id in
      let id = real_id r.page_id in
      let pm = select_pm side f in
      if ltb id pm.num_pages
      then (replace_pm side (write_page crc id image pm).0 f, (write_page crc id image pm).1)
      else (f, ok tt)

  -- The payload holds the after-image, then the before-image.
  unfoldable pub apply_after_image : WalRecord → Files → Files × Outcome (Unit {0})
  unfolding apply_image
  apply_after_image r f =
      if ltb (length r.payload) (page_size * 2)
      then (f, ok tt)
      else apply_image (take page_size r.payload) r f

  unfoldable pub apply_before_image : WalRecord → Files → Files × Outcome (Unit {0})
  unfolding apply_image
  apply_before_image r f =
      if ltb (length r.payload) (page_size * 2)
      then (f, ok tt)
      else apply_image (slice page_size page_size r.payload) r f

module _ (crc : Bytes → ℕ) (hyphenated : ℕ → Bytes) where
  -- The part of the set that is consulted.
  unfoldable pub seen : WalRecord → Option AppliedSet → Option AppliedSet × ObserveOutcome
  seen r none = (none, new_record)
  seen r (some s) = (
    some (observe hyphenated r.origin_node_id r.hlc s).0,
    (observe hyphenated r.origin_node_id r.hlc s).1,
  )

  unfoldable pub redo_one : WalRecord → Recovering (Unit {0})
  unfolding seen
  redo_one r p = elim (seen r p.applied).1 [
    | already_applied ↦
        (record p { applied = (seen r p.applied).0; skipped_dup = p.skipped_dup + 1 }, ok tt)
    | new_record ↦
        let (f, out) = apply_after_image crc r p.files in
        let p' = record p { files = f; applied = (seen r p.applied).0 } in
        elim out [
          | err e ↦ (p', err e)
          | ok _ ↦ (record p' { redo_count = p.redo_count + 1 }, ok tt)
        ]
  ]

  unfoldable pub undo_one : WalRecord → Recovering (Unit {0})
  undo_one r p =
      let (f, out) = apply_before_image crc r p.files in
      let p' = record p { files = f } in
      elim out [ err e ↦ (p', err e) | ok _ ↦ (record p' { undo_count = p.undo_count + 1 }, ok tt) ]

  unfoldable pub redo : List ℕ → List WalRecord → Recovering (Unit {0})
  redo txs [] = return tt
  redo txs (r ∷ rs) = do if is_redo txs r then redo_one r else return tt; redo txs rs

  unfoldable pub undo : List ℕ → List WalRecord → Recovering (Unit {0})
  undo txs [] = return tt
  undo txs (r ∷ rs) = do if is_undo txs r then undo_one r else return tt; undo txs rs

  unfoldable pub recover_active : List WalRecord → Recovering RecoveryResult
  recover_active active = do
    redo (committed active) active
    undo (committed active) (reversed active)
    λ p. (
      p,
      ok (record {
        redone = p.redo_count;
        undone = p.undo_count;
        committed_txs = length (committed active);
        records_processed = length active;
        skipped_duplicate = p.skipped_dup;
      }),
    )

  unfoldable pub recover_with_applied_set :
      List WalRecord → Files → Option AppliedSet → Progress × Outcome RecoveryResult
  recover_with_applied_set [] f s = (
    record { files = f; applied = s; redo_count = 0; undo_count = 0; skipped_dup = 0 },
    ok (record {
      redone = 0;
      undone = 0;
      committed_txs = 0;
      records_processed = 0;
      skipped_duplicate = 0;
    }),
  )
  recover_with_applied_set (r ∷ rs) f s =
      recover_active (above (checkpoint_lsn (r ∷ rs)) (r ∷ rs))
        (record { files = f; applied = s; redo_count = 0; undo_count = 0; skipped_dup = 0 })

  unfoldable pub recover : List WalRecord → Files → Progress × Outcome RecoveryResult
  recover rs f = recover_with_applied_set rs f none
