-- ===== src/Witnesses/Files.antt =====
-- The page files, the overflow chains and recovery on concrete values.
use grumpydb.Prelude.{
  ℕ, zero, suc, ◌%◌, ◌^◌, ◌<◌, ◌≤◌, ◌≡◌, refl, arith, true, false, some, List, [], ◌∷◌, ◌++◌, ok,
  ◌==◌, false, length, All, replicate,
}
use grumpydb.Prelude.Bytes.{Bytes}
use grumpydb.Prelude.Members.{contains, Distinct}
use grumpydb.Page.{page_size, stamp_checksum, new_header, free_page}
use grumpydb.Page.Manager.{
  PageManager, blank, new, put, extend, list_page, allocate_page, free_page_at,
}
use grumpydb.Page.Manager.Valid.{live, InRange, IsValid, IsAllocation, IsRelease, relisted}
use grumpydb.Page.Manager.Reuse.{
  extend-IsValid, new-IsValid, allocate_page-IsAllocation, free_page_at-IsRelease,
  free_page_at-full,
}
use grumpydb.Page.Overflow.{page_usable_space, chunks, finished, write_overflow, read_overflow}
use grumpydb.Page.Overflow.RoundTrip.{read_overflow-write_overflow}
use grumpydb.Wal.Record.{WalRecord, page_write, commit}
use grumpydb.Wal.Recovery.{Files, select_pm, committed, is_redo, is_undo, recover}
use grumpydb.Wal.Recovery.Images.{
  block, before_image, after_image, first_image, last_image, image_or, count,
}
use grumpydb.Wal.Recovery.Content.{active_of, recover-block}
use grumpydb.Wal.Recovery.Interrupted.{stopped_runs, recovered, recover-stopped_runs}

abbrev by_length : Bytes → ℕ
by_length bs = length bs % 2 ^ 32

by_length-fits : (bs : Bytes) → by_length bs < 2 ^ 32
by_length-fits bs = omega arith

abbrev no_pages : ℕ → Bytes
no_pages i = []

abbrev fresh_file : PageManager
fresh_file = new 0 no_pages

fresh_file-IsValid : IsValid by_length fresh_file []
fresh_file-IsValid = (new-IsValid by_length by_length-fits no_pages).0

allocate_page-IsAllocation_example :
    IsAllocation by_length fresh_file [] (allocate_page by_length fresh_file)
unfolding new
allocate_page-IsAllocation_example =
    allocate_page-IsAllocation by_length by_length-fits fresh_file [] fresh_file-IsValid
      (omega arith)

-- A file with page 1 in use.
abbrev one_page : PageManager
one_page = (extend by_length fresh_file).0

one_page-IsValid : IsValid by_length one_page []
unfolding new
one_page-IsValid =
    extend-IsValid by_length by_length-fits fresh_file fresh_file-IsValid (omega arith)

free_page_at-IsRelease_example :
    IsRelease by_length one_page [] 1 (free_page_at by_length 1 one_page)
unfolding new extend put
free_page_at-IsRelease_example =
    free_page_at-IsRelease by_length by_length-fits one_page [] 1 one_page-IsValid refl
      (omega arith)

-- The ids from n down to 1.
down_from : ℕ → List ℕ
down_from zero = []
down_from (suc n) = suc n ∷ down_from n

contains-down_from : (k n : ℕ) → contains k (down_from n) ≡ true → k ≤ n
unfolding down_from
contains-down_from k zero h = cc
contains-down_from k (suc n) h = ground (arith, contains-down_from k n)

down_from-Distinct : (n : ℕ) → Distinct (down_from n)
unfolding down_from
down_from-Distinct zero = tt
down_from-Distinct (suc n) = (ground (arith, contains-down_from (suc n) n), down_from-Distinct n)

down_from-InRange : (pm : PageManager) (n : ℕ) → n < pm.num_pages → All (InRange pm) (down_from n)
unfolding down_from
down_from-InRange pm zero h = tt
down_from-InRange pm (suc n) h = (omega arith, down_from-InRange pm n (omega arith))

length-down_from : (n : ℕ) → length (down_from n) ≡ n
unfolding down_from
length-down_from zero = refl
length-down_from (suc n) = omega (arith, length-down_from n)

-- A file of 2041 pages, of which the first 2039 behind page 0 are free.
abbrev wide_file : PageManager
wide_file = record { num_pages = 2041; page_at = no_pages }

abbrev full_file : PageManager
full_file = put 0 (stamp_checksum by_length (list_page (down_from 2039))) wide_file

full_file-IsValid : IsValid by_length full_file (down_from 2039)
full_file-IsValid =
    relisted by_length by_length-fits wide_file (down_from 2039)
      (down_from-InRange wide_file 2039 (omega arith)) (omega (arith, length-down_from 2039))
      (down_from-Distinct 2039) (omega arith) (omega arith)

last_page_live : live full_file (down_from 2039) 2040 ≡ true
unfolding put
last_page_live = ground (arith, contains-down_from 2040 2039)

free_page_at-full_example :
    ((free_page_at by_length 2040 full_file).1 ≡ ok tt)
    × IsValid by_length (free_page_at by_length 2040 full_file).0 (down_from 2039)
    × ((free_page_at by_length 2040 full_file).0.page_at 2040
        ≡ stamp_checksum by_length (blank (new_header 2040 free_page)))
    × ((k : ℕ)
        → live (free_page_at by_length 2040 full_file).0 (down_from 2039) k
          ≡ live full_file (down_from 2039) k)
    × ((k : ℕ)
        → 0 < k
        → (k == 2040) ≡ false
        → (free_page_at by_length 2040 full_file).0.page_at k ≡ full_file.page_at k)
free_page_at-full_example =
    free_page_at-full by_length by_length-fits full_file (down_from 2039) 2040 full_file-IsValid
      last_page_live (length-down_from 2039)

abbrev text : Bytes
text = 1 ∷ 2 ∷ 3 ∷ []

read_overflow-write_overflow_example :
    (id : ℕ) × ((write_overflow by_length text one_page).1 ≡ ok (some id))
    × ((fuel : ℕ)
        → length (chunks page_usable_space text) < fuel
        → read_overflow by_length fuel id (write_overflow by_length text one_page).0
          ≡ finished (ok text))
    × ((k : ℕ)
        → live one_page [] k ≡ true
        → (write_overflow by_length text one_page).0.page_at k ≡ one_page.page_at k)
unfolding new extend put chunks
read_overflow-write_overflow_example =
    read_overflow-write_overflow by_length one_page [] text by_length-fits one_page-IsValid
      (omega arith) (omega arith)

-- A page write of transaction `tx`, with the bytes of the page after it and before it.
abbrev write_by : ℕ → ℕ → ℕ → ℕ → WalRecord
write_by lsn tx after before = record {
  record_len = 0;
  lsn = lsn;
  tx_id = tx;
  op_type = page_write;
  origin_node_id = 0;
  hlc = lsn;
  vclock = [];
  page_id = 1;
  payload = replicate page_size after ++ replicate page_size before;
  checksum = 0;
}

abbrev commit_of : ℕ → ℕ → WalRecord
commit_of lsn tx = record {
  record_len = 0;
  lsn = lsn;
  tx_id = tx;
  op_type = commit;
  origin_node_id = 0;
  hlc = lsn;
  vclock = [];
  page_id = 0;
  payload = [];
  checksum = 0;
}

-- Transaction 1 does not commit, transaction 2 writes the page after it and commits.
abbrev log : List WalRecord
log = write_by 1 1 11 10 ∷ write_by 2 2 12 11 ∷ commit_of 3 2 ∷ []

abbrev files : Files
files = record { data_pm = one_page; index_pm = fresh_file }

abbrev hyphenated : ℕ → Bytes
hyphenated n = n ∷ []

recover-block_example :
    ((recover by_length hyphenated log files).1
      ≡ ok (record {
        redone = count (is_redo (committed (active_of log))) (active_of log);
        undone = count (is_undo (committed (active_of log))) (active_of log);
        committed_txs = length (committed (active_of log));
        records_processed = length (active_of log);
        skipped_duplicate = 0;
      }))
    × (block false 1 (recover by_length hyphenated log files).0.files
        ≡ image_or
            (first_image
              (is_undo (committed (active_of log)))
              (λ r. stamp_checksum by_length (before_image r))
              false
              1
              (active_of log))
            (image_or
              (last_image
                (is_redo (committed (active_of log)))
                (λ r. stamp_checksum by_length (after_image r))
                false
                1
                (active_of log))
              (block false 1 files)))
unfolding new extend put select_pm
recover-block_example = recover-block by_length hyphenated log files false 1 (omega arith)

-- Recovery stops behind the first record of the redo phase, then behind one of the undo phase.
abbrev stops : List (ℕ × ℕ)
stops = (1, 0) ∷ (3, 1) ∷ []

recover-stopped_runs_example :
    (block false 1
        (recover by_length hyphenated log
          (stopped_runs by_length hyphenated log stops files)).0.files
      ≡ recovered by_length hyphenated log false 1 (block false 1 files))
    × (block false 1 (recover by_length hyphenated log files).0.files
        ≡ recovered by_length hyphenated log false 1 (block false 1 files))
unfolding new extend put select_pm
recover-stopped_runs_example =
    recover-stopped_runs by_length hyphenated log files false 1 stops (omega arith)
