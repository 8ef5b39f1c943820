-- ===== src/Btree/Layout/Header.antt =====
-- The page header of a node's page: src/btree/node.rs.
use grumpydb.Prelude.{ℕ, ◌^◌, ◌<◌, ◌≡◌, ap, arith}
use grumpydb.Prelude.Bytes.{number_at}
use grumpydb.Page.{PageType, new_header, read_from}
use grumpydb.Page.Header.{IsTyped, read_from-write_to}
use grumpydb.Page.Manager.{blank}

new_header-IsTyped : (id : ℕ) (type : PageType) → id < 2 ^ 32 → IsTyped (new_header id type)
unfolding new_header
new_header-IsTyped id type h = record {
  id_fits = h;
  flags_fit = omega arith;
  slots_fit = omega arith;
  start_fits = omega arith;
  end_fits = omega arith;
  next_fits = omega arith;
  prev_fits = omega arith;
  lsn_fits = omega arith;
  checksum_fits = omega arith;
}

pub blank-page_id :
    (id : ℕ) (type : PageType) → id < 2 ^ 32 → number_at 4 0 (blank (new_header id type)) ≡ id
unfolding blank read_from new_header
blank-page_id id type h =
    ap (λ r. r.page_id) (read_from-write_to (new_header id type) _ (new_header-IsTyped id type h)).0
