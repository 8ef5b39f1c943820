-- ===== src/Page/Header.antt =====
-- The page header and the page checksum of src/page/mod.rs.
use grumpydb.Prelude.{
  ℕ, suc, ◌+◌, ◌^◌, ◌<◌, ◌≡◌, refl, sym, arith, Bool-cases, inl, inr, ◌++◌, some, ok, length, drop,
  slice, ◌==◌, eq→==,
}
use grumpydb.Prelude.Bytes.{
  Bytes, to_le_bytes, from_le_bytes, length-to_le_bytes, from_le_bytes-to_le_bytes, number_at,
  past_le, number_front,
}
use grumpydb.Prelude.Splice.{slice-splice_self, slice-splice_before, drop-splice}
use grumpydb.Page.{
  page_size, PageType, free_page, PageHeader, from_u8, to_u8, write_to, read_from, compute_checksum,
  stamp_checksum, verify_checksum,
}

-- The fields are of their Rust types.
pub record IsTyped (h : PageHeader) : Type 0 where
  pub id_fits : h.page_id < 2 ^ 32
  pub flags_fit : h.flags < 2 ^ 8
  pub slots_fit : h.num_slots < 2 ^ 16
  pub start_fits : h.free_space_start < 2 ^ 16
  pub end_fits : h.free_space_end < 2 ^ 16
  pub next_fits : h.next_page_id < 2 ^ 32
  pub prev_fits : h.prev_page_id < 2 ^ 32
  pub lsn_fits : h.lsn < 2 ^ 64
  pub checksum_fits : h.checksum < 2 ^ 32

from_u8-to_u8 : (t : PageType) → from_u8 (to_u8 t) ≡ some t
unfolding from_u8 to_u8
from_u8-to_u8 free_page = refl
from_u8-to_u8 _ = refl

module _ (h : PageHeader) (buf : Bytes) where
  abbrev from_flags : Bytes
  from_flags =
      to_le_bytes 1 h.flags
      ++ (to_le_bytes 2 h.num_slots
          ++ (to_le_bytes 2 h.free_space_start
              ++ (to_le_bytes 2 h.free_space_end
                  ++ (to_le_bytes 4 h.next_page_id
                      ++ (to_le_bytes 4 h.prev_page_id
                          ++ (to_le_bytes 8 h.lsn ++ (to_le_bytes 4 h.checksum ++ drop 32 buf)))))))

  past_type : (k i : ℕ) → k ≡ 5 + i → drop k (write_to h buf) ≡ drop i from_flags
  unfolding write_to
  past_type k i e = let e' : k ≡ 4 + suc i = omega arith in rw (past_le 4 h.page_id k (suc i) _ e')

  past_slots :
      (k i : ℕ)
      → k ≡ 8 + i
      → drop k (write_to h buf)
        ≡ drop i (
            to_le_bytes 2 h.free_space_start
            ++ (to_le_bytes 2 h.free_space_end
                ++ (to_le_bytes 4 h.next_page_id
                    ++ (to_le_bytes 4 h.prev_page_id
                        ++ (to_le_bytes 8 h.lsn ++ (to_le_bytes 4 h.checksum ++ drop 32 buf))))))
  past_slots k i e = rw (past_type k (3 + i) (omega arith)) (
      rw (past_le 1 h.flags (3 + i) (2 + i) _ (omega arith))
        (rw (past_le 2 h.num_slots (2 + i) i _ (omega arith))))

  past_space :
      (k i : ℕ)
      → k ≡ 12 + i
      → drop k (write_to h buf)
        ≡ drop i (
            to_le_bytes 4 h.next_page_id
            ++ (to_le_bytes 4 h.prev_page_id
                ++ (to_le_bytes 8 h.lsn ++ (to_le_bytes 4 h.checksum ++ drop 32 buf))))
  past_space k i e = rw (past_slots k (4 + i) (omega arith)) (
      rw (past_le 2 h.free_space_start (4 + i) (2 + i) _ (omega arith))
        (rw (past_le 2 h.free_space_end (2 + i) i _ (omega arith))))

  past_links :
      (k i : ℕ)
      → k ≡ 20 + i
      → drop k (write_to h buf)
        ≡ drop i (to_le_bytes 8 h.lsn ++ (to_le_bytes 4 h.checksum ++ drop 32 buf))
  past_links k i e = rw (past_space k (8 + i) (omega arith)) (
      rw (past_le 4 h.next_page_id (8 + i) (4 + i) _ (omega arith))
        (rw (past_le 4 h.prev_page_id (4 + i) i _ (omega arith))))

  id_at : IsTyped h → number_at 4 0 (write_to h buf) ≡ h.page_id
  unfolding write_to
  id_at t = number_front 4 h.page_id _ t.id_fits

  type_at : number_at 1 4 (write_to h buf) ≡ to_u8 h.page_type
  unfolding write_to from_le_bytes
  type_at = rw (past_le 4 h.page_id 4 0 _ (omega arith)) (omega arith)

  counts_at :
      IsTyped h
      → (number_at 1 5 (write_to h buf) ≡ h.flags) × (number_at 2 6 (write_to h buf) ≡ h.num_slots)
  counts_at t = (
    rw (past_type 5 0 (omega arith)) (number_front 1 h.flags _ t.flags_fit),
    rw (past_type 6 1 (omega arith))
        (rw (past_le 1 h.flags 1 0 _ (omega arith)) (number_front 2 h.num_slots _ t.slots_fit)),
  )

  space_at :
      IsTyped h
      → (number_at 2 8 (write_to h buf) ≡ h.free_space_start)
        × (number_at 2 10 (write_to h buf) ≡ h.free_space_end)
  space_at t = (
    rw (past_slots 8 0 (omega arith)) (number_front 2 h.free_space_start _ t.start_fits),
    rw (past_slots 10 2 (omega arith)) (
        rw (past_le 2 h.free_space_start 2 0 _ (omega arith))
          (number_front 2 h.free_space_end _ t.end_fits)),
  )

  links_at :
      IsTyped h
      → (number_at 4 12 (write_to h buf) ≡ h.next_page_id)
        × (number_at 4 16 (write_to h buf) ≡ h.prev_page_id)
  links_at t = (
    rw (past_space 12 0 (omega arith)) (number_front 4 h.next_page_id _ t.next_fits),
    rw (past_space 16 4 (omega arith)) (
        rw (past_le 4 h.next_page_id 4 0 _ (omega arith))
          (number_front 4 h.prev_page_id _ t.prev_fits)),
  )

  sums_at :
      IsTyped h
      → (number_at 8 20 (write_to h buf) ≡ h.lsn) × (number_at 4 28 (write_to h buf) ≡ h.checksum)
  sums_at t = (
    rw (past_links 20 0 (omega arith)) (number_front 8 h.lsn _ t.lsn_fits),
    rw (past_links 28 8 (omega arith))
        (rw (past_le 8 h.lsn 8 0 _ (omega arith)) (number_front 4 h.checksum _ t.checksum_fits)),
  )

  rest_at : drop 32 (write_to h buf) ≡ drop 32 buf
  rest_at =
      rw (past_links 32 12 (omega arith))
        (rw (past_le 8 h.lsn 12 4 _ (omega arith)) (rw (past_le 4 h.checksum 4 0 _ (omega arith))))

  -- A header of the types that `write_to` stores is read back by `read_from`, and the bytes behind
  -- the header are as they were.
  pub read_from-write_to :
      IsTyped h → (read_from (write_to h buf) ≡ h) × (drop 32 (write_to h buf) ≡ drop 32 buf)
  unfolding read_from
  read_from-write_to t =
      let (flags, slots) = counts_at t in
      let (start, end) = space_at t in
      let (next, prev) = links_at t in
      let (lsn, sum) = sums_at t in
      (
        rw (
          id_at t,
          type_at,
          from_u8-to_u8 h.page_type,
          flags,
          slots,
          start,
          end,
          next,
          prev,
          lsn,
          sum,
        ),
        rest_at,
      )

module _ (crc : Bytes → ℕ) (buf : Bytes) where
  abbrev stamp : Bytes
  stamp = to_le_bytes 4 (compute_checksum crc buf)

  front : slice 0 28 (stamp_checksum crc buf) ≡ slice 0 28 buf
  unfolding stamp_checksum
  front = slice-splice_before 0 28 28 stamp buf (omega arith)

  back : drop 32 (stamp_checksum crc buf) ≡ drop 32 buf
  unfolding stamp_checksum
  back =
      drop-splice 32 28 stamp buf (omega (arith, length-to_le_bytes 4 (compute_checksum crc buf)))

  -- What the checksum is taken over does not change when it is stamped.
  checksum-stamp : compute_checksum crc (stamp_checksum crc buf) ≡ compute_checksum crc buf
  unfolding compute_checksum
  checksum-stamp = rw (front, back)

  stored :
      compute_checksum crc buf < 2 ^ 32
      → length buf ≡ page_size
      → number_at 4 28 (stamp_checksum crc buf) ≡ compute_checksum crc buf
  unfolding stamp_checksum
  stored fits full =
      rw
        (slice-splice_self 28 4 stamp buf (sym (length-to_le_bytes 4 (compute_checksum crc buf)))
          (omega arith))
        (from_le_bytes-to_le_bytes 4 (compute_checksum crc buf) fits)

-- After `stamp_checksum` a page of full size passes `verify_checksum`, it holds the checksum of its
-- other bytes, and those are as they were. The checksum function gives 32 bits.
pub verify_checksum-stamp :
    (crc : Bytes → ℕ) (buf : Bytes) (id : ℕ)
    → ((bs : Bytes) → crc bs < 2 ^ 32)
    → length buf ≡ page_size
    → (verify_checksum crc (stamp_checksum crc buf) id ≡ ok tt)
      × (number_at 4 28 (stamp_checksum crc buf) ≡ compute_checksum crc buf)
      × (slice 0 28 (stamp_checksum crc buf) ≡ slice 0 28 buf)
      × (drop 32 (stamp_checksum crc buf) ≡ drop 32 buf)
verify_checksum-stamp crc buf id fits full = (passes, held, front crc buf, back crc buf)
  where
    held : number_at 4 28 (stamp_checksum crc buf) ≡ compute_checksum crc buf
    held = stored crc buf (unfold compute_checksum in fits _) full

    passes : verify_checksum crc (stamp_checksum crc buf) id ≡ ok tt
    passes =
        unfold verify_checksum in
        rw (held, checksum-stamp crc buf)
          (elim (Bool-cases (compute_checksum crc buf == 0)) [
            | inl zero_sum ↦ rw zero_sum
            | inr other ↦
                rw (other, eq→== (compute_checksum crc buf) (compute_checksum crc buf) refl)
          ])
