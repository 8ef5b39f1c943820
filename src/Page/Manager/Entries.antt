-- ===== src/Page/Manager/Entries.antt =====
-- The entries of the free list of src/page/manager.rs, and the bytes around them.
use grumpydb.Prelude.{
  ℕ, zero, suc, ◌+◌, ◌*◌, ◌^◌, ◌≤◌, ◌<◌, ◌≡◌, refl, sym, ap, ◌∙◌, arith, List, [], ◌∷◌, ltb, ge→ltb,
  lt→ltb, ltb→lt, ltb→ge, Bool-cases, inl, inr, length, length-drop, slice, take, drop, replicate,
  All,
}
use grumpydb.Prelude.Bytes.{
  Bytes, to_le_bytes, from_le_bytes, number_at, length-to_le_bytes, from_le_bytes-to_le_bytes,
}
use grumpydb.Prelude.Splice.{
  splice, length-splice, slice-splice_self, slice-splice_before, slice-splice_after,
}
use grumpydb.Page.{page_size, PageHeader, write_to, stamp_checksum, compute_checksum}
use grumpydb.Page.Manager.{blank, read_entries, write_entries}

length-replicate : (n a : ℕ) → length (replicate n a) ≡ n
length-replicate zero a = refl
length-replicate (suc n) a = ap suc (length-replicate n a)

length-write_to :
    (h : PageHeader) (buf : Bytes) → length (write_to h buf) ≡ 32 + length (drop 32 buf)
unfolding write_to to_le_bytes
length-write_to h buf = omega arith

pub length-blank : (h : PageHeader) → length (blank h) ≡ page_size
unfolding blank
length-blank h =
    length-write_to h (replicate page_size 0)
    ∙ omega (arith, length-drop {A = ℕ} 32 (replicate page_size 0), length-replicate page_size 0)

read_step :
    (n offset : ℕ) (buf : Bytes)
    → offset + 4 ≤ page_size
    → read_entries (suc n) offset buf ≡ number_at 4 offset buf ∷ read_entries n (offset + 4) buf
unfolding read_entries
read_step n offset buf h = rw (ge→ltb page_size (offset + 4) h, read_entries) refl

read_end : (n offset : ℕ) (buf : Bytes) → page_size < offset + 4 → read_entries n offset buf ≡ []
unfolding read_entries
read_end zero offset buf h = refl
read_end (suc n) offset buf h = rw (lt→ltb page_size (offset + 4) h, read_entries) refl

write_step :
    (id : ℕ) (ids : List ℕ) (offset : ℕ) (buf : Bytes)
    → offset + 4 ≤ page_size
    → write_entries (id ∷ ids) offset buf
      ≡ write_entries ids (offset + 4) (splice offset (to_le_bytes 4 id) buf)
unfolding write_entries
write_step id ids offset buf h = rw (ge→ltb page_size (offset + 4) h, write_entries) refl

pub length-write_entries :
    (ids : List ℕ) (offset : ℕ) (buf : Bytes) → length (write_entries ids offset buf) ≡ length buf
unfolding write_entries
length-write_entries [] offset buf = refl
length-write_entries (id ∷ ids) offset buf = ground (
  arith,
  length-write_entries ids (offset + 4) (splice offset (to_le_bytes 4 id) buf),
  length-splice offset (to_le_bytes 4 id) buf,
)

pub slice-write_entries :
    (ids : List ℕ) (i n offset : ℕ) (buf : Bytes)
    → i + n ≤ offset
    → slice i n (write_entries ids offset buf) ≡ slice i n buf
unfolding write_entries
slice-write_entries [] i n offset buf h = refl
slice-write_entries (id ∷ ids) i n offset buf h = ground (
  arith,
  slice-write_entries ids i n (offset + 4) (splice offset (to_le_bytes 4 id) buf),
  slice-splice_before i n offset (to_le_bytes 4 id) buf,
)

-- Behind the header, stamping changes nothing.
pub stamped :
    (crc : Bytes → ℕ) (w i : ℕ) (buf : Bytes)
    → 32 ≤ i
    → number_at w i (stamp_checksum crc buf) ≡ number_at w i buf
unfolding stamp_checksum
stamped crc w i buf h = ap from_le_bytes (
    slice-splice_after i w 28 (to_le_bytes 4 (compute_checksum crc buf)) buf
      (omega (arith, length-to_le_bytes 4 (compute_checksum crc buf))))

pub read_entries-stamp :
    (crc : Bytes → ℕ) (n offset : ℕ) (buf : Bytes)
    → 32 ≤ offset
    → read_entries n offset (stamp_checksum crc buf) ≡ read_entries n offset buf
unfolding read_entries
read_entries-stamp crc zero offset buf h = refl
read_entries-stamp crc (suc n) offset buf h = elim (Bool-cases (ltb page_size (offset + 4))) [
  | inl over ↦
      read_end (suc n) offset (stamp_checksum crc buf) (ltb→lt page_size (offset + 4) over)
      ∙ sym (read_end (suc n) offset buf (ltb→lt page_size (offset + 4) over))
  | inr more ↦
      let room = ltb→ge page_size (offset + 4) more in
      rw
        (
          read_step n offset (stamp_checksum crc buf) room,
          read_step n offset buf room,
          stamped crc 4 offset buf h,
          read_entries-stamp crc n (offset + 4) buf (omega arith),
        )
        refl
]

-- As many entries as the page has room for.
pub read_entries-write_entries :
    (k : ℕ) (ids : List ℕ) (offset : ℕ) (buf : Bytes)
    → length buf ≡ page_size
    → offset + 4 * k ≤ page_size
    → page_size < offset + 4 * k + 4
    → All (λ (id : ℕ). id < 2 ^ 32) ids
    → read_entries (length ids) offset (write_entries ids offset buf) ≡ take k ids
unfolding read_entries write_entries
read_entries-write_entries zero [] offset buf full room end small = refl
read_entries-write_entries (suc k) [] offset buf full room end small = refl
read_entries-write_entries zero (id ∷ ids) offset buf full room end small =
    read_end (suc (length ids)) offset (write_entries (id ∷ ids) offset buf) (omega arith)
read_entries-write_entries (suc k) (id ∷ ids) offset buf full room end small =
    let one = to_le_bytes 4 id in
    let more = splice offset one buf in
    let more_full : length more ≡ page_size = length-splice offset one buf ∙ full in
    let here : number_at 4 offset (write_entries ids (offset + 4) more) ≡ id =
      ap from_le_bytes (
        slice-write_entries ids offset 4 (offset + 4) more (omega arith)
        ∙ slice-splice_self offset 4 one buf (sym (length-to_le_bytes 4 id)) (omega arith))
      ∙ from_le_bytes-to_le_bytes 4 id small.0 in
    let rest =
      read_entries-write_entries k ids (offset + 4) more more_full (omega arith) (omega arith)
        small.1 in
    rw
      (
        write_step id ids offset buf (omega arith),
        read_step (length ids) offset (write_entries ids (offset + 4) more) (omega arith),
        here,
        rest,
      )
      refl
