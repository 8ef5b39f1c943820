-- ===== src/Page/Slotted.antt =====
-- The slotted page of src/page/slotted.rs: the 8192 bytes of a page, with a slot array that grows
-- from the header and tuples that grow from the end. A slot is two `u16`, the offset of its tuple (0
-- for a free slot) and its length, of which bit 15 is a flag.
pub mod Access
pub mod Delete
pub mod Taken
pub mod Insert
pub mod Stored
use grumpydb.Prelude.{
  ℕ, zero, suc, ◌+◌, ◌-◌, ◌*◌, ◌%◌, ◌^◌, Bool, true, false, not, ◌&&◌, Option, none, some, List, [],
  ◌∷◌, ok, err, ◌>>=◌, ◌>>◌, require, ltb, leb, ◌==◌, if◌then◌else◌, length, slice, replicate,
}
use grumpydb.Prelude.Bytes.{Bytes, to_le_bytes, number_at}
use grumpydb.Prelude.Splice.{splice}
use grumpydb.Error.{Outcome, codec, slot_length, page_full, page_not_found}
use grumpydb.Page.{page_size, page_header_size, slot_size, data_page, new_header, write_to}

-- `SLOT_LENGTH_MASK`, and bit 15
abbrev pub max_slot_length : ℕ
max_slot_length = 0x7fff

abbrev pub slot_tombstone_bit : ℕ
slot_tombstone_bit = 0x8000

abbrev pub SlottedPage : Type 0
SlottedPage = Bytes

unfoldable pub new : ℕ → SlottedPage
new page_id = write_to (new_header page_id data_page) (replicate page_size 0)

unfoldable pub page_id : SlottedPage → ℕ
page_id p = number_at 4 0 p

unfoldable pub num_slots : SlottedPage → ℕ
num_slots p = number_at 2 6 p

unfoldable pub free_space_start : SlottedPage → ℕ
free_space_start p = number_at 2 8 p

unfoldable pub free_space_end : SlottedPage → ℕ
free_space_end p = number_at 2 10 p

unfoldable pub set_num_slots : ℕ → SlottedPage → SlottedPage
set_num_slots n p = splice 6 (to_le_bytes 2 n) p

unfoldable pub set_free_space_start : ℕ → SlottedPage → SlottedPage
set_free_space_start n p = splice 8 (to_le_bytes 2 n) p

unfoldable pub set_free_space_end : ℕ → SlottedPage → SlottedPage
set_free_space_end n p = splice 10 (to_le_bytes 2 n) p

-- `end.saturating_sub(start)`
unfoldable pub free_space : SlottedPage → ℕ
free_space p = free_space_end p - free_space_start p

unfoldable pub slot_offset : ℕ → ℕ
slot_offset i = page_header_size + i * slot_size

-- The two fields of a slot, the length without its flag.
unfoldable pub offset_of : SlottedPage → ℕ → ℕ
offset_of p i = number_at 2 (slot_offset i) p

unfoldable pub raw_length_of : SlottedPage → ℕ → ℕ
raw_length_of p i = number_at 2 (slot_offset i + 2) p

unfoldable pub length_of : SlottedPage → ℕ → ℕ
length_of p i = raw_length_of p i % 2 ^ 15

unfoldable pub write_slot : ℕ → ℕ → ℕ → SlottedPage → Outcome SlottedPage
write_slot i offset len p =
    if ltb max_slot_length len
    then err (codec (slot_length len))
    else ok (
        splice (slot_offset i + 2) (to_le_bytes 2 len)
          (splice (slot_offset i) (to_le_bytes 2 offset) p))

unfoldable pub is_slot_tombstone : SlottedPage → ℕ → Bool
is_slot_tombstone p i =
    if leb (num_slots p) i
    then false
    else not (offset_of p i == 0) && leb slot_tombstone_bit (raw_length_of p i)

unfoldable pub set_slot_tombstone_flag : ℕ → Bool → SlottedPage → SlottedPage
set_slot_tombstone_flag i flag p =
    if leb (num_slots p) i
    then p
    else (let bits = raw_length_of p i % 2 ^ 15 in
        splice (slot_offset i + 2)
          (to_le_bytes 2 (if flag then bits + slot_tombstone_bit else bits)) p)

-- The first free slot among `n` slots from `i` on.
unfoldable pub find_from : SlottedPage → ℕ → ℕ → Option ℕ
find_from p i zero = none
find_from p i (suc n) =
    let rest = find_from p (i + 1) n in if offset_of p i == 0 then some i else rest

unfoldable pub find_tombstone_slot : SlottedPage → Option ℕ
find_tombstone_slot p = find_from p 0 (num_slots p)

-- The slot that `insert` uses, and the page with that slot in its array. Sums of `u16` wrap.
unfoldable pub take_slot : SlottedPage → ℕ × SlottedPage
take_slot p = elim (find_tombstone_slot p) [
  | some i ↦ (i, p)
  | none ↦
      let i = num_slots p in
      let n = (i + 1) % 2 ^ 16 in
      (i, set_free_space_start (slot_offset n % 2 ^ 16) (set_num_slots n p))
]

-- The tuple is copied to the end of the free space, and its slot written.
unfoldable pub place : ℕ → Bytes → SlottedPage → Outcome (SlottedPage × ℕ)
place i tuple p = do
  let new_end = (free_space_end p + 2 ^ 16 - length tuple % 2 ^ 16) % 2 ^ 16
  let p' = splice new_end tuple (set_free_space_end new_end p)
  p'' ← write_slot i new_end (length tuple % 2 ^ 16) p'
  ok (p'', i)

unfoldable pub insert : Bytes → SlottedPage → Outcome (SlottedPage × ℕ)
insert tuple p =
    if ltb (free_space p) (length tuple + slot_size)
    then err (page_full (page_id p))
    else (let (i, p') = take_slot p in place i tuple p')

unfoldable pub get : SlottedPage → ℕ → Outcome Bytes
get p i =
    if leb (num_slots p) i
    then err (page_not_found (page_id p))
    else if offset_of p i == 0
    then err (page_not_found (page_id p))
    else ok (slice (offset_of p i) (length_of p i) p)

unfoldable pub delete : ℕ → SlottedPage → Outcome SlottedPage
delete i p =
    if leb (num_slots p) i
    then err (page_not_found (page_id p))
    else if offset_of p i == 0
    then err (page_not_found (page_id p))
    else write_slot i 0 0 p

unfoldable pub update : ℕ → Bytes → SlottedPage → Outcome (SlottedPage × ℕ)
update i tuple p =
    if leb (num_slots p) i
    then err (page_not_found (page_id p))
    else if offset_of p i == 0
    then err (page_not_found (page_id p))
    else if leb (length tuple) (length_of p i)
    then (do
      p' ← write_slot i (offset_of p i) (length tuple % 2 ^ 16) (splice (offset_of p i) tuple p)
      ok (p', i))
    else (do p' ← delete i p; insert tuple p')

-- The live tuples of `n` slots from `i` on, with their slots.
unfoldable pub live_tuples : SlottedPage → ℕ → ℕ → List (ℕ × Bytes)
live_tuples p i zero = []
live_tuples p i (suc n) =
    let rest = live_tuples p (i + 1) n in
    if offset_of p i == 0 then rest else (i, slice (offset_of p i) (length_of p i) p) ∷ rest

-- The loop that packs tuples from `write_end` down.
unfoldable pub repack : List (ℕ × Bytes) → ℕ → SlottedPage → Outcome (SlottedPage × ℕ)
repack [] write_end p = ok (p, write_end)
repack ((i, tuple) ∷ rest) write_end p = do
  let start = (write_end + 2 ^ 16 - length tuple % 2 ^ 16) % 2 ^ 16
  p' ← write_slot i start (length tuple % 2 ^ 16) (splice start tuple p)
  repack rest start p'

unfoldable pub compact : SlottedPage → Outcome SlottedPage
compact p = do
  let tuples = live_tuples p 0 (num_slots p)
  let slots_end = slot_offset (num_slots p)
  let cleared = splice slots_end (replicate (page_size - slots_end) 0) p
  (p', write_end) ← repack tuples page_size cleared
  ok (set_free_space_end write_end p')

unfoldable pub live_tuple_count : SlottedPage → ℕ
live_tuple_count p = length (live_tuples p 0 (num_slots p))
