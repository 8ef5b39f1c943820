-- ===== src/Btree/Layout/Slots.antt =====
-- The entries of a node in its page, src/btree/node.rs: what the loop writes, the loop reads.
use native.Mathlib.Nat.{suc-mul}
use grumpydb.Prelude.{
  ℕ, ◌+◌, ◌*◌, ◌≤◌, ◌≡◌, refl, sym, ◌∙◌, arith, [], ◌∷◌, ok, All, le→leb, length, length-take,
  length-drop, drop, slice,
}
use grumpydb.Prelude.Bytes.{Bytes}
use grumpydb.Prelude.Splice.{splice, length-splice, slice-splice_self, slice-splice_before}
use grumpydb.Btree.Key.{Key, KeyLaws}
use grumpydb.Btree.Node.{Entries}
use grumpydb.Btree.Layout.{write_slot, write_slots, read_slots}

length-slice : (i n : ℕ) (bs : Bytes) → i + n ≤ length bs → length (slice i n bs) ≡ n
length-slice i n bs h = length-take n (drop i bs) (omega (arith, length-drop i bs))

-- The bytes before the index are the same.
abbrev pub AgreeBelow : ℕ → Bytes → Bytes → Type 0
AgreeBelow i xs ys = (length xs ≡ length ys) × ((j m : ℕ) → j + m ≤ i → slice j m xs ≡ slice j m ys)

module _ {K C V : Type 0} (key : Key K C) {IsConfig : C → Type 0} {Fits : C → K → Type 0}
    (laws : KeyLaws key IsConfig Fits) (c : C) (size : ℕ) (to_pointer : V → Bytes)
    (of_pointer : Bytes → V) where
  abbrev slot_key : ℕ
  slot_key = key.slot_key_size c

  -- An entry that fits, whose pointer is read back.
  abbrev pub IsEntry : K × V → Type 0
  IsEntry e = Fits c e.0 × (length (to_pointer e.1) ≡ size) × (of_pointer (to_pointer e.1) ≡ e.1)

  write_slot_lem :
      (k : K) (v : V) (base : ℕ) (buf : Bytes)
      → IsEntry (k, v)
      → base + (slot_key + size) ≤ length buf
      → (buf' : Bytes) × (write_slot key c k (to_pointer v) base buf ≡ ok buf')
        × AgreeBelow base buf' buf
        × (key.read_key (slice base slot_key buf') c ≡ ok k)
        × (slice (base + slot_key) size buf' ≡ to_pointer v)
  unfolding write_slot
  write_slot_lem k v base buf entry room =
      let p = to_pointer v in
      let (slot, written, same, read) =
        laws.read_written c k (slice base slot_key buf) entry.0
          (length-slice base slot_key buf (omega arith)) in
      let full : length slot ≡ slot_key = same ∙ length-slice base slot_key buf (omega arith) in
      let buf1 = splice base slot buf in
      let same1 = length-splice base slot buf in
      let same2 = length-splice (base + slot_key) p buf1 in
      (
        splice (base + slot_key) p buf1,
        rw
            (
              le→leb (base + slot_key) (length buf) (omega arith),
              written,
              le→leb (base + slot_key + length p) (length buf1) (omega (arith, entry.1)),
            )
            refl,
        (
          same2 ∙ same1,
          λ j m h.
              slice-splice_before j m (base + slot_key) p buf1 (omega arith)
              ∙ slice-splice_before j m base slot buf h,
        ),
        rw
            (
              slice-splice_before base slot_key (base + slot_key) p buf1 (omega arith),
              slice-splice_self base slot_key slot buf (sym full) (omega arith),
            )
            read,
        slice-splice_self (base + slot_key) size p buf1 (sym entry.1) (omega arith),
      )

  -- Entries that fit are written, if there is room, and read back; the bytes before them stay.
  pub read_slots-write_slots :
      (es : Entries K V) (base : ℕ) (buf : Bytes)
      → All IsEntry es
      → base + length es * (slot_key + size) ≤ length buf
      → (buf' : Bytes) × (write_slots key to_pointer c base es buf ≡ ok buf')
        × AgreeBelow base buf' buf
        × (read_slots key of_pointer size c base (length es) buf' ≡ ok es)
  unfolding write_slots read_slots
  read_slots-write_slots [] base buf entries room = (buf, refl, (refl, λ j m h. refl), refl)
  read_slots-write_slots ((k, v) ∷ es) base buf entries room =
      let more = suc-mul (length es) (slot_key + size) in
      let (buf1, written, (same1, below1), read, pointer) =
        write_slot_lem k v base buf entries.0 (omega arith) in
      let next = base + (slot_key + size) in
      let (buf2, written2, (same2, below2), read2) =
        read_slots-write_slots es next buf1 entries.1 (omega arith) in
      let len = entries.0.1 in
      (
        buf2,
        rw (written, len) written2,
        (same2 ∙ same1, λ j m h. below2 j m (omega arith) ∙ below1 j m h),
        rw
            (
              le→leb (base + slot_key) (length buf2) (omega arith),
              below2 base slot_key (omega arith),
              read,
              le→leb (base + slot_key + size) (length buf2) (omega arith),
              below2 (base + slot_key) size (omega arith),
              pointer,
              entries.0.2,
              read2,
            )
            refl,
      )
