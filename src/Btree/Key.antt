-- ===== src/Btree/Key.antt =====
-- The trait `Key` of src/btree/key.rs, as an interface with its laws, and its two implementations.
-- A slice that is too short for what is read from it or written to it is a panic.
use grumpydb.Prelude.{
  ℕ, ◌+◌, ◌^◌, ◌≤◌, ◌<◌, ◌≡◌, refl, sym, ◌∙◌, ap, arith, Result, ok, ◌>>◌, require, leb, le→leb,
  length, take, slice,
}
use grumpydb.Prelude.Bytes.{
  Bytes, to_le_bytes, from_le_bytes, from_le_bytes-to_le_bytes, length-to_le_bytes, number_at,
}
use grumpydb.Prelude.Splice.{
  splice, length-splice, slice-splice_self, slice-splice_before, slice-splice_after, number_written,
}

pub data Panic : Type 0 where
  panic : Panic

abbrev pub Checked : Type 0 → Type 0
Checked A = Result A Panic

-- The type of the keys, and the type of a tree's configuration.
pub record Key (K C : Type 0) : Type 0 where
  pub tree_meta_bytes : ℕ
  pub node_meta_bytes : ℕ
  pub read_tree_config : Bytes → C
  pub write_tree_config : C → Bytes → Bytes
  pub read_node_config : Bytes → ℕ → C
  pub write_node_config : C → Bytes → ℕ → Bytes
  pub slot_key_size : C → ℕ
  pub read_key : Bytes → C → Checked K
  pub write_key : K → Bytes → C → Checked Bytes

-- The two buffers are of one length, and differ at most in the `n` bytes from `i` on.
abbrev pub AgreeOutside : ℕ → ℕ → Bytes → Bytes → Type 0
AgreeOutside i n xs ys =
    (length xs ≡ length ys)
    × ((j m : ℕ) → j + m ≤ i → slice j m xs ≡ slice j m ys)
    × ((j m : ℕ) → i + n ≤ j → slice j m xs ≡ slice j m ys)

-- A slot that was written: it is as long as before, and the key is read back from it.
abbrev pub IsWritten : {K C : Type 0} → Key K C → C → K → Bytes → Type 0
IsWritten key c k slot =
    (slot' : Bytes) × (key.write_key k slot c ≡ ok slot')
    × (length slot' ≡ length slot)
    × (key.read_key slot' c ≡ ok k)

-- What a node relies on: a configuration of its type and a key that fits its slot are read back from
-- where they were written, and nothing else is overwritten.
pub record KeyLaws {K C : Type 0} (key : Key K C) (IsConfig : C → Type 0) (Fits : C → K → Type 0)
    : Type 0 where
  pub write_within :
      (c : C) (buf : Bytes) (i : ℕ)
      → AgreeOutside i key.node_meta_bytes (key.write_node_config c buf i) buf
  pub read_config :
      (c : C) (buf page : Bytes) (i : ℕ)
      → IsConfig c
      → i + key.node_meta_bytes ≤ length buf
      → slice i key.node_meta_bytes page
        ≡ slice i key.node_meta_bytes (key.write_node_config c buf i)
      → key.read_node_config page i ≡ c
  pub read_written :
      (c : C) (k : K) (slot : Bytes)
      → Fits c k
      → length slot ≡ key.slot_key_size c
      → IsWritten key c k slot

-- A UUID, as its 16 bytes.
abbrev pub Uuid : Type 0
Uuid = Bytes

abbrev pub uuid_key_size : ℕ
uuid_key_size = 16

unfoldable pub read_uuid : Bytes → Checked Uuid
read_uuid slot = do require (leb uuid_key_size (length slot)) panic; ok (take uuid_key_size slot)

unfoldable pub write_uuid : Uuid → Bytes → Checked Bytes
write_uuid k slot = do require (leb uuid_key_size (length slot)) panic; ok (splice 0 k slot)

abbrev pub uuid_key : Key Uuid (Unit {0})
uuid_key = record {
  tree_meta_bytes = 0;
  node_meta_bytes = 0;
  read_tree_config = λ buf. tt;
  write_tree_config = λ c buf. buf;
  read_node_config = λ buf i. tt;
  write_node_config = λ c buf i. buf;
  slot_key_size = λ c. uuid_key_size;
  read_key = λ slot c. read_uuid slot;
  write_key = λ k slot c. write_uuid k slot;
}

abbrev pub var_len_prefix : ℕ
var_len_prefix = 2

unfoldable pub read_vec : Bytes → Checked Bytes
read_vec slot = do
  require (leb 2 (length slot)) panic
  let key_len = number_at 2 0 slot
  require (leb (var_len_prefix + key_len) (length slot)) panic
  ok (slice var_len_prefix key_len slot)

-- `key_len as u16` is what two bytes hold of the length.
unfoldable pub write_vec : Bytes → Bytes → Checked Bytes
write_vec k slot = do
  require (leb (var_len_prefix + length k) (length slot)) panic
  ok (splice var_len_prefix k (splice 0 (to_le_bytes 2 (length k)) slot))

-- `Vec<u8>`, whose configuration is the maximal size of a key. The assertion of debug builds in
-- `write_key` is left out.
abbrev pub vec_key : Key Bytes ℕ
vec_key = record {
  tree_meta_bytes = 2;
  node_meta_bytes = 2;
  read_tree_config = λ buf. number_at 2 48 buf;
  write_tree_config = λ c buf. splice 48 (to_le_bytes 2 c) buf;
  read_node_config = λ buf i. number_at 2 i buf;
  write_node_config = λ c buf i. splice i (to_le_bytes 2 c) buf;
  slot_key_size = λ c. var_len_prefix + c;
  read_key = λ slot c. read_vec slot;
  write_key = λ k slot c. write_vec k slot;
}

uuid-IsWritten :
    (c : Unit {0}) (k slot : Bytes)
    → length k ≡ uuid_key_size
    → length slot ≡ uuid_key_size
    → IsWritten uuid_key c k slot
unfolding read_uuid write_uuid
uuid-IsWritten c k slot fits full =
    let same = length-splice 0 k slot in
    (
      splice 0 k slot,
      rw (le→leb 16 (length slot) (omega arith)) refl,
      same,
      rw (le→leb 16 (length (splice 0 k slot)) (omega arith))
          (ap ok (slice-splice_self 0 16 k slot (sym fits) (omega arith))),
    )

pub uuid_laws : KeyLaws uuid_key (λ c. Unit {0}) (λ c k. length k ≡ uuid_key_size)
uuid_laws = record {
  write_within = λ c buf i. (refl, λ j m h. refl, λ j m h. refl);
  read_config = λ c buf page i fits room e. refl;
  read_written = uuid-IsWritten;
}

vec-AgreeOutside :
    (c : ℕ) (buf : Bytes) (i : ℕ) → AgreeOutside i 2 (splice i (to_le_bytes 2 c) buf) buf
vec-AgreeOutside c buf i = (
  length-splice i (to_le_bytes 2 c) buf,
  λ j m h. slice-splice_before j m i (to_le_bytes 2 c) buf h,
  λ j m h. slice-splice_after j m i (to_le_bytes 2 c) buf (omega (arith, length-to_le_bytes 2 c)),
)

-- The key fits its slot, whose size two bytes hold.
abbrev pub FitsSlot : ℕ → Bytes → Type 0
FitsSlot c k = (length k ≤ c) × (c < 2 ^ 16)

vec-IsWritten :
    (c : ℕ) (k slot : Bytes)
    → FitsSlot c k
    → length slot ≡ var_len_prefix + c
    → IsWritten vec_key c k slot
unfolding read_vec write_vec
vec-IsWritten c k slot fits full =
    let len = to_le_bytes 2 (length k) in
    let slot1 = splice 0 len slot in
    let slot2 = splice 2 k slot1 in
    let same1 = length-splice 0 len slot in
    let same2 = length-splice 2 k slot1 in
    let stored : number_at 2 0 slot2 ≡ length k =
      ap from_le_bytes (
        slice-splice_before 0 2 2 k slot1 (omega arith)
        ∙ slice-splice_self 0 2 len slot (sym (length-to_le_bytes 2 (length k))) (omega arith))
      ∙ from_le_bytes-to_le_bytes 2 (length k) (omega (arith, fits.0, fits.1)) in
    (
      slot2,
      rw (le→leb (2 + length k) (length slot) (omega (arith, fits.0))) refl,
      same2 ∙ same1,
      rw
          (
            le→leb 2 (length slot2) (omega arith),
            stored,
            le→leb (2 + length k) (length slot2) (omega (arith, fits.0)),
          )
          (ap ok (slice-splice_self 2 (length k) k slot1 refl (omega (arith, fits.0)))),
    )

pub vec_laws : KeyLaws vec_key (λ c. c < 2 ^ 16) FitsSlot
vec_laws = record {
  write_within = vec-AgreeOutside;
  read_config = λ c buf page i. number_written 2 i c buf page;
  read_written = vec-IsWritten;
}
