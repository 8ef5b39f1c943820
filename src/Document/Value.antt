-- ===== src/Document/Value.antt =====
-- `Value` and `CrdtKind` of src/document/value.rs. A `String` is its UTF-8 bytes, a `Uuid` its 16
-- bytes, an `f64` its 64 bits. The entries of an object stand in the order of the map's keys.
use grumpydb.Prelude.{ℕ, suc, ◌≡◌, refl, Bool, true, false, Option, none, some, ◌==◌, if◌then◌else◌}
use grumpydb.Prelude.Bytes.{Bytes}
use grumpydb.Prelude.Int.{ℤ}
use grumpydb.Prelude.Order.{Ordering, cmp_bytes}

pub data CrdtKind : Type 0 where
  g_counter pn_counter lww_set or_set mvr : CrdtKind

unfoldable pub to_tag : CrdtKind → ℕ
to_tag g_counter = 0
to_tag pn_counter = 1
to_tag lww_set = 2
to_tag or_set = 3
to_tag mvr = 4

unfoldable pub from_tag : ℕ → Option CrdtKind
from_tag tag =
    if tag == 0
    then some g_counter
    else if tag == 1
    then some pn_counter
    else if tag == 2
    then some lww_set
    else if tag == 3
    then some or_set
    else if tag == 4
    then some mvr
    else none

pub from_tag-to_tag : (k : CrdtKind) → from_tag (to_tag k) ≡ some k
unfolding from_tag to_tag
from_tag-to_tag g_counter = refl
from_tag-to_tag _ = refl

mutual
  pub data Value : Type 0 where
    null : Value
    bool : Bool → Value
    integer : ℤ → Value
    float : ℕ → Value
    string : Bytes → Value
    bytes : Bytes → Value
    array : Items → Value
    object : Fields → Value
    ref : Bytes → Bytes → Value
    tombstone : ℕ → Bytes → Value
    crdt : CrdtKind → Bytes → Value

  pub data Items : Type 0 where
    no_items : Items
    item : Value → Items → Items

  pub data Fields : Type 0 where
    no_fields : Fields
    field : Bytes → Value → Fields → Fields

-- `arr.len()` and `map.len()`
abbrev pub count_items : Items → ℕ
count_items no_items = 0
count_items (item v xs) = suc (count_items xs)

abbrev pub count_fields : Fields → ℕ
count_fields no_fields = 0
count_fields (field k v fs) = suc (count_fields fs)

-- `map.insert(key, val)`
unfoldable pub insert_field : Bytes → Value → Fields → Fields
insert_field k v no_fields = field k v no_fields
insert_field k v (field j w fs) = elim (cmp_bytes k j) [
  | Ordering.lt ↦ field k v (field j w fs)
  | Ordering.eq ↦ field k v fs
  | Ordering.gt ↦ field j w (insert_field k v fs)
]

-- `obj.get(key)`
unfoldable pub get_field : Bytes → Fields → Option Value
get_field k no_fields = none
get_field k (field j w fs) = elim (cmp_bytes k j) [ Ordering.eq ↦ some w | _ ↦ get_field k fs ]

unfoldable pub is_tombstone : Value → Bool
is_tombstone (tombstone t vc) = true
is_tombstone _ = false

unfoldable pub as_crdt : Value → Option (CrdtKind × Bytes)
as_crdt (crdt kind payload) = some (kind, payload)
as_crdt _ = none
