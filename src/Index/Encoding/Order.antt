-- ===== src/Index/Encoding/Order.antt =====
-- The order of the keys of src/index/encoding.rs, byte by byte, against the order of the values.
use grumpydb.Prelude.{
  take-length, ℕ, zero, suc, ◌+◌, ◌/◌, ◌%◌, ◌^◌, ◌≤◌, ◌<◌, ◌≡◌, refl, ap, arith, Bool, true, false,
  min, ◌*◌, ◌∙◌, [], ◌∷◌, ◌++◌, ok, ltb, if◌then◌else◌, length,
}
use native.Mathlib.Nat.{
  pow-suc, mod-eq_of_lt, mod-lt, div-lt_iff_lt-mul, div-mul-le_self, div-add-mod',
}
use grumpydb.Prelude.Bytes.{Bytes, to_be_bytes}
use grumpydb.Prelude.Int.{ℤ, pos, negsuc, IsI64, to_u64}
use grumpydb.Prelude.Order.{Ordering, nat_ord, cmp_bytes, nat_eq, less, same, more, Ordering-cases}
use grumpydb.Document.Value.{Value, null, bool, integer, float, string, bytes, ref}
use grumpydb.Index.Encoding.{
  max_indexed_len, flip_sign, sortable_float, indexed, encode_sortable_value,
}

pow-positive : (w : ℕ) → 0 < 256 ^ w
pow-positive zero = omega arith
pow-positive (suc w) = omega (arith, pow-positive w, pow-suc 256 w)

div-lt-lt : (p m n : ℕ) → 0 < p → m / p < n / p → m < n
div-lt-lt p m n h k = omega (arith, (div-lt_iff_lt-mul h).0 k, div-mul-le_self n p)

cmp-lt : (m n : ℕ) → m < n → Ordering.lt ≡ nat_ord.cmp m n
cmp-lt m n h = ground arith

cmp-gt : (m n : ℕ) → n < m → Ordering.gt ≡ nat_ord.cmp m n
cmp-gt m n h = ground arith

cmp-add : (a m n : ℕ) → nat_ord.cmp m n ≡ nat_ord.cmp (a + m) (a + n)
cmp-add a m n = ground arith

-- Below one quotient the order is that of the remainders.
cmp-mod : (p m n : ℕ) → m / p ≡ n / p → nat_ord.cmp (m % p) (n % p) ≡ nat_ord.cmp m n
cmp-mod p m n e =
    let left : m / p * p + m % p ≡ m = div-add-mod' m p in
    let right : m / p * p + n % p ≡ n = rw e (div-add-mod' n p) in
    cmp-add (m / p * p) (m % p) (n % p)
    ∙ ap (nat_ord.cmp (m / p * p + m % p)) right
    ∙ ap (λ a. nat_ord.cmp a n) left

-- Big-endian bytes of one width are in the order of the numbers.
cmp-to_be_bytes :
    (w m n : ℕ)
    → m < 256 ^ w
    → n < 256 ^ w
    → cmp_bytes (to_be_bytes w m) (to_be_bytes w n) ≡ nat_ord.cmp m n
unfolding to_be_bytes
cmp-to_be_bytes zero m n h k =
    let e : m ≡ 0 = omega arith in let f : n ≡ 0 = omega arith in rw (e, f) refl
cmp-to_be_bytes (suc w) m n h k =
    let p = 256 ^ w in
    let pos : 0 < p = pow-positive w in
    let mh : m / p % 256 ≡ m / p =
      mod-eq_of_lt ((div-lt_iff_lt-mul pos).1 (omega (arith, pow-suc 256 w))) in
    let nh : n / p % 256 ≡ n / p =
      mod-eq_of_lt ((div-lt_iff_lt-mul pos).1 (omega (arith, pow-suc 256 w))) in
    let tails = cmp-to_be_bytes w (m % p) (n % p) (mod-lt m pos) (mod-lt n pos) in
    rw (mh, nh)
      (elim (Ordering-cases (nat_ord.cmp (m / p) (n / p))) [
        | less e ↦ rw (e, cmp_bytes) (cmp-lt m n (div-lt-lt p m n pos (ground (arith, e))))
        | same e ↦ rw (e, cmp_bytes) (tails ∙ cmp-mod p m n (nat_eq (m / p) (n / p) e))
        | more e ↦ rw (e, cmp_bytes) (cmp-gt m n (div-lt-lt p n m pos (ground (arith, e))))
      ])

-- Negative below positive, and the larger the magnitude the lower among the negative: the order of
-- the numbers, with -0 below 0 (`total_cmp`).
abbrev pub cmp_float : ℕ → ℕ → Ordering
cmp_float f g =
    if ltb f (2 ^ 63)
    then (if ltb g (2 ^ 63) then nat_ord.cmp f g else Ordering.gt)
    else if ltb g (2 ^ 63)
    then Ordering.lt
    else nat_ord.cmp g f

abbrev pub cmp_int : ℤ → ℤ → Ordering
cmp_int (pos a) (pos b) = nat_ord.cmp a b
cmp_int (pos a) (negsuc b) = Ordering.gt
cmp_int (negsuc a) (pos b) = Ordering.lt
cmp_int (negsuc a) (negsuc b) = nat_ord.cmp b a

abbrev pub cmp_bool : Bool → Bool → Ordering
cmp_bool false false = Ordering.eq
cmp_bool false true = Ordering.lt
cmp_bool true false = Ordering.gt
cmp_bool true true = Ordering.eq

-- The place of a kind of value: Null < Bool < Integer < Float < String < Bytes < Ref.
abbrev pub rank : Value → ℕ
rank null = 0
rank (bool b) = 1
rank (integer i) = 2
rank (float f) = 3
rank (string s) = 4
rank (bytes b) = 5
rank (ref c u) = 6
rank _ = 7

-- The order of two values of one kind, by their content.
abbrev pub cmp_same : Value → Value → Ordering
cmp_same (bool a) (bool b) = cmp_bool a b
cmp_same (integer a) (integer b) = cmp_int a b
cmp_same (float f) (float g) = cmp_float f g
cmp_same (string s) (string t) = cmp_bytes s t
cmp_same (bytes s) (bytes t) = cmp_bytes s t
cmp_same (ref c u) (ref d v) = cmp_bytes (c ++ u) (d ++ v)
cmp_same _ _ = Ordering.eq

-- The order of two values, by their kinds first.
abbrev pub cmp_values : Value → Value → Ordering
cmp_values v w = elim (nat_ord.cmp (rank v) (rank w)) [
  | Ordering.lt ↦ Ordering.lt
  | Ordering.eq ↦ cmp_same v w
  | Ordering.gt ↦ Ordering.gt
]

-- Numbers are of 64 bits, and texts of at most 128 bytes.
abbrev pub IsShort : Value → Type 0
IsShort (integer i) = IsI64 i
IsShort (float f) = f < 2 ^ 64
IsShort (string s) = length s ≤ max_indexed_len
IsShort (bytes b) = length b ≤ max_indexed_len
IsShort (ref c u) = length c ≤ max_indexed_len
IsShort _ = Unit

indexed_short : (b : Bytes) → length b ≤ max_indexed_len → indexed b ≡ b
unfolding indexed
indexed_short b h =
    let whole : min (length b) 128 ≡ length b = omega (arith, h) in rw whole (take-length b)

cmp-flip_sign :
    (a b : ℤ)
    → IsI64 a
    → IsI64 b
    → nat_ord.cmp (flip_sign (to_u64 a)) (flip_sign (to_u64 b)) ≡ cmp_int a b
unfolding flip_sign to_u64
cmp-flip_sign (pos a) (pos b) h k = ground arith
cmp-flip_sign (pos a) (negsuc b) h k = ground arith
cmp-flip_sign (negsuc a) (pos b) h k = ground arith
cmp-flip_sign (negsuc a) (negsuc b) h k = ground arith

cmp-sortable_float :
    (f g : ℕ)
    → f < 2 ^ 64
    → g < 2 ^ 64
    → nat_ord.cmp (sortable_float f) (sortable_float g) ≡ cmp_float f g
unfolding sortable_float flip_sign
cmp-sortable_float f g h k = ground arith

-- What stands behind the first byte of a key.
abbrev body : Value → Bytes
body (bool b) = (if b then 1 else 0) ∷ []
body (integer i) = to_be_bytes 8 (flip_sign (to_u64 i))
body (float f) = to_be_bytes 8 (sortable_float f)
body (string s) = indexed s
body (bytes b) = indexed b
body (ref c u) = indexed c ++ u
body _ = []

key-rank : (v : Value) (x : Bytes) → encode_sortable_value v ≡ ok x → x ≡ rank v ∷ body v
unfolding encode_sortable_value
key-rank v x e = ground arith

flip_sign-lt : (i : ℤ) → IsI64 i → flip_sign (to_u64 i) < 256 ^ 8
unfolding flip_sign to_u64
flip_sign-lt (pos n) h = ground arith
flip_sign-lt (negsuc n) h = ground arith

sortable_float-lt : (f : ℕ) → f < 2 ^ 64 → sortable_float f < 256 ^ 8
unfolding sortable_float flip_sign
sortable_float-lt f h = ground arith

cmp-body :
    (v w : Value)
    → IsShort v
    → IsShort w
    → rank v ≡ rank w
    → cmp_bytes (body v) (body w) ≡ cmp_same v w
cmp-body (bool a) (bool b) h k e = ground arith
cmp-body (integer a) (integer b) h k e =
    cmp-to_be_bytes 8 (flip_sign (to_u64 a)) (flip_sign (to_u64 b)) (flip_sign-lt a h)
      (flip_sign-lt b k)
    ∙ cmp-flip_sign a b h k
cmp-body (float f) (float g) h k e =
    cmp-to_be_bytes 8 (sortable_float f) (sortable_float g) (sortable_float-lt f h)
      (sortable_float-lt g k)
    ∙ cmp-sortable_float f g h k
cmp-body (string s) (string t) h k e = rw (indexed_short s h, indexed_short t k)
cmp-body (bytes s) (bytes t) h k e = rw (indexed_short s h, indexed_short t k)
cmp-body (ref c u) (ref d v) h k e = rw (indexed_short c h, indexed_short d k)
cmp-body v w h k e = ground (arith, e)

-- The sortable keys of two values that can be indexed, with integers and floats of 64 bits and texts
-- of at most 128 bytes, are in the order of the values, byte by byte: first by the kind, then
-- integers and floats by size (-0 below 0), texts and bytes lexicographically, references by the
-- collection's name followed by the key.
pub encode_sortable_value-ordered :
    (v w : Value) (x y : Bytes)
    → IsShort v
    → IsShort w
    → encode_sortable_value v ≡ ok x
    → encode_sortable_value w ≡ ok y
    → cmp_bytes x y ≡ cmp_values v w
encode_sortable_value-ordered v w x y h k e f =
    rw (key-rank v x e, key-rank w y f)
      (elim (Ordering-cases (nat_ord.cmp (rank v) (rank w))) [
        | less o ↦ rw (o, cmp_bytes, cmp_values)
        | same o ↦ rw (o, cmp_bytes, cmp_values) (cmp-body v w h k (nat_eq (rank v) (rank w) o))
        | more o ↦ rw (o, cmp_bytes, cmp_values)
      ])
