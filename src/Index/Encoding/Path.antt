-- ===== src/Index/Encoding/Path.antt =====
-- Paths of fields in src/index/encoding.rs.
use grumpydb.Prelude.{
  ◌≡◌, refl, Bool-cases, inl, inr, Option, none, some, List, [], ◌∷◌, ◌++◌, ◌==◌,
}
use grumpydb.Prelude.Bytes.{Bytes}
use grumpydb.Document.Value.{Value}
use grumpydb.Index.Encoding.{split_dots, member, and_then, walk, extract_field}

split_dots-append :
    (p q : Bytes)
    → split_dots (p ++ (46 ∷ q))
      ≡ ((split_dots p).0, (split_dots p).1 ++ ((split_dots q).0 ∷ (split_dots q).1))
unfolding split_dots
split_dots-append [] q = refl
split_dots-append (c ∷ p) q = elim (Bool-cases (c == 46)) [
  | inl e ↦ rw (e, split_dots-append p q)
  | inr e ↦ rw (e, split_dots-append p q)
]

walk-append :
    (v : Value) (part next : Bytes) (parts more : List Bytes)
    → walk v part (parts ++ (next ∷ more)) ≡ and_then (walk v part parts) (λ w. walk w next more)
unfolding walk
walk-append v part next [] more = refl
walk-append v part next (p ∷ parts) more =
    go (λ w. walk w p (parts ++ (next ∷ more))) (λ w. walk w p parts) (λ w. walk w next more)
      (λ w. walk-append w p next parts more) (member v part)
  where
    go :
        (f g h : Value → Option Value)
        → ((w : Value) → f w ≡ and_then (g w) h)
        → (o : Option Value) → and_then o f ≡ and_then (and_then o g) h
    go f g h below none = refl
    go f g h below (some w) = below w

-- The field at a path that is two paths joined by a dot is the field that the second finds in the
-- value that the first finds, and absent where the first finds none.
pub extract_field-append :
    (v : Value) (p q : Bytes)
    → extract_field v (p ++ (46 ∷ q)) ≡ and_then (extract_field v p) (λ w. extract_field w q)
unfolding extract_field
extract_field-append v p q =
    rw (split_dots-append p q)
      (walk-append v (split_dots p).0 (split_dots q).0 (split_dots p).1 (split_dots q).1)
