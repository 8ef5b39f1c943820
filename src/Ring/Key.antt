-- ===== src/Ring/Key.antt =====
-- The bytes that a routing key is hashed as: `canonical_bytes` of grumpydb-ring/src/hash.rs.
use grumpydb.Prelude.{ℕ, ◌≡◌, ◌≢◌, refl, arith, [], ◌∷◌, ◌++◌, All}
use grumpydb.Prelude.Bytes.{Bytes}
use grumpydb.Ring.{RoutingKey, canonical_bytes}

abbrev pub HasNoNul : Bytes → Type 0
HasNoNul = All (λ (b : ℕ). b ≢ 0)

-- The part before the first NUL.
split_at_nul :
    (xs ys rest more : Bytes)
    → HasNoNul xs
    → HasNoNul ys
    → xs ++ 0 ∷ rest ≡ ys ++ 0 ∷ more
    → (xs ≡ ys) × (rest ≡ more)
split_at_nul [] [] rest more p q e = (refl, cc)
split_at_nul [] (y ∷ ys) rest more p q e = absurd (q.0 (cc))
split_at_nul (x ∷ xs) [] rest more p q e = absurd (p.0 (cc))
split_at_nul (x ∷ xs) (y ∷ ys) rest more p q e =
    let head : x ≡ y = cc in
    let (same, tail) = split_at_nul xs ys rest more p.1 q.1 (cc) in (cc, tail)

-- Keys whose database and collection names hold no NUL have different bytes if they differ.
pub canonical_bytes_inj :
    (j k : RoutingKey)
    → HasNoNul j.database
    → HasNoNul j.collection
    → HasNoNul k.database
    → HasNoNul k.collection
    → canonical_bytes j ≡ canonical_bytes k
    → j ≡ k
unfolding canonical_bytes
canonical_bytes_inj j k dj cj dk ck e =
    let (database, rest) =
      split_at_nul j.database k.database (j.collection ++ 0 ∷ j.key_bytes)
        (k.collection ++ 0 ∷ k.key_bytes) dj dk e in
    let (collection, key) =
      split_at_nul j.collection k.collection j.key_bytes k.key_bytes cj ck rest in
    ground arith
