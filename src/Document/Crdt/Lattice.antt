-- ===== src/Document/Crdt/Lattice.antt =====
-- Merging encoded values of a semilattice, as src/document/crdt.rs merges each kind of payload.
use grumpydb.Prelude.{◌≡◌, refl, sym, ap, ◌∙◌, Result, ok, ◌>>=◌}
use grumpydb.Prelude.Bytes.{Bytes}
use grumpydb.Prelude.Map.Union.{Semilattice}
use grumpydb.Document.Crdt.{CrdtError}

-- A decoder and an encoder: what is decoded of a raw text meets `Good`, and what meets it is encoded
-- as such a text and read back.
pub record Codec {P : Type 0} (Raw : Bytes → Type 0) (Good : P → Type 0) : Type 0 where
  pub dec : Bytes → Result P CrdtError
  pub enc : P → Result Bytes CrdtError
  pub good : (b : Bytes) (x : P) → Raw b → dec b ≡ ok x → Good x
  pub back : (x : P) → Good x → (b : Bytes) × (enc x ≡ ok b) × (dec b ≡ ok x) × Raw b

module _ {P : Type 0} {Raw : Bytes → Type 0} {Good : P → Type 0} (c : Codec Raw Good)
    (join : P → P → P) where
  abbrev pub merge_encoded : Bytes → Bytes → Result Bytes CrdtError
  merge_encoded left right = do l ← c.dec left; r ← c.dec right; c.enc (join l r)

  abbrev pub Decodes : Bytes → Type 0
  Decodes b = Raw b × ((x : P) × (c.dec b ≡ ok x))

  merge_lem :
      (l r : Bytes) (x y : P)
      → c.dec l ≡ ok x
      → c.dec r ≡ ok y
      → merge_encoded l r ≡ c.enc (join x y)
  merge_lem l r x y e f = rw (e, f) refl

  module _ (lat : Semilattice Good join) where
    pub merge_comm : (l r : Bytes) → Decodes l → Decodes r → merge_encoded l r ≡ merge_encoded r l
    merge_comm l r (al, (x, e)) (ar, (y, f)) =
        merge_lem l r x y e f
        ∙ ap c.enc (lat.comm x y (c.good l x al e) (c.good r y ar f))
        ∙ sym (merge_lem r l y x f e)

    -- The merge of two is encoded, and is the join when it is decoded.
    pub merge-Decodes :
        (l r : Bytes) (x y : P)
        → Raw l
        → Raw r
        → c.dec l ≡ ok x
        → c.dec r ≡ ok y
        → (m : Bytes) × (merge_encoded l r ≡ ok m) × (c.dec m ≡ ok (join x y)) × Raw m
    merge-Decodes l r x y al ar e f =
        let (m, encoded, decoded, am) =
          c.back (join x y) (lat.closed x y (c.good l x al e) (c.good r y ar f)) in
        (m, merge_lem l r x y e f ∙ encoded, decoded, am)

    pub merge_assoc :
        (l r s : Bytes)
        → Decodes l
        → Decodes r
        → Decodes s
        → (merge_encoded l r >>= λ m. merge_encoded m s)
          ≡ (merge_encoded r s >>= λ m. merge_encoded l m)
    merge_assoc l r s (al, (x, e)) (ar, (y, f)) (as', (z, g)) =
        let (m, one, decoded, am) = merge-Decodes l r x y al ar e f in
        let (n, two, joined, an) = merge-Decodes r s y z ar as' f g in
        rw one (
          rw two (
            merge_lem m s (join x y) z decoded g
            ∙ ap c.enc (lat.assoc x y z (c.good l x al e) (c.good r y ar f) (c.good s z as' g))
            ∙ sym (merge_lem l n x (join y z) e joined)))

    -- Merging what has been merged changes nothing.
    pub merge_absorb :
        (l r : Bytes)
        → Decodes l
        → Decodes r
        → (m : Bytes) × (merge_encoded l r ≡ ok m)
          × (merge_encoded m r ≡ ok m)
          × (merge_encoded m l ≡ ok m)
    merge_absorb l r (al, (x, e)) (ar, (y, f)) =
        let (m, one, decoded, am) = merge-Decodes l r x y al ar e f in
        let gx = c.good l x al e in
        let gy = c.good r y ar f in
        let encoded : c.enc (join x y) ≡ ok m = sym (merge_lem l r x y e f) ∙ one in
        let right : join (join x y) y ≡ join x y =
          lat.assoc x y y gx gy gy ∙ ap (join x) (lat.idem y gy) in
        let left : join (join x y) x ≡ join x y =
          lat.comm (join x y) x (lat.closed x y gx gy) gx
          ∙ sym (lat.assoc x x y gx gx gy)
          ∙ ap (λ (z : P). join z y) (lat.idem x gx) in
        (
          m,
          one,
          merge_lem m r (join x y) y decoded f ∙ ap c.enc right ∙ encoded,
          merge_lem m l (join x y) x decoded e ∙ ap c.enc left ∙ encoded,
        )
