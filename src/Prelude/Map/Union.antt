-- ===== src/Prelude/Map/Union.antt =====
-- The union of two maps, where a value that both hold is joined: a semilattice if the values are one.
use mathlib.Core.Path.{◌≡◌, refl, sym, ap, ◌∙◌}
use mathlib.Core.List.{[], ◌∷◌}
use mathlib.Core.Option.{Option, none, some}
use native.Mathlib.Omega.{arith}
use grumpydb.Prelude.Order.{Ord, Ordering}
use grumpydb.Prelude.Map.{Map, get, insert, IsSorted, get-insert, insert-IsSorted, get_of_Above}
use grumpydb.Prelude.Map.Ext.{Map_ext}

-- `f` is a join of the values that meet `P`.
pub record Semilattice {V : Type 0} (P : V → Type 0) (f : V → V → V) : Type 0 where
  pub closed : (a b : V) → P a → P b → P (f a b)
  pub comm : (a b : V) → P a → P b → f a b ≡ f b a
  pub assoc : (a b c : V) → P a → P b → P c → f (f a b) c ≡ f a (f b c)
  pub idem : (a : V) → P a → f a a ≡ a

module _ {V : Type 0} (f : V → V → V) where
  abbrev pub joined : Option V → V → V
  joined none w = w
  joined (some v) w = f v w

  abbrev pub join_option : Option V → Option V → Option V
  join_option none b = b
  join_option (some v) none = some v
  join_option (some v) (some w) = some (f v w)

module _ {K V : Type 0} ⦃o : Ord K⦄ (f : V → V → V) where
  -- `for (k, w) in right { out.entry(k).and_modify(|v| f(v, w)).or_insert(w); }`
  unfoldable pub union_with : Map K V → Map K V → Map K V
  union_with left [] = left
  union_with left ((k, w) ∷ right) = union_with (insert k (joined f (get k left) w) left) right

module _ {K V : Type 0} ⦃o : Ord K⦄ (f : V → V → V) where
  pub union_with-IsSorted : (l r : Map K V) → IsSorted l → IsSorted (union_with f l r)
  unfolding union_with
  union_with-IsSorted l [] s = s
  union_with-IsSorted l ((k, w) ∷ r) s =
      let v = joined f (get k l) w in union_with-IsSorted (insert k v l) r (insert-IsSorted k v l s)

  pub get-union_with :
      (j : K) (l r : Map K V)
      → IsSorted r
      → get j (union_with f l r) ≡ join_option f (get j l) (get j r)
  unfolding union_with get
  get-union_with j l [] s = ground arith
  get-union_with j l ((k, w) ∷ r) s =
      let v = joined f (get k l) w in
      get-union_with j (insert k v l) r s.1
      ∙ ground (arith, get-insert k j v l, get_of_Above k r s.0, o.eq_of_cmp j k)

module _ {V : Type 0} (P : V → Type 0) where
  -- The value is absent, or it meets `P`.
  abbrev IfSome : Option V → Type 0
  IfSome none = Unit {0}
  IfSome (some v) = P v

module _ {V : Type 0} (P : V → Type 0) (f : V → V → V) (lat : Semilattice P f) where
  joined-P : (a : Option V) (w : V) → IfSome P a → P w → P (joined f a w)
  joined-P none w q p = p
  joined-P (some v) w q p = lat.closed v w q p

  join_comm : (a b : Option V) → IfSome P a → IfSome P b → join_option f a b ≡ join_option f b a
  join_comm none none p q = refl
  join_comm none (some w) p q = refl
  join_comm (some v) none p q = refl
  join_comm (some v) (some w) p q = ap some (lat.comm v w p q)

  join_assoc :
      (a b c : Option V)
      → IfSome P a
      → IfSome P b
      → IfSome P c
      → join_option f (join_option f a b) c ≡ join_option f a (join_option f b c)
  join_assoc none b c p q t = refl
  join_assoc (some u) none c p q t = refl
  join_assoc (some u) (some v) none p q t = refl
  join_assoc (some u) (some v) (some w) p q t = ap some (lat.assoc u v w p q t)

  join_idem : (a : Option V) → IfSome P a → join_option f a a ≡ a
  join_idem none p = refl
  join_idem (some v) p = ap some (lat.idem v p)

module _ {K V : Type 0} ⦃o : Ord K⦄ (P : V → Type 0) where
  -- Every value of the map meets `P`.
  abbrev pub Values : Map K V → Type 0
  Values [] = Unit {0}
  Values ((k, v) ∷ m) = P v × Values m

  Values-get : (k : K) (m : Map K V) → Values m → IfSome P (get k m)
  unfolding get
  Values-get k [] all = tt
  Values-get k ((j, w) ∷ m) all = step (o.cmp k j) all.0 (Values-get k m all.1)
    where
      step :
          (c : Ordering)
          → P w
          → IfSome P (get k m)
          → IfSome P (elim c [ Ordering.eq ↦ some w | _ ↦ get k m ])
      step Ordering.lt p q = q
      step Ordering.eq p q = p
      step Ordering.gt p q = q

  insert-Values : (k : K) (v : V) (m : Map K V) → P v → Values m → Values (insert k v m)
  unfolding insert
  insert-Values k v [] p all = (p, tt)
  insert-Values k v ((j, w) ∷ m) p all = ground (arith, insert-Values k v m p all.1)

  module _ (f : V → V → V) (lat : Semilattice P f) where
    union_with-Values : (l r : Map K V) → Values l → Values r → Values (union_with f l r)
    unfolding union_with
    union_with-Values l [] a b = a
    union_with-Values l ((k, w) ∷ r) a b =
        let v = joined f (get k l) w in
        union_with-Values (insert k v l) r
          (insert-Values k v l (joined-P P f lat (get k l) w (Values-get k l a) b.0) a) b.1

  abbrev pub IsMap : Map K V → Type 0
  IsMap m = IsSorted m × Values m

  -- Maps with values of a semilattice are one under the union.
  pub union_with-Semilattice : (f : V → V → V) → Semilattice P f → Semilattice IsMap (union_with f)
  union_with-Semilattice f lat = record {
    closed = λ a b p q. (union_with-IsSorted f a b p.0, union_with-Values f lat a b p.1 q.1);
    comm = λ a b p q.
        Map_ext (union_with f a b) (union_with f b a) (union_with-IsSorted f a b p.0)
          (union_with-IsSorted f b a q.0)
          (λ k.
            get-union_with f k a b q.0
            ∙ join_comm P f lat (get k a) (get k b) (Values-get k a p.1) (Values-get k b q.1)
            ∙ sym (get-union_with f k b a p.0));
    assoc = λ a b c p q t.
        Map_ext (union_with f (union_with f a b) c) (union_with f a (union_with f b c))
          (union_with-IsSorted f (union_with f a b) c (union_with-IsSorted f a b p.0))
          (union_with-IsSorted f a (union_with f b c) p.0)
          (λ k.
            get-union_with f k (union_with f a b) c t.0
            ∙ ap (λ (v : Option V). join_option f v (get k c)) (get-union_with f k a b q.0)
            ∙ join_assoc P f lat (get k a) (get k b) (get k c) (Values-get k a p.1)
                (Values-get k b q.1) (Values-get k c t.1)
            ∙ ap (join_option f (get k a)) (sym (get-union_with f k b c t.0))
            ∙ sym (get-union_with f k a (union_with f b c) (union_with-IsSorted f b c q.0)));
    idem = λ a p.
        Map_ext (union_with f a a) a (union_with-IsSorted f a a p.0) p.0
          (λ k. get-union_with f k a a p.0 ∙ join_idem P f lat (get k a) (Values-get k a p.1));
  }
