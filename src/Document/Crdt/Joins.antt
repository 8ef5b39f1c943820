-- ===== src/Document/Crdt/Joins.antt =====
-- What src/document/crdt.rs joins, for each kind of payload: semilattices.
use grumpydb.Prelude.{ℕ, ◌^◌, ◌<◌, refl, arith, max}
use grumpydb.Prelude.Order.{bytes_ord}
use grumpydb.Prelude.Map.Union.{Semilattice, IsMap, union_with-Semilattice}
use grumpydb.Document.Crdt.{
  TextSet, LwwSetPayload, OrSetPayload, MvrPayload, both_present, union, merge_max_u64_maps,
  merge_set_maps, join_lww, join_or, join_mvr,
}

abbrev pub IsU64 : ℕ → Type 0
IsU64 n = n < 2 ^ 64

abbrev pub Any : Unit {0} → Type 0
Any a = Unit {0}

abbrev pub IsTextSet : TextSet → Type 0
IsTextSet s = IsMap Any s

pub max-Semilattice : Semilattice IsU64 max
max-Semilattice = record {
  closed = λ a b p q. omega arith;
  comm = λ a b p q. omega arith;
  assoc = λ a b c p q t. omega arith;
  idem = λ a p. omega arith;
}

unit-Semilattice : Semilattice Any both_present
unit-Semilattice = record {
  closed = λ a b p q. tt;
  comm = λ a b p q. refl;
  assoc = λ a b c p q t. refl;
  idem = λ a p. refl;
}

union-Semilattice : Semilattice IsTextSet union
unfolding union
union-Semilattice = union_with-Semilattice Any both_present unit-Semilattice

max_maps-Semilattice : Semilattice (IsMap IsU64) merge_max_u64_maps
unfolding merge_max_u64_maps
max_maps-Semilattice = union_with-Semilattice IsU64 max max-Semilattice

set_maps-Semilattice : Semilattice (IsMap IsTextSet) merge_set_maps
unfolding merge_set_maps
set_maps-Semilattice = union_with-Semilattice IsTextSet union union-Semilattice

-- The maps and sets of a payload are sorted, and its numbers are `u64`.
abbrev pub IsLwwSet : LwwSetPayload → Type 0
IsLwwSet p = IsMap IsU64 p.adds × IsMap IsU64 p.rems

abbrev pub IsOrSet : OrSetPayload → Type 0
IsOrSet p = IsMap IsTextSet p.adds × IsMap IsTextSet p.rems

abbrev pub IsMvr : MvrPayload → Type 0
IsMvr p = IsTextSet p.values

pub join_lww-Semilattice : Semilattice IsLwwSet join_lww
unfolding join_lww
join_lww-Semilattice =
    let m = max_maps-Semilattice in
    record {
      closed = λ a b p q. (m.closed a.adds b.adds p.0 q.0, m.closed a.rems b.rems p.1 q.1);
      comm = λ a b p q. cc (m.comm a.adds b.adds p.0 q.0, m.comm a.rems b.rems p.1 q.1);
      assoc = λ a b c p q t.
          cc (m.assoc a.adds b.adds c.adds p.0 q.0 t.0, m.assoc a.rems b.rems c.rems p.1 q.1 t.1);
      idem = λ a p. cc (m.idem a.adds p.0, m.idem a.rems p.1);
    }

pub join_or-Semilattice : Semilattice IsOrSet join_or
unfolding join_or
join_or-Semilattice =
    let m = set_maps-Semilattice in
    record {
      closed = λ a b p q. (m.closed a.adds b.adds p.0 q.0, m.closed a.rems b.rems p.1 q.1);
      comm = λ a b p q. cc (m.comm a.adds b.adds p.0 q.0, m.comm a.rems b.rems p.1 q.1);
      assoc = λ a b c p q t.
          cc (m.assoc a.adds b.adds c.adds p.0 q.0 t.0, m.assoc a.rems b.rems c.rems p.1 q.1 t.1);
      idem = λ a p. cc (m.idem a.adds p.0, m.idem a.rems p.1);
    }

pub join_mvr-Semilattice : Semilattice IsMvr join_mvr
unfolding join_mvr
join_mvr-Semilattice =
    let m = union-Semilattice in
    record {
      closed = λ a b p q. m.closed a.values b.values p q;
      comm = λ a b p q. cc (m.comm a.values b.values p q);
      assoc = λ a b c p q t. cc (m.assoc a.values b.values c.values p q t);
      idem = λ a p. cc (m.idem a.values p);
    }

abbrev pub IsPair : ℕ × ℕ → Type 0
IsPair p = IsU64 p.0 × IsU64 p.1

abbrev pub join_pair : ℕ × ℕ → ℕ × ℕ → ℕ × ℕ
join_pair a b = (max a.0 b.0, max a.1 b.1)

pub join_pair-Semilattice : Semilattice IsPair join_pair
join_pair-Semilattice =
    let m = max-Semilattice in
    record {
      closed = λ a b p q. (m.closed a.0 b.0 p.0 q.0, m.closed a.1 b.1 p.1 q.1);
      comm = λ a b p q. cc (m.comm a.0 b.0 p.0 q.0, m.comm a.1 b.1 p.1 q.1);
      assoc = λ a b c p q t. cc (m.assoc a.0 b.0 c.0 p.0 q.0 t.0, m.assoc a.1 b.1 c.1 p.1 q.1 t.1);
      idem = λ a p. cc (m.idem a.0 p.0, m.idem a.1 p.1);
    }
