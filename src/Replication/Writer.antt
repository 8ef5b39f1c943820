-- ===== src/Replication/Writer.antt =====
-- `WriterAssignment` of grumpydb-replication/src/writer_control.rs: which node may write to a
-- collection. The hash maps are maps from the bytes of their keys.
use grumpydb.Prelude.{
  ◌≡◌, ◌≢◌, ◌↔◌, ◌⊎◌, refl, arith, ◌&&◌, Option, none, some, [], ◌∷◌, ◌++◌, Result, ok, err,
  if◌then◌else◌, All,
}
use grumpydb.Prelude.Bytes.{Bytes}
use grumpydb.Prelude.Order.{cmp_bytes, bytes_ord, bytes_eq, bytes_refl}
use grumpydb.Prelude.Map
use grumpydb.Prelude.Map.{Map, insert, is_eq, get-insert}

pub record WriterNotAllowed : Type 0 where
  pub database : Bytes
  pub collection : Bytes
  pub current_writer : Bytes

pub record WriterAssignment : Type 0 where
  pub exact : Map Bytes Bytes
  pub defaults : Map Bytes Bytes

abbrev pub empty : WriterAssignment
empty = record { exact = []; defaults = [] }

-- `format!("{db}/{coll}")`
unfoldable pub exact_key : Bytes → Bytes → Bytes
exact_key db coll = db ++ (47 ∷ coll)

unfoldable pub set_collection : Bytes → Bytes → Bytes → WriterAssignment → WriterAssignment
set_collection db coll node a = record a { exact = insert (exact_key db coll) node a.exact }

unfoldable pub set_database_default : Bytes → Bytes → WriterAssignment → WriterAssignment
set_database_default db node a = record a { defaults = insert db node a.defaults }

unfoldable pub lookup : WriterAssignment → Bytes → Bytes → Option Bytes
lookup a db coll = elim (Map.get (exact_key db coll) a.exact) [
  | some writer ↦ some writer
  | none ↦ Map.get db a.defaults
]

-- the match on the looked-up writer
unfoldable pub judge : Bytes → Bytes → Bytes → Option Bytes → Result (Unit {0}) WriterNotAllowed
judge node db coll none = ok tt
judge node db coll (some expected) =
    if is_eq (cmp_bytes node expected)
    then ok tt
    else err (record { database = db; collection = coll; current_writer = expected })

unfoldable pub check_writer :
    WriterAssignment → Bytes → Bytes → Bytes → Result (Unit {0}) WriterNotAllowed
unfolding judge
check_writer a node db coll = judge node db coll (lookup a db coll)

unfoldable pub elect : Bytes → Bytes → Option Bytes → WriterAssignment → WriterAssignment
unfolding set_collection set_database_default
elect node db none a = set_database_default db node a
elect node db (some coll) a = set_collection db coll node a

abbrev NoSlash : Bytes → Type 0
NoSlash = All (λ b. b ≢ 47)

-- The text of the two names tells them apart where the database's name has no slash.
exact_key-injective :
    (d e c b : Bytes) → NoSlash d → NoSlash e → exact_key d c ≡ exact_key e b → (d ≡ e) × (c ≡ b)
unfolding exact_key
exact_key-injective [] [] c b f g h = let same : c ≡ b = cc in (refl, same)
exact_key-injective [] (y ∷ e) c b f g h = absurd (ground (arith, g.0))
exact_key-injective (x ∷ d) [] c b f g h = absurd (ground (arith, f.0))
exact_key-injective (x ∷ d) (y ∷ e) c b f g h =
    let tails : d ++ (47 ∷ c) ≡ e ++ (47 ∷ b) = cc in
    let head : x ≡ y = cc in
    let (same, coll) = exact_key-injective d e c b f.1 g.1 tails in
    let whole : x ∷ d ≡ y ∷ e = cc in (whole, coll)

judge-ok :
    (node db coll : Bytes) (w : Option Bytes)
    → (judge node db coll w ≡ ok tt) ↔ ((w ≡ none) ⊎ (w ≡ some node))
unfolding judge
judge-ok node db coll none = ground arith
judge-ok node db coll (some w) = ground (arith, bytes_eq node w, bytes_refl w)

-- `check_writer` accepts a node exactly when no writer is assigned or the node is the writer.
check_writer-ok :
    (a : WriterAssignment) (node db coll : Bytes)
    → (check_writer a node db coll ≡ ok tt)
      ↔ ((lookup a db coll ≡ none) ⊎ (lookup a db coll ≡ some node))
unfolding check_writer
check_writer-ok a node db coll = judge-ok node db coll (lookup a db coll)

-- After an election for a collection exactly the elected node may write to it, whatever was assigned
-- before, and every other collection, of any database, keeps its writer. The names of the databases
-- have no slash.
pub elect-check_writer :
    (a : WriterAssignment) (node db coll d c m : Bytes)
    → NoSlash db
    → NoSlash d
    → ((check_writer (elect node db (some coll) a) m db coll ≡ ok tt) ↔ (m ≡ node))
      × (lookup (elect node db (some coll) a) d c ≡ (
          if is_eq (cmp_bytes d db) && is_eq (cmp_bytes c coll) then some node else lookup a d c))
unfolding elect set_collection lookup
elect-check_writer a node db coll d c m f g =
    let key = exact_key db coll in
    let other = exact_key d c in
    (
      ground (
        arith,
        check_writer-ok (elect node db (some coll) a) m db coll,
        get-insert key key node a.exact,
        bytes_refl key,
      ),
      ground (
        arith,
        get-insert key other node a.exact,
        exact_key-injective d db c coll g f,
        bytes_eq other key,
        bytes_eq d db,
        bytes_eq c coll,
        bytes_refl db,
        bytes_refl coll,
        bytes_refl key,
      ),
    )

-- After an election for a database, a collection of it without a writer of its own has the elected
-- node, and every other collection keeps its writer.
pub lookup-elect_database :
    (a : WriterAssignment) (node db d c : Bytes)
    → lookup (elect node db none a) d c ≡ elim (Map.get (exact_key d c) a.exact) [
      | some writer ↦ some writer
      | none ↦ if is_eq (cmp_bytes d db) then some node else lookup a d c
    ]
unfolding elect set_database_default lookup
lookup-elect_database a node db d c = ground (arith, get-insert db d node a.defaults)
