-- ===== src/Prelude/Stateful.antt =====
-- A method of `&mut self` that may fail: it gives the state that it leaves, also where it fails.
use grumpydb.Prelude.Outcome.{Result, ok, err}

abbrev pub Method : Type 0 → Type 0 → Type 0 → Type 0
Method S E A = S → S × Result A E

module _ {S E : Type 0} where
  -- `?` and `;`
  infixl 5 ◌>>=◌ ◌>>◌
  abbrev pub ◌>>=◌ : {A B : Type 0} → Method S E A → (A → Method S E B) → Method S E B
  ◌>>=◌ m f s = elim (m s).1 [ ok a ↦ f a (m s).0 | err e ↦ ((m s).0, err e) ]

  abbrev pub ◌>>◌ : {B : Type 0} → Method S E (Unit {0}) → Method S E B → Method S E B
  m >> k = m >>= λ _. k

  -- `Ok(a)`
  abbrev pub return : {A : Type 0} → A → Method S E A
  return a s = (s, ok a)

  -- A part that does not change the state.
  abbrev pub reads : {A : Type 0} → (S → Result A E) → Method S E A
  reads f s = (s, f s)
