-- ===== src/Prelude/Outcome.antt =====
-- Rust's `Result<A, E>`, with `?` as the bind of a `do` block.
use mathlib.Core.Path.{◌≡◌, refl}
use mathlib.Core.Bool.{Bool, true, false}

pub data Result {ℓ κ} (A : Type ℓ) (E : Type κ) : Type (ℓ ⊔ κ) where
  ok : A → Result A E
  err : E → Result A E

infixl 5 ◌>>=◌ ◌>>◌
abbrev pub ◌>>=◌ {ℓ κ υ} :
    {A : Type ℓ} {B : Type κ} {E : Type υ} → Result A E → (A → Result B E) → Result B E
err failure >>= next = err failure
ok value >>= next = next value

abbrev pub ◌>>◌ {κ υ} : {B : Type κ} {E : Type υ} → Result (Unit {0}) E → Result B E → Result B E
first >> second = first >>= λ _. second

-- `if !b { return Err(e) }`
abbrev pub require {υ} : {E : Type υ} → Bool → E → Result (Unit {0}) E
require false failure = err failure
require true failure = ok tt

module _ {ℓ κ} {A : Type ℓ} {E : Type κ} where
  -- To split on an outcome and keep the equation.
  pub data Split (r : Result A E) : Type (ℓ ⊔ κ) where
    returned : (a : A) → r ≡ ok a → Split r
    raised : (e : E) → r ≡ err e → Split r

  pub Result-cases : (r : Result A E) → Split r
  Result-cases (ok a) = returned a refl
  Result-cases (err e) = raised e refl
