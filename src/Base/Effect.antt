-- ===== src/Base/Effect.antt =====
-- A service method reads and changes a state and returns a value or throws. What it wrote before
-- a throw stays written.
use mathlib.Core.Path.{◌≡◌, refl}
use mathlib.Core.Logic.{◌⊎◌, inl, inr}
use mathlib.Core.Bool.{Bool, true, false}
use mathlib.Core.Option.{Option, none, some}

-- `E` is the type of what the method throws.
pub data Outcome (E A : Type 0) : Type 0 where
  returns : A → Outcome E A
  throws : E → Outcome E A

pub Outcome-cases :
    {E A : Type 0} → (r : Outcome E A) → ((a : A) × (r ≡ returns a)) ⊎ ((e : E) × (r ≡ throws e))
Outcome-cases (returns a) = inl (a, refl)
Outcome-cases (throws e) = inr (e, refl)

abbrev pub Method : Type 0 → Type 0 → Type 0 → Type 0
Method S E A = S → Outcome E A × S

module _ {S E A : Type 0} where
  abbrev pub return : A → Method S E A
  return a s = (returns a, s)

  abbrev pub throw : E → Method S E A
  throw e s = (throws e, s)

  abbrev pub gets : (S → A) → Method S E A
  gets f s = (returns (f s), s)

  -- A call of code that throws or returns, and leaves the state alone.
  abbrev pub lift : Outcome E A → Method S E A
  lift r s = (r, s)

  -- The value of a query, or a throw where it found nothing.
  abbrev pub or_throw : Option A → E → Method S E A
  or_throw none e = throw e
  or_throw (some a) e = return a

module _ {S E : Type 0} where
  abbrev pub modify : (S → S) → Method S E (Unit {0})
  modify f s = (returns tt, f s)

  abbrev pub throw_if : Bool → E → Method S E (Unit {0})
  throw_if true e = throw e
  throw_if false e = return tt

infixl 5 ◌>>=◌ ◌>>◌
abbrev pub ◌>>=◌ : {S E A B : Type 0} → Method S E A → (A → Method S E B) → Method S E B
◌>>=◌ m f s = let (r, s') = m s in elim r [ returns a ↦ f a s' | throws e ↦ (throws e, s') ]

abbrev pub ◌>>◌ : {S E A B : Type 0} → Method S E A → Method S E B → Method S E B
m >> k = m >>= λ _. k

-- The method does this, or nothing.
abbrev pub when : {S E : Type 0} → Bool → Method S E (Unit {0}) → Method S E (Unit {0})
when true m s = m s
when false m s = (returns tt, s)
