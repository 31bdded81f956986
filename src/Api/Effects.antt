-- ===== src/Api/Effects.antt =====
-- Go functions that return an error, and methods that return one and change the receiver's state.
-- A method's state comes back after an error too: what was written before it stays written.
use sockchat.Prelude.{Bool, if◌then◌else◌}
use sockchat.Api.Errors.{Error}

pub data Result (A : Type 0) : Type 0 where
  ok : A → Result A
  err : Error → Result A

-- What a call comes to that may panic.
pub data Attempt (A : Type 0) : Type 0 where
  completes : A → Attempt A
  aborts : Attempt A

-- `if err != nil { return nil, e }`
abbrev pub or_return : {A : Type 0} → Result A → Error → Result A
or_return (ok a) e = ok a
or_return (err _) e = err e

abbrev pub Action : Type 0 → Type 0 → Type 0
Action S A = S → Result A × S

module _ {S : Type 0} where
  abbrev pub pure : {A : Type 0} → A → Action S A
  pure a s = (ok a, s)

  abbrev pub raise : {A : Type 0} → Error → Action S A
  raise e s = (err e, s)

  abbrev lift : {A : Type 0} → Result A → Action S A
  lift r s = (r, s)

  abbrev pub modify : (S → S) → Action S (Unit {0})
  modify f s = (ok tt, f s)

  abbrev pub gets : {A : Type 0} → (S → A) → Action S A
  gets f s = (ok (f s), s)

  -- `if test { return e }`
  abbrev pub return_if : Bool → Error → Action S (Unit {0})
  return_if test e s = (if test then err e else ok tt, s)

infixl 5 ◌>>=◌ ◌>>◌
abbrev pub ◌>>=◌ : {S A B : Type 0} → Action S A → (A → Action S B) → Action S B
◌>>=◌ m f s = let (r, s') = m s in elim r [ ok a ↦ f a s' | err e ↦ (err e, s') ]

abbrev pub ◌>>◌ : {S A B : Type 0} → Action S A → Action S B → Action S B
m >> k = m >>= λ _. k

-- `_, err := m` whose error is looked at by the caller.
abbrev pub handle : {S A B : Type 0} → Action S A → (Result A → Action S B) → Action S B
handle m f s = let (r, s') = m s in f r s'
