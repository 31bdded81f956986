-- ===== src/Webserver/Startup.antt =====
-- webserver/: what a start of the server does to the machine that it runs on. A call of `log.Fatalf`
-- exits the process, and a failed type assertion or a call of `panic` panics.
pub mod Laws
use sockchat.Prelude.{
  ℕ, String, Bool, true, false, Option, none, some, List, [], ◌∷◌, ◌++◌, ◌==◌, if◌then◌else◌,
  string_key,
}
use sockchat.Api.Json.{Json, null, obj, int, fraction, str, Fields, end, field}
use sockchat.Api.Maps.{entry}

-- What is printed: a format, with those of its arguments that are no errors.
pub data Argument : Type 0 where
  text : String → Argument
  value : Json → Argument

pub record Line : Type 0 where
  pub format : String
  arguments : List Argument

-- The database, the Redis servers and Elasticsearch, and what has been printed, the latest line last.
pub record Machine (D C E : Type 0) : Type 0 where
  pub database : D
  pub caches : C
  pub search : E
  pub printed : List Line

pub data Progress (A : Type 0) : Type 0 where
  done : A → Progress A
  exits : String → Progress A
  panics : Progress A

abbrev pub Startup : Type 0 → Type 0 → Type 0 → Type 0 → Type 0
Startup D C E A = Machine D C E → Progress A × Machine D C E

module _ {D C E : Type 0} where
  -- Nothing follows an exit or a panic.
  abbrev pub and_then :
      {A B : Type 0}
      → (A → Startup D C E B)
      → Progress A × Machine D C E
      → Progress B × Machine D C E
  and_then f (done a, w) = f a w
  and_then f (exits e, w) = (exits e, w)
  and_then f (panics, w) = (panics, w)

  infixl 5 ◌>>=◌ ◌>>◌
  abbrev pub ◌>>=◌ : {A B : Type 0} → Startup D C E A → (A → Startup D C E B) → Startup D C E B
  ◌>>=◌ m f w = and_then f (m w)

  abbrev pub ◌>>◌ : {A B : Type 0} → Startup D C E A → Startup D C E B → Startup D C E B
  m >> k = m >>= λ _. k

  abbrev pub returns : {A : Type 0} → A → Startup D C E A
  returns a w = (done a, w)

  -- `log.Fatalf`
  abbrev pub fatal : {A : Type 0} → String → Startup D C E A
  fatal format w = (exits format, w)

  abbrev pub panic : {A : Type 0} → Startup D C E A
  panic w = (panics, w)

  abbrev pub print : String → List Argument → Startup D C E (Unit {0})
  print format arguments w = (
    done tt,
    record w { printed = w.printed ++ record { format = format; arguments = arguments } ∷ [] },
  )

  -- `if err != nil { log.Fatalf(format, err) }`
  abbrev pub or_exit : {A : Type 0} → String → Option A → Startup D C E A
  or_exit format none = fatal format
  or_exit format (some a) = returns a

  abbrev pub exit_unless : String → Bool → Startup D C E (Unit {0})
  exit_unless format test = if test then returns tt else fatal format

  -- `if err != nil { panic(err) }`, and a type assertion.
  abbrev pub or_panic : {A : Type 0} → Option A → Startup D C E A
  or_panic none = panic
  or_panic (some a) = returns a

-- `r[key].(float64)`; the number stays as it is written.
abbrev as_number : Option Json → Option Json
as_number (some (int n)) = some (int n)
as_number (some (fraction t)) = some (fraction t)
as_number _ = none

unfoldable pub number_at : String → Fields → Option Json
unfolding entry
number_at key r = as_number (entry key r none)

-- `r[key]` that is printed.
unfoldable pub printed_at : String → Fields → Argument
unfolding entry
printed_at key r = value (elim (entry key r none) [ none ↦ null | some json ↦ json ])
