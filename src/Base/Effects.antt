-- ===== src/Base/Effects.antt =====
-- Asynchronous functions that change the state of a service and may throw. What was written before
-- a throw stays written: the services open no transaction.
use Prim.Native.Nat.{ℕ}
use Prim.Native.String.{String}
use mathlib.Core.Bool.{Bool, true, false}

-- What a handler can throw: an `AppError` with its status and message, a `ZodError`, or any other
-- error (a refused SQL statement, a broken connection).
pub data Failure : Type 0 where
  app_error : (status_code : ℕ) (message : String) → Failure
  zod_error : Failure
  other_error : Failure

pub data Run {ℓ} (S A : Type ℓ) : Type ℓ where
  done : A → S → Run S A
  thrown : Failure → S → Run S A

abbrev pub Exec {ℓ} : Type ℓ → Type ℓ → Type ℓ
Exec S A = S → Run S A

module _ {ℓ} {S A : Type ℓ} where
  unfoldable pub return : A → Exec S A
  return a s = done a s

  unfoldable pub throw : Failure → Exec S A
  throw e s = thrown e s

  abbrev pub final : Run S A → S
  final (done a s) = s
  final (thrown e s) = s

  unfoldable pub gets : (S → A) → Exec S A
  gets f s = done (f s) s

-- `if (!b) throw e`
unfoldable pub require {ℓ} : {S : Type ℓ} → Bool → Failure → Exec S (Unit {ℓ})
require true e s = done tt s
require false e s = thrown e s

-- A statement that only changes the state.
unfoldable pub modify {ℓ} : {S : Type ℓ} → (S → S) → Exec S (Unit {ℓ})
modify f s = done tt (f s)

-- `await` of a first step, and the rest of the function with its value. To open this is to open all
-- of the above.
infixl 5 ◌>>=◌
unfoldable pub ◌>>=◌ {ℓ} :
    {State Value Next : Type ℓ} → Exec State Value → (Value → Exec State Next) → Exec State Next
unfolding require modify return throw gets
◌>>=◌ first rest s = elim (first s) [ done v s' ↦ rest v s' | thrown e s' ↦ thrown e s' ]

infixl 5 ◌>>◌
abbrev pub ◌>>◌ {ℓ} :
    {State Value Next : Type ℓ} → Exec State Value → Exec State Next → Exec State Next
first >> next = first >>= λ _. next
