-- ===== src/Effects.antt =====
-- Asynchronous methods that change shared state and may throw. What was written before a throw
-- stays written, so the state comes back beside the failure too.
use recipe_import_from_anyth.Base.{ℕ, String, Option, none, some}

-- `new Error(message)`, BullMQ's `new UnrecoverableError(message)`, and
-- `new ApiError(httpStatus, code)`
pub data Failure : Type 0 where
  error : String → Failure
  unrecoverable : String → Failure
  api_error : ℕ → String → Failure

pub data Outcome {ℓ} (A : Type ℓ) : Type ℓ where
  ok : A → Outcome A
  thrown : Failure → Outcome A

abbrev pub Exec : Type 0 → Type 0 → Type 0
Exec S A = S → Outcome A × S

module _ {S A : Type 0} where
  abbrev pub pure : A → Exec S A
  pure a s = (ok a, s)

  abbrev pub throw : Failure → Exec S A
  throw f s = (thrown f, s)

  abbrev pub gets : (S → A) → Exec S A
  gets f s = (ok (f s), s)

  -- an operation that throws `f` where it has no result
  abbrev pub or_throw : Failure → Option A → Exec S A
  or_throw f none s = (thrown f, s)
  or_throw f (some a) s = (ok a, s)

abbrev pub modify : {S : Type 0} → (S → S) → Exec S (Unit {0})
modify f s = (ok tt, f s)

module _ {S A B : Type 0} where
  abbrev pub continue : (A → Exec S B) → Outcome A × S → Outcome B × S
  continue f (ok a, s) = f a s
  continue f (thrown e, s) = (thrown e, s)

  infixl 5 ◌>>=◌
  abbrev pub ◌>>=◌ : Exec S A → (A → Exec S B) → Exec S B
  ◌>>=◌ m f s = continue f (m s)

infixl 5 ◌>>◌
abbrev pub ◌>>◌ : {S B : Type 0} → Exec S (Unit {0}) → Exec S B → Exec S B
m >> n = m >>= λ _. n
