-- ===== src/Store/Monad.antt =====
-- Errors, results, and code that reads and writes a state, may throw, or may be undefined.
use portable_concurrency.Prelude.{ℕ}

-- What an `exception_ptr` holds: an error of this library, or an exception of the user's.
pub data Error : Type 0 where
  broken_promise no_state promise_already_satisfied future_already_retrieved logic_error : Error
  user : ℕ → Error

pub data Result {ℓ} (A : Type ℓ) : Type ℓ where
  ok : A → Result A
  err : Error → Result A

-- How a piece of code ends. `undefined` stands for a failed `assert`, and in code without a
-- store of states for the use of an object that is gone; `dangling` is that of a state.
pub data Ends {ℓ} (A : Type ℓ) : Type ℓ where
  done : A → Ends A
  thrown : Error → Ends A
  undefined : Ends A
  dangling : ℕ → Ends A

-- The state is kept where the code throws.
abbrev pub Code : Type 0 → Type 0 → Type 0
Code S A = S → Ends A × S

module _ {S : Type 0} where
  abbrev pub pure : {A : Type 0} → A → Code S A
  pure a s = (done a, s)

  abbrev pub throw : {A : Type 0} → Error → Code S A
  throw e s = (thrown e, s)

  abbrev pub fault : {A : Type 0} → Code S A
  fault s = (undefined, s)

  abbrev pub and_then : {A B : Type 0} → Ends A × S → (A → Code S B) → Ends B × S
  and_then (done a, s) f = f a s
  and_then (thrown e, s) f = (thrown e, s)
  and_then (undefined, s) f = (undefined, s)
  and_then (dangling p, s) f = (dangling p, s)

infixl 5 ◌>>=◌ ◌>>◌
abbrev pub ◌>>=◌ : {S A B : Type 0} → Code S A → (A → Code S B) → Code S B
◌>>=◌ m f s = and_then (m s) f

abbrev pub ◌>>◌ : {S B : Type 0} → Code S (Unit {0}) → Code S B → Code S B
m >> k = m >>= λ _. k
