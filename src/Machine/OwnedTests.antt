-- ===== src/Machine/OwnedTests.antt =====
-- A promise with a continuation of its future, which a value then calls.
use portable_concurrency.Prelude.{
  ℕ, suc, ◌+◌, ◌≡◌, refl, none, some, List, [], ◌∷◌, arith, ℕ_discrete,
}
use portable_concurrency.Store.{
  dangling, Job, Store, plain, inplace, deliver, Result, ok, err, Outcome, returns, throws,
}
use portable_concurrency.Owners.{make_shared, lock}
use portable_concurrency.SharedState.{push, emplace, satisfy, execute}
use portable_concurrency.Promise.{awaited, get_state}
use portable_concurrency.Promise
use portable_concurrency.Then.{attach_then, make_then_state, schedule_weak, set_state_value}
use portable_concurrency.Machine.{step, perform, invoke}
use portable_concurrency.Machine.Chain.{function}
use portable_concurrency.Machine.System.{init, make_promise, set_value, then_}
use portable_concurrency.Machine.Owned.{waiting_refs}
use portable_concurrency.Machine.Owned.Refs.{pointer, owners, refs}
use portable_concurrency.Machine.Owned.Runs.{Pointers, Run, begun, went_on, returned, answer}

abbrev next_number : Result ℕ → Outcome ℕ
next_number (ok n) = returns (suc n)
next_number (err e) = throws e

abbrev promised : Store ℕ
promised = (answer (make_promise plain) init).1

abbrev attached : Store ℕ
attached = (answer (then_ (some 0) inplace (function next_number)) promised).1

abbrev fulfilled : Store ℕ
fulfilled = (answer (set_value (awaited 0) 7) attached).1

-- The continuation is scheduled: its state has the pointer that `lock` has given.
abbrev scheduled : Store ℕ
scheduled = (step fulfilled).1

-- The client holds the future, and then that of the continuation.
abbrev holds_first : Pointers
holds_first v = 0 + pointer v 0 + 0

abbrev holds_second : Pointers
holds_second v = pointer v 1 + 0

promised-Run : Run holds_first promised []
unfolding answer Promise.make_promise make_shared
promised-Run = returned (make_promise plain) (λ v. 0) (λ v. 0 + pointer v 0) begun (λ v. refl) refl

attached-Run : Run holds_second attached []
unfolding promised-Run attach_then make_then_state push ℕ_discrete
attached-Run =
    returned (then_ (some 0) inplace (function next_number)) (λ v. 0) (λ v. pointer v 1)
      promised-Run (λ v. omega arith) refl

fulfilled-Run : Run (λ v. 0 + holds_second v) fulfilled []
unfolding attached-Run Promise.set_value get_state emplace satisfy execute lock
fulfilled-Run =
    returned (set_value (awaited 0) 7) holds_second (λ v. 0) attached-Run (λ v. omega arith) refl

scheduled-Run : Run (λ v. 0 + holds_second v) scheduled []
unfolding fulfilled-Run step perform invoke schedule_weak
scheduled-Run = went_on fulfilled-Run refl

-- Another thread begins.
abbrev idle : Store ℕ
idle = record scheduled { jobs = [] }

abbrev waits : List (List (Job ℕ))
waits = scheduled.jobs ∷ []

-- Of the two owners, one is the client, and one the job that releases the pointer.
two_owners : (owners 1 idle ≡ 2) × (refs 1 idle ≡ 0) × (waiting_refs 1 waits ≡ 1)
unfolding scheduled-Run
two_owners = (refl, refl, refl)

-- The pointer of the call is released, the function is called, and the parent's pointer is released:
-- now its result is delivered.
abbrev delivering : Store ℕ
delivering = (step (step (step scheduled).1).1).1

-- Without the pointers that a job has, the delivery would be to a state that is gone.
unowned_dangling :
    (step {V = ℕ} (record init { jobs = deliver 1 (returns 8) none ∷ [] })).0 ≡ dangling 1
unfolding step perform set_state_value emplace satisfy
unowned_dangling = refl
