-- ===== src/Machine/Chain.antt =====
-- A promise, a continuation of its future, and what becomes of the result.
use portable_concurrency.Prelude.{
  ap, ◌∙◌, ℕ, ◌≡◌, Option, none, some, List, [], ◌∷◌, refl, ℕ_discrete,
}
use portable_concurrency.Store.{
  deliver, Job, Seen, applied, Code, pure, done, broken_promise, ◌>>=◌, ◌>>◌, Ends, Error, Result,
  ok, err, Store, plain, Function, Outcome, returns, throws, gives, inplace,
}
use portable_concurrency.Owners.{make_shared, share, lock, drop, drop_owner, cancel}
use portable_concurrency.SharedState.{
  push, execute, satisfy, emplace, set_exception, abandon, unwrap, outcome,
}
use portable_concurrency.Promise
use portable_concurrency.Promise.{Promise, get_state}
use portable_concurrency.Future.{Future}
use portable_concurrency.Future
use portable_concurrency.Then.{
  attach_then, attach_next, make_then_state, schedule_weak, run_weak, apply, set_state_value,
  clean_state,
}
use portable_concurrency.Machine.{invoke, discard, perform, step, run_jobs}
use portable_concurrency.Machine.System.{init}

-- More jobs than one promise and one continuation make.
abbrev pub fuel : ℕ
fuel = 20

-- What the user's code does to the promise, once a continuation is attached to its future.
pub data Fate (V : Type 0) : Type 0 where
  sets : V → Fate V
  fails : Error → Fate V
  drops : Fate V

module _ {V : Type 0} where
  abbrev pub meet : Promise → Fate V → Code (Store V) (Unit {0})
  meet r (sets v) = Promise.set_value r v
  meet r (fails e) = Promise.set_exception r e
  meet r drops = Promise.destroy r

  -- `make_promise`, and `next` on its future.
  abbrev pub make_next : Function V → Code (Store V) (Promise × Future)
  make_next f = do
    (r, p) ← Promise.make_promise plain
    q ← attach_next (some p) inplace f
    pure (r, q)

  abbrev pub make_then : Function V → Code (Store V) (Promise × Future)
  make_then f = do
    (r, p) ← Promise.make_promise plain
    q ← attach_then (some p) inplace f
    pure (r, q)

  -- A promise with a continuation, its fate, and what follows up to the call of the function, which
  -- is the third job.
  pub next_started : Function V → Fate V → Store V
  unfolding Promise.make_promise make_shared attach_next make_then_state push Promise.set_value
      Promise.set_exception Promise.destroy Promise.abandon abandon run_jobs step perform invoke
      discard schedule_weak run_weak apply set_state_value drop drop_owner lock share get_state
      emplace satisfy execute outcome set_exception unwrap clean_state cancel ℕ_discrete
  next_started f fate = ((make_next f >>= λ (r, q). meet r fate >> run_jobs 3) init).1

  pub then_started : Function V → Fate V → Store V
  unfolding next_started attach_then
  then_started f fate = ((make_then f >>= λ (r, q). meet r fate >> run_jobs 3) init).1

  -- The same with the future of the result destroyed before the promise meets its fate.
  pub next_dropped : Function V → Fate V → Ends (Unit {0}) × Store V
  unfolding next_started Future.destroy
  next_dropped f fate =
      (make_next f >>= λ (r, q). Future.destroy q >> run_jobs fuel >> meet r fate >> run_jobs fuel)
        init

  abbrev pub fate_result : Fate V → Result V
  fate_result (sets v) = ok v
  fate_result (fails e) = err e
  fate_result drops = err broken_promise

  -- What the future of the result holds, by what the function did, with no future of its own.
  abbrev pub outcome_result : Outcome V → Result V
  outcome_result (returns v) = ok v
  outcome_result (throws e) = err e
  outcome_result gives = err broken_promise

  abbrev pub next_result : (Result V → Outcome V) → Result V → Result V
  next_result g (ok v) = outcome_result (g (ok v))
  next_result g (err e) = err e

  -- The calls of the function of a `next`, by the result of the parent.
  abbrev pub called_on : Result V → List Seen
  called_on (ok v) = applied 1 ∷ []
  called_on (err e) = []

  abbrev pub function : (Result V → Outcome V) → Function V
  function g = record { body = g; captured = none }

  -- How the run ended, what is left to do, the result's future, and the calls of the function. The
  -- result's state is the second one that is made.
  abbrev pub summary :
      Ends (Unit {0}) × Store V → Ends (Unit {0}) × List (Job V) × Option (Result V) × List Seen
  summary (x, s) = (x, s.jobs, outcome 2 s 1, s.seen)

  -- The same list of jobs, with another outcome delivered.
  abbrev with_outcome : Outcome V → List (Job V) → List (Job V)
  with_outcome x [] = []
  with_outcome x (deliver w y o ∷ js) = deliver w x o ∷ js
  with_outcome x (j ∷ js) = j ∷ with_outcome x js

  abbrev resume : Store V → Outcome V → Ends (Unit {0}) × Store V
  resume s x = run_jobs fuel (record s { jobs = with_outcome x s.jobs })

  then_delivers :
      (g : Result V → Outcome V) (fate : Fate V)
      → (then_started (function g) fate).jobs
        ≡ with_outcome (g (fate_result fate)) (then_started (function g) fate).jobs
  unfolding then_started
  then_delivers g (sets v) = refl
  then_delivers g (fails e) = refl
  then_delivers g drops = refl

  then_ends :
      (g : Result V → Outcome V) (fate : Fate V) (x : Outcome V)
      → summary (resume (then_started (function g) fate) x)
        ≡ (done tt, [], some (outcome_result x), applied 1 ∷ [])
  unfolding then_started
  then_ends g (sets v) (returns w) = refl
  then_ends g (sets v) (throws w) = refl
  then_ends g (sets v) gives = refl
  then_ends g (fails f) (returns w) = refl
  then_ends g (fails f) (throws w) = refl
  then_ends g (fails f) gives = refl
  then_ends g drops (returns w) = refl
  then_ends g drops (throws w) = refl
  then_ends g drops gives = refl

  -- A function with no future captured that `then` attaches on the inplace executor is called once,
  -- on whatever becomes of the promise, a value, an exception or its destruction, which is a broken
  -- promise; its result is in the returned future, and nothing is left to do.
  pub then_calls :
      (g : Result V → Outcome V) (fate : Fate V)
      → summary (run_jobs fuel (then_started (function g) fate))
        ≡ (done tt, [], some (outcome_result (g (fate_result fate))), applied 1 ∷ [])
  then_calls g fate =
      let s = then_started (function g) fate in
      ap (λ js. summary (run_jobs fuel (record s { jobs = js }))) (then_delivers g fate)
      ∙ then_ends g fate (g (fate_result fate))

  next_delivers :
      (g : Result V → Outcome V) (fate : Fate V)
      → (next_started (function g) fate).jobs
        ≡ with_outcome (g (fate_result fate)) (next_started (function g) fate).jobs
  unfolding next_started
  next_delivers g (sets v) = refl
  next_delivers g (fails e) = refl
  next_delivers g drops = refl

  next_ends :
      (g : Result V → Outcome V) (v : V) (x : Outcome V)
      → summary (resume (next_started (function g) (sets v)) x)
        ≡ (done tt, [], some (outcome_result x), applied 1 ∷ [])
  unfolding next_started
  next_ends g v (returns w) = refl
  next_ends g v (throws w) = refl
  next_ends g v gives = refl

  -- A function with no future captured that `next` attaches on the inplace executor is called on a
  -- value only, and once; an exception, or a broken promise,
  -- goes past it into the returned future as it is. Nothing is left to do.
  pub next_calls_on_value :
      (g : Result V → Outcome V) (fate : Fate V)
      → summary (run_jobs fuel (next_started (function g) fate))
        ≡ (done tt, [], some (next_result g (fate_result fate)), called_on (fate_result fate))
  unfolding next_started
  next_calls_on_value g (sets v) =
      let s = next_started (function g) (sets v) in
      ap (λ js. summary (run_jobs fuel (record s { jobs = js }))) (next_delivers g (sets v))
      ∙ next_ends g v (g (ok v))
  next_calls_on_value g (fails e) = refl
  next_calls_on_value g drops = refl

  -- When the future that `next` on the inplace executor returns is destroyed first, the continuation is canceled: whatever becomes of
  -- the promise, the function is not called, both states are gone, and nothing is left to do.
  pub dropped_next_not_called :
      (g : Result V → Outcome V) (fate : Fate V)
      → let r = next_dropped (function g) fate in
        (r.0 ≡ done tt)
        × (r.1.seen ≡ [])
        × (r.1.jobs ≡ [])
        × (r.1.states 0 ≡ none)
        × (r.1.states 1 ≡ none)
  unfolding next_dropped
  dropped_next_not_called g (sets v) = (refl, refl, refl, refl, refl)
  dropped_next_not_called g (fails e) = (refl, refl, refl, refl, refl)
  dropped_next_not_called g drops = (refl, refl, refl, refl, refl)
