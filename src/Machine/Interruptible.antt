-- ===== src/Machine/Interruptible.antt =====
-- A promise, an interruptible continuation of its future, and what becomes of the promise that the
-- continuation is handed.
use portable_concurrency.Prelude.{
  ◌∙◌, ap, ◌≡◌, Bool, false, Option, none, some, List, [], ◌∷◌, refl, ℕ_discrete,
}
use portable_concurrency.Store.{
  Code, pure, done, broken_promise, ◌>>=◌, ◌>>◌, Ends, Result, ok, err, Job, interrupt, Store,
  plain, Handling, fulfils, leaves, keeps, Handler, applied, inplace,
}
use portable_concurrency.Owners.{make_shared, share, lock, drop, drop_owner, cancel}
use portable_concurrency.SharedState.{
  push, execute, satisfy, emplace, set_exception, abandon, outcome,
}
use portable_concurrency.Promise
use portable_concurrency.Promise.{Promise, awaited, get_state}
use portable_concurrency.Future.{Future}
use portable_concurrency.Future
use portable_concurrency.Then.{make_then_state, schedule_weak, run_weak, apply}
use portable_concurrency.Interrupt.{attach_interruptible, interrupt_state, settle_promise}
use portable_concurrency.Machine.{invoke, discard, perform, step, run_jobs}
use portable_concurrency.Machine.System.{init}
use portable_concurrency.Machine.Chain.{Fate, sets, fails, drops, meet, fate_result, fuel, summary}

module _ {V : Type 0} where
  abbrev pub handler : (Result V → Handling V) → Handler V
  handler g = record { body = g; captured = none }

  -- `make_promise`, and an interruptible `then` on its future.
  abbrev pub make_interruptible : Handler V → Code (Store V) (Promise × Future)
  make_interruptible f = do
    (r, p) ← Promise.make_promise plain
    q ← attach_interruptible (some p) inplace f
    pure (r, q)

  -- The promise with its fate, up to the call of the function.
  pub interruptible_started : Handler V → Fate V → Store V
  unfolding Promise.make_promise make_shared attach_interruptible make_then_state push
      Promise.set_value Promise.set_exception Promise.destroy Promise.abandon abandon run_jobs step
      perform invoke discard schedule_weak run_weak apply drop drop_owner lock share get_state
      emplace satisfy execute outcome set_exception cancel interrupt_state settle_promise ℕ_discrete
  interruptible_started f fate =
      ((make_interruptible f >>= λ (r, q). meet r fate >> run_jobs 4) init).1

  -- The same list of jobs, with another function to call.
  abbrev with_handler : Handler V → List (Job V) → List (Job V)
  with_handler f [] = []
  with_handler f (interrupt w g parent ∷ js) = interrupt w f parent ∷ js
  with_handler f (j ∷ js) = j ∷ with_handler f js

  abbrev resume : Store V → Handling V → Ends (Unit {0}) × Store V
  resume s x = run_jobs fuel (record s { jobs = with_handler (handler (λ _. x)) s.jobs })

  -- What the future of the result holds, by what the function does with its promise.
  abbrev pub handled : Handling V → Option (Result V)
  handled (fulfils r) = some r
  handled leaves = some (err broken_promise)
  handled keeps = none

  -- The function is called on the fate of the promise.
  calls_on_fate :
      (g : Result V → Handling V) (fate : Fate V)
      → run_jobs fuel (interruptible_started (handler g) fate)
        ≡ resume (interruptible_started (handler g) fate) (g (fate_result fate))
  unfolding interruptible_started
  calls_on_fate g (sets v) = refl
  calls_on_fate g (fails e) = refl
  calls_on_fate g drops = refl

  ends_handled :
      (g : Result V → Handling V) (fate : Fate V) (x : Handling V)
      → summary (resume (interruptible_started (handler g) fate) x)
        ≡ (done tt, [], handled x, applied 1 ∷ [])
  unfolding interruptible_started
  ends_handled g (sets v) (fulfils (ok w)) = refl
  ends_handled g (sets v) (fulfils (err e)) = refl
  ends_handled g (sets v) leaves = refl
  ends_handled g (sets v) keeps = refl
  ends_handled g (fails f) (fulfils (ok w)) = refl
  ends_handled g (fails f) (fulfils (err e)) = refl
  ends_handled g (fails f) leaves = refl
  ends_handled g (fails f) keeps = refl
  ends_handled g drops (fulfils (ok w)) = refl
  ends_handled g drops (fulfils (err e)) = refl
  ends_handled g drops leaves = refl
  ends_handled g drops keeps = refl

  -- The function of an interruptible continuation on the inplace executor, with no future captured,
  -- is called once, on whatever becomes of the
  -- parent's promise. The returned future holds what the function gives to the promise it is handed;
  -- it is a broken promise if the function leaves that promise to its destructor, and not ready if
  -- it moves it away. Nothing is left to do.
  pub interruptible_settles :
      (g : Result V → Handling V) (fate : Fate V)
      → summary (run_jobs fuel (interruptible_started (handler g) fate))
        ≡ (done tt, [], handled (g (fate_result fate)), applied 1 ∷ [])
  interruptible_settles g fate =
      ap summary (calls_on_fate g fate) ∙ ends_handled g fate (g (fate_result fate))

  -- The function has moved its promise away, which then meets a fate of its own.
  pub kept_then : Handler V → Fate V → Fate V → Ends (Unit {0}) × Store V
  unfolding interruptible_started
  kept_then f fate late =
      (run_jobs fuel >> meet (awaited 1) late >> run_jobs fuel) (interruptible_started f fate)

  kept_settles :
      (fate late : Fate V)
      → summary (kept_then (handler (λ _. keeps)) fate late)
        ≡ (done tt, [], some (fate_result late), applied 1 ∷ [])
  unfolding kept_then
  kept_settles (sets v) (sets w) = refl
  kept_settles (sets v) (fails e) = refl
  kept_settles (sets v) drops = refl
  kept_settles (fails f) (sets w) = refl
  kept_settles (fails f) (fails e) = refl
  kept_settles (fails f) drops = refl
  kept_settles drops (sets w) = refl
  kept_settles drops (fails e) = refl
  kept_settles drops drops = refl

  -- The returned future is destroyed instead.
  pub kept_canceled : Handler V → Fate V → Ends Bool × Store V
  unfolding kept_then Future.destroy Promise.is_awaiten
  kept_canceled f fate =
      (run_jobs fuel >> Future.destroy (some 1) >> run_jobs fuel >> Promise.is_awaiten (awaited 1))
        (interruptible_started f fate)

  kept_sees :
      (fate : Fate V)
      → let r = kept_canceled (handler (λ _. keeps)) fate in
        (r.0 ≡ done false) × (r.1.jobs ≡ []) × (r.1.states 1 ≡ none)
  unfolding kept_canceled
  kept_sees (sets v) = (refl, refl, refl)
  kept_sees (fails e) = (refl, refl, refl)
  kept_sees drops = (refl, refl, refl)

  -- A promise that an interruptible continuation has moved away is that of the returned future. What
  -- becomes of it later is in there, and nothing is left to do; and when the returned future is
  -- destroyed instead, `is_awaiten` of the promise says so, the state is gone, and nothing is left
  -- to do.
  pub kept_promise_settles :
      (fate late : Fate V)
      → let r = kept_canceled (handler (λ _. keeps)) fate in
        (summary (kept_then (handler (λ _. keeps)) fate late)
          ≡ (done tt, [], some (fate_result late), applied 1 ∷ []))
        × (r.0 ≡ done false)
        × (r.1.jobs ≡ [])
        × (r.1.states 1 ≡ none)
  kept_promise_settles fate late = let k = kept_sees fate in (kept_settles fate late, k.0, k.1, k.2)
