-- ===== src/Machine/Once/Jobs.antt =====
-- What each job costs: its own token.
use portable_concurrency.Prelude.{ℕ, ◌≡◌, ◌==◌, refl, ap, some, List, [], ◌∷◌, ◌++◌, one_if, arith}
use portable_concurrency.Store.{
  Result, ok, err, Continuation, notify, notify_on, notification, inplace, queue, forward, schedule,
  hold, Job, call, destroy, release, run, deliver, clean, give_up, end_task, interrupt, settle,
  end_promise, Handler, Handling, fulfils, leaves, keeps, Store,
}
use portable_concurrency.Owners.{begin, release_option}
use portable_concurrency.SharedState.{execute}
use portable_concurrency.Promise
use portable_concurrency.Then.{result_of}
use portable_concurrency.Interrupt.{handling_jobs, interrupt_state, settle_promise}
use portable_concurrency.PackagedTask.{awaited}
use portable_concurrency.Machine.{step_jobs, invoke, discard, perform, step, forward_state}
use portable_concurrency.Machine.Once.Tokens.{
  sum, sum-append, in_continuation, in_posted, in_job, release_option-tokens,
}
use portable_concurrency.Machine.Once.Prices.{Low, Adds, Costs, nothing-Adds, free-bind}
use portable_concurrency.Machine.Once.Operations.{execute-Costs, abandon-Costs, drop-Costs}
use portable_concurrency.Machine.Once.Steps.{
  after_free, lock-then, log-Adds, nothing-Costs, release-Costs, call-Costs, schedule_weak-Costs,
  run_weak-Costs, result_of-Costs, set_state_value-Costs, clean_state-Costs, destroy_task-Costs,
}
use portable_concurrency.Machine.Once.Promises.{
  set_value-Costs, promise_exception-Costs, destroy-Costs,
}

module _ {V : Type 0} (v : ℕ) where
  -- Interruptible continuations.
  handling_jobs-tokens : (w : ℕ) (x : Handling V) → sum (in_job {V = V} v) (handling_jobs w x) ≡ 0
  handling_jobs-tokens w (fulfils r) = refl
  handling_jobs-tokens w leaves = refl
  handling_jobs-tokens w keeps = refl

  interrupt_state-Costs :
      (w : ℕ) (f : Handler V) (parent : ℕ) → Costs v (one_if (w == v)) (interrupt_state w f parent)
  unfolding interrupt_state
  interrupt_state-Costs w f parent =
      after_free v (one_if (w == v)) (result_of parent) _ (result_of-Costs v parent) (λ r.
        call-Costs v w (handling_jobs w (f.body r) ++ release parent ∷ release_option f.captured) (
          omega (
            arith,
            sum-append (in_job {V = V} v) (handling_jobs w (f.body r))
                (release parent ∷ release_option f.captured),
            handling_jobs-tokens w (f.body r),
            release_option-tokens V v f.captured,
          )))

  settle_promise-Costs : (w : ℕ) (r : Result V) → Costs v 0 (settle_promise w r)
  unfolding settle_promise
  settle_promise-Costs w (ok x) = set_value-Costs v (Promise.awaited w) x
  settle_promise-Costs w (err e) = promise_exception-Costs v (Promise.awaited w) e

  forward_state-Costs : (w : ℕ) → Costs v 0 (forward_state {V = V} (some w))
  forward_state-Costs w =
      free-bind v (begin (release w ∷ [])) (λ _. execute w) (release-Costs v (release w ∷ []) refl)
        (λ _. execute-Costs v w)

  invoke-Costs : (c : Continuation) → Costs v (in_continuation v c) (invoke {V = V} c)
  unfolding invoke
  invoke-Costs (notify n) s h = log-Adds v s _ h
  invoke-Costs (notify_on inplace n) s h = log-Adds v s _ h
  invoke-Costs (notify_on (queue k) n) s h = record {
    low = h;
    fresh = omega arith;
    tokens = omega (arith, sum-append (in_posted v) s.posted ((k, notification n) ∷ []));
  }
  invoke-Costs (forward w) s h =
      lock-then v 0 w forward_state (nothing-Costs v 0 tt) (forward_state-Costs w) s h
  invoke-Costs (schedule w) s h = schedule_weak-Costs v w s h
  invoke-Costs (hold p) s h = nothing-Adds v 0 s h

  discard-Costs : (c : Continuation) → Costs v 0 (discard {V = V} c)
  unfolding discard
  discard-Costs (notify_on x n) = nothing-Costs v 0 tt
  discard-Costs (notify n) = nothing-Costs v 0 tt
  discard-Costs (forward w) = nothing-Costs v 0 tt
  discard-Costs (schedule w) = nothing-Costs v 0 tt
  discard-Costs (hold p) = release-Costs v (release p ∷ []) refl

  perform-Costs : (j : Job V) → Costs v (in_job v j) (perform j)
  unfolding perform
  perform-Costs (call c) = invoke-Costs c
  perform-Costs (destroy c) = discard-Costs c
  perform-Costs (release p) = drop-Costs v p
  perform-Costs (run w) = run_weak-Costs v w
  perform-Costs (deliver w x o) = set_state_value-Costs v w x o
  perform-Costs (clean w) = clean_state-Costs v w
  perform-Costs (give_up w) = abandon-Costs v w
  perform-Costs (end_task w) = destroy_task-Costs v (awaited w)
  perform-Costs (interrupt w f parent) = interrupt_state-Costs w f parent
  perform-Costs (settle w r) = settle_promise-Costs w r
  perform-Costs (end_promise w) = destroy-Costs v (Promise.awaited w)

  -- A job that is taken from the list pays for itself.
  next_job-Adds :
      (s : Store V) (js : List (Job V)) → s.jobs ≡ js → Low v s → Adds v 0 s (step_jobs s js).1
  next_job-Adds s [] e h = nothing-Adds v 0 s h
  next_job-Adds s (j ∷ js) e h =
      let a = perform-Costs j (record s { jobs = js }) h in
      record {
        low = a.low;
        fresh = a.fresh;
        tokens = omega (arith, a.tokens, ap (sum (in_job v)) e);
      }

  pub step-Costs : Costs v 0 (step {V = V})
  unfolding step
  step-Costs s h = next_job-Adds s s.jobs refl h
