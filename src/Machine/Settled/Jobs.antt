-- ===== src/Machine/Settled/Jobs.antt =====
-- Every job keeps the invariant.
use portable_concurrency.Prelude.{
  ◌++◌, inl, inr, Option-cases, arith, subst, ℕ, suc, ◌≡◌, true, Option, List, [], ◌∷◌, All, refl,
}
use portable_concurrency.PackagedTask.{awaited}
use portable_concurrency.Store.{
  State, give_up, end_task, ◌>>=◌, Result, ok, err, Continuation, Job, Store, forward, notify,
  notify_on, schedule, hold, call, destroy, release, run, deliver, clean, interrupt, settle,
  end_promise, Handler, Handling, fulfils, leaves, keeps, inplace, queue,
}
use portable_concurrency.Owners.{lock-none, lock-some, lock, release_option}
use portable_concurrency.Then.{result_of}
use portable_concurrency.Promise
use portable_concurrency.Interrupt.{handling_jobs, interrupt_state, settle_promise}
use portable_concurrency.Machine.Settled.Promises.{
  set_value-Keeps, promise_exception-Keeps, destroy-Keeps,
}
use portable_concurrency.Machine.{step_jobs, invoke, discard, perform, step, forward_state}
use portable_concurrency.Machine.Settled.Defs.{
  is_settled, IsFine, IsFineJob, Holds, Inv-jobs, jobs-append,
}
use portable_concurrency.Machine.Settled.Parts.{release_option_fine}
use portable_concurrency.Machine.Settled.Operations.{
  Keeps, bind-Keeps, same-Keeps, execute-Holds, abandon-Keeps, drop-Keeps,
}
use portable_concurrency.Machine.Settled.Steps.{
  result_of-Keeps, schedule_weak-Keeps, run_weak-Keeps, set_state_value-Keeps, clean_state-Keeps,
  destroy_task-Keeps,
}

module _ {V : Type 0} where
  -- Interruptible continuations.
  handling_jobs_fine :
      (states : ℕ → Option (State V)) (fresh w : ℕ) (x : Handling V)
      → All (IsFineJob states fresh) (handling_jobs w x)
  handling_jobs_fine states fresh w (fulfils r) = (tt, (tt, tt))
  handling_jobs_fine states fresh w leaves = (tt, tt)
  handling_jobs_fine states fresh w keeps = tt

  interrupt_state-Keeps : (w : ℕ) (f : Handler V) (parent : ℕ) → Keeps (interrupt_state w f parent)
  unfolding interrupt_state
  interrupt_state-Keeps w f parent =
      bind-Keeps (result_of parent) _ (result_of-Keeps parent) (λ r t k.
        Inv-jobs k (handling_jobs w (f.body r) ++ release parent ∷ release_option f.captured) (
          jobs-append t.states t.fresh (handling_jobs w (f.body r))
            (release parent ∷ release_option f.captured)
            (handling_jobs_fine t.states t.fresh w (f.body r))
            (tt, release_option_fine t.states t.fresh f.captured)))

  settle_promise-Keeps : (w : ℕ) (r : Result V) → Keeps (settle_promise w r)
  unfolding settle_promise
  settle_promise-Keeps w (ok v) = set_value-Keeps (Promise.awaited w) v
  settle_promise-Keeps w (err e) = promise_exception-Keeps (Promise.awaited w) e

  -- A state that is gone has no continuations to execute.
  forward_state-Holds :
      (w : ℕ) (s : Store V)
      → is_settled (s.states w) ≡ true
      → Holds s
      → Holds ((lock w >>= forward_state) s).1
  forward_state-Holds w s k h = elim (Option-cases (s.states w)) [
    | inl e ↦ rw (lock-none w s e) h
    | inr (b, e) ↦ rw (lock-some w s b e) (
        execute-Holds w _ (ground arith) (
          Inv-jobs (same-Keeps s w b (record b { owners = suc b.owners }) e refl refl h)
            (release w ∷ []) (tt, tt)))
  ]

  invoke-Holds :
      (c : Continuation) (s : Store V) → IsFine s.states s.fresh c → Holds s → Holds (invoke c s).1
  unfolding invoke
  invoke-Holds (notify n) s k h = h
  invoke-Holds (notify_on inplace n) s k h = h
  invoke-Holds (notify_on (queue x) n) s k h = h
  invoke-Holds (forward w) s k h = forward_state-Holds w s k.1 h
  invoke-Holds (schedule w) s k h = schedule_weak-Keeps w s h
  invoke-Holds (hold p) s k h = h

  discard-Keeps : (c : Continuation) → Keeps (discard {V = V} c)
  unfolding discard
  discard-Keeps (notify n) s h = h
  discard-Keeps (notify_on x n) s h = h
  discard-Keeps (forward w) s h = h
  discard-Keeps (schedule w) s h = h
  discard-Keeps (hold p) s h = Inv-jobs h (release p ∷ []) (tt, tt)

  perform-Holds :
      (j : Job V) (s : Store V) → IsFineJob s.states s.fresh j → Holds s → Holds (perform j s).1
  unfolding perform
  perform-Holds (call c) s k h = invoke-Holds c s k h
  perform-Holds (destroy c) s k h = discard-Keeps c s h
  perform-Holds (release p) s k h = drop-Keeps p s h
  perform-Holds (run w) s k h = run_weak-Keeps w s h
  perform-Holds (deliver w x o) s k h = set_state_value-Keeps w x o s h
  perform-Holds (clean w) s k h = clean_state-Keeps w s h
  perform-Holds (give_up w) s k h = abandon-Keeps w s h
  perform-Holds (end_task w) s k h = destroy_task-Keeps (awaited w) s h
  perform-Holds (interrupt w f parent) s k h = interrupt_state-Keeps w f parent s h
  perform-Holds (settle w r) s k h = settle_promise-Keeps w r s h
  perform-Holds (end_promise w) s k h = destroy-Keeps (Promise.awaited w) s h

  next_job-Holds :
      (s : Store V) (js : List (Job V)) → s.jobs ≡ js → Holds s → Holds (step_jobs s js).1
  next_job-Holds s [] e h = h
  next_job-Holds s (j ∷ js) e h =
      let fine = subst (All (IsFineJob s.states s.fresh)) e h.fine_jobs in
      perform-Holds j (record s { jobs = js }) fine.0
        (record { unused = h.unused; fine = h.fine; fine_jobs = fine.1 })

  pub step-Keeps : Keeps (step {V = V})
  unfolding step
  step-Keeps s h = next_job-Holds s s.jobs refl h
