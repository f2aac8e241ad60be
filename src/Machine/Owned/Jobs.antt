-- ===== src/Machine/Owned/Jobs.antt =====
-- What each job does with pointers: it ends those that it has.
use portable_concurrency.Prelude.{
  ℕ, ◌+◌, ◌≡◌, refl, ap, subst, Option, none, some, List, [], ◌∷◌, ◌++◌, arith,
}
use portable_concurrency.Store.{
  Code, Result, ok, err, Continuation, notify, notify_on, inplace, queue, forward, schedule, hold,
  Job, call, destroy, release, run, deliver, clean, give_up, end_task, interrupt, settle,
  end_promise, Handler, Handling, fulfils, leaves, keeps, Store, applied, Posted, scheduled,
  packaged, notification,
}
use portable_concurrency.Owners.{begin, lock, release_option}
use portable_concurrency.SharedState.{execute}
use portable_concurrency.Promise
use portable_concurrency.Then.{result_of}
use portable_concurrency.Interrupt.{handling_jobs, interrupt_state, settle_promise}
use portable_concurrency.PackagedTask.{awaited}
use portable_concurrency.Machine.{
  step_jobs, invoke, discard, perform, step, forward_state, call_action, drop_action, take_from,
  take_out, run_posted, drop_posted,
}
use portable_concurrency.Machine.Once.Tokens.{sum, sum-append}
use portable_concurrency.Machine.Once.Prices.{Low}
use portable_concurrency.Machine.Owned.Refs.{
  pointer, option_refs, continuation_refs, job_refs, Backed, Backed-append,
}
use portable_concurrency.Machine.Owned.Parts.{release_option-refs, release_option-Backed}
use portable_concurrency.Machine.Owned.Moves.{
  Sound, After, Moves, nothing-Kept, then-After, bind-Moves,
}
use portable_concurrency.Machine.Owned.Operations.{
  lock-Moves, execute-Moves, abandon-Moves, drop-Moves,
}
use portable_concurrency.Machine.Owned.Steps.{
  schedule_weak-Moves, run_weak-Moves, set_state_value-Moves, clean_state-Moves, abandon_weak-Moves,
}
use portable_concurrency.Machine.Owned.Blocks.{begin_then, begin_all, log_then, result_of-Moves}
use portable_concurrency.Machine.Owned.Promises.{
  set_value-Moves, promise_exception-Moves, destroy-Moves,
}
use portable_concurrency.Machine.Owned.Tasks.{destroy_task-Moves, call_posted-Moves}

module _ {V : Type 0} (v : ℕ) where
  handling_jobs-refs : (w : ℕ) (x : Handling V) → sum (job_refs {V = V} v) (handling_jobs w x) ≡ 0
  handling_jobs-refs w (fulfils r) = refl
  handling_jobs-refs w leaves = refl
  handling_jobs-refs w keeps = refl

  handling_jobs-Backed : (w : ℕ) (x : Handling V) → Backed {V = V} v (handling_jobs w x)
  handling_jobs-Backed w (fulfils r) = ground arith
  handling_jobs-Backed w leaves = ground arith
  handling_jobs-Backed w keeps = tt

  interrupt_state-Moves :
      (w : ℕ) (f : Handler V) (parent : ℕ)
      → Moves v (pointer v parent + option_refs v f.captured) (λ _. 0) (interrupt_state w f parent)
  unfolding interrupt_state
  interrupt_state-Moves w f parent =
      bind-Moves v (pointer v parent + option_refs v f.captured)
        (λ _. pointer v parent + option_refs v f.captured) (λ _. 0) (result_of parent) _
        (result_of-Moves v (pointer v parent + option_refs v f.captured) parent)
        (λ r.
          log_then v (applied w) (pointer v parent + option_refs v f.captured) (λ _. 0)
            (begin (handling_jobs w (f.body r) ++ release parent ∷ release_option f.captured))
            (begin_all v (handling_jobs w (f.body r) ++ release parent ∷ release_option f.captured)
              (pointer v parent + option_refs v f.captured)
              (Backed-append v (handling_jobs w (f.body r))
                (release parent ∷ release_option f.captured) (handling_jobs-Backed w (f.body r))
                (ground (arith, release_option-Backed V v f.captured)))
              (omega (
                arith,
                sum-append (job_refs {V = V} v) (handling_jobs w (f.body r))
                    (release parent ∷ release_option f.captured),
                handling_jobs-refs w (f.body r),
                release_option-refs V v f.captured,
              ))))

  settle_promise-Moves : (w : ℕ) (r : Result V) → Moves v 0 (λ _. 0) (settle_promise w r)
  unfolding settle_promise
  settle_promise-Moves w (ok x) = set_value-Moves v (Promise.awaited w) x
  settle_promise-Moves w (err e) = promise_exception-Moves v (Promise.awaited w) e

  forward_state-Moves :
      (o : Option ℕ) → Moves v (option_refs v o) (λ _. 0) (forward_state {V = V} o)
  forward_state-Moves none s h n = nothing-Kept v 0 s h n
  forward_state-Moves (some w) s h n =
      begin_then v (release w ∷ []) (pointer v w) (λ _. 0) (execute w) (ground arith) (omega arith)
        (execute-Moves v w 0) s h n

  invoke-Moves : (c : Continuation) → Moves v 0 (λ _. 0) (invoke {V = V} c)
  unfolding invoke
  invoke-Moves (notify m) s h n = record { low = h; sound = n; balance = omega arith }
  invoke-Moves (notify_on inplace m) s h n = record { low = h; sound = n; balance = omega arith }
  invoke-Moves (notify_on (queue k) m) s h n = record { low = h; sound = n; balance = omega arith }
  invoke-Moves (forward w) s h n =
      bind-Moves v 0 (option_refs v) (λ _. 0) (lock w) forward_state (lock-Moves v w)
        forward_state-Moves s h n
  invoke-Moves (schedule w) s h n = schedule_weak-Moves v w s h n
  invoke-Moves (hold p) s h n = nothing-Kept v 0 s h n

  discard-Moves : (c : Continuation) → Moves v (continuation_refs v c) (λ _. 0) (discard {V = V} c)
  unfolding discard
  discard-Moves (notify_on x m) s h n = nothing-Kept v 0 s h n
  discard-Moves (notify m) s h n = nothing-Kept v 0 s h n
  discard-Moves (forward w) s h n = nothing-Kept v 0 s h n
  discard-Moves (schedule w) s h n = nothing-Kept v 0 s h n
  discard-Moves (hold p) s h n =
      begin_all v (release p ∷ []) (pointer v p) (ground arith) (omega arith) s h n

  perform-Moves : (j : Job V) → Moves v (job_refs v j) (λ _. 0) (perform j)
  unfolding perform
  perform-Moves (call c) = invoke-Moves c
  perform-Moves (destroy c) = discard-Moves c
  perform-Moves (release p) = drop-Moves v p
  perform-Moves (run w) = run_weak-Moves v w
  perform-Moves (deliver w x o) = set_state_value-Moves v w x o
  perform-Moves (clean w) = clean_state-Moves v w
  perform-Moves (give_up w) = abandon-Moves v w
  perform-Moves (end_task w) = destroy_task-Moves v (awaited w)
  perform-Moves (interrupt w f parent) = interrupt_state-Moves w f parent
  perform-Moves (settle w r) = settle_promise-Moves w r
  perform-Moves (end_promise w) = destroy-Moves v (Promise.awaited w)

  -- A job that is taken from the list brings its pointers.
  next_job-After :
      (s : Store V) (js : List (Job V))
      → s.jobs ≡ js
      → Low v s
      → Sound v s
      → After v s 0 (λ _. 0) (step_jobs s js)
  next_job-After s [] e h n = nothing-Kept v 0 s h n
  next_job-After s (j ∷ js) e h n =
      let b = subst (Backed {V = V} v) e n.1 in
      then-After v s (record s { jobs = js }) 0 (job_refs v j) (λ _. 0)
        (perform j (record s { jobs = js }))
        (record { low = h; sound = (n.0, b.1); balance = omega (arith, ap (sum (job_refs v)) e) })
        (perform-Moves j (record s { jobs = js }) h (n.0, b.1))

  pub step-Moves : Moves v 0 (λ _. 0) (step {V = V})
  unfolding step
  step-Moves s h n = next_job-After s s.jobs refl h n

  -- What is posted has no pointer.
  posted-Moves :
      (f : Posted → Code (Store V) (Unit {0}))
      → ((a : Posted) → Moves v 0 (λ _. 0) (f a))
      → (s : Store V) (o : Option (Posted × List (ℕ × Posted))) → Low v s
      → Sound v s
      → After v s 0 (λ _. 0) (take_from f s o)
  posted-Moves f c s none h n = nothing-Kept v 0 s h n
  posted-Moves f c s (some (a, rest)) h n =
      then-After v s (record s { posted = rest }) 0 0 (λ _. 0) (f a (record s { posted = rest }))
        (record { low = h; sound = n; balance = omega arith })
        (c a (record s { posted = rest }) h n)

  call_action-Moves : (a : Posted) → Moves v 0 (λ _. 0) (call_action {V = V} a)
  call_action-Moves (scheduled w) s h n = run_weak-Moves v w s h n
  call_action-Moves (packaged p) s h n = call_posted-Moves v p s h n
  call_action-Moves (notification m) s h n = record { low = h; sound = n; balance = omega arith }

  drop_action-Moves : (a : Posted) → Moves v 0 (λ _. 0) (drop_action {V = V} a)
  drop_action-Moves (scheduled w) s h n = abandon_weak-Moves v w s h n
  drop_action-Moves (packaged p) s h n = destroy_task-Moves v (awaited p) s h n
  drop_action-Moves (notification m) s h n = nothing-Kept v 0 s h n

  pub run_posted-Moves : (i : ℕ) → Moves v 0 (λ _. 0) (run_posted {V = V} i)
  unfolding run_posted
  run_posted-Moves i s h n = posted-Moves call_action call_action-Moves s (take_out i s.posted) h n

  pub drop_posted-Moves : (i : ℕ) → Moves v 0 (λ _. 0) (drop_posted {V = V} i)
  unfolding drop_posted
  drop_posted-Moves i s h n = posted-Moves drop_action drop_action-Moves s (take_out i s.posted) h n
