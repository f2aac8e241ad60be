-- ===== src/Machine.antt =====
-- Running what is under way: one job at a time, the innermost first.
pub mod System
pub mod Chain
pub mod Interruptible
pub mod Tasks
pub mod Values
pub mod Settled
pub mod Once
pub mod Owned
pub mod Safe
mod Tests
mod HandledTests
mod OwnedTests
use portable_concurrency.Prelude.{
  ℕ, zero, suc, Option, none, some, List, [], ◌∷◌, ◌++◌, Bool, true, false,
}
use portable_concurrency.Store.{
  give_up, end_task, interrupt, settle, end_promise, Posted, scheduled, packaged, notification,
  notify_on, Executor, inplace, queue, Code, pure, done, thrown, undefined, fault, ◌>>=◌, ◌>>◌,
  and_then, Ends, Continuation, notify, forward, schedule, hold, State, Job, call, destroy, release,
  run, deliver, clean, Store, notified,
}
use portable_concurrency.Owners.{begin, log, lock, drop}
use portable_concurrency.SharedState.{execute}
use portable_concurrency.SharedState
use portable_concurrency.PackagedTask.{PackagedTask, awaited, call_posted}
use portable_concurrency.PackagedTask
use portable_concurrency.Promise
use portable_concurrency.Interrupt.{interrupt_state, settle_promise}
use portable_concurrency.Then.{schedule_weak, run_weak, set_state_value, clean_state, abandon_weak}

-- Some executor takes any one of the actions that it has, the one with the number `i` of all that
-- are posted, and calls it or destroys it. What executor has it and in which order that executor
-- takes its actions is left open.
abbrev pub put_back :
    ℕ × Posted → Option (Posted × List (ℕ × Posted)) → Option (Posted × List (ℕ × Posted))
put_back x none = none
put_back x (some (a, rest)) = some (a, x ∷ rest)

abbrev pub take_out : ℕ → List (ℕ × Posted) → Option (Posted × List (ℕ × Posted))
take_out i [] = none
take_out zero ((k, a) ∷ rest) = some (a, rest)
take_out (suc i) (x ∷ rest) = put_back x (take_out i rest)

module _ {V : Type 0} where
  abbrev pub forward_state : Option ℕ → Code (Store V) (Unit {0})
  forward_state none = pure tt
  forward_state (some w) = do begin (release w ∷ []); execute w

  -- `post(exec, notification)`
  abbrev pub post_notification : Executor → ℕ → Code (Store V) (Unit {0})
  post_notification inplace n s = log (notified n) s
  post_notification (queue k) n s =
      pure tt (record s { posted = s.posted ++ (k, notification n) ∷ [] })

  -- A call of a continuation. The lambda of `unwrap` locks its state and executes it.
  unfoldable pub invoke : Continuation → Code (Store V) (Unit {0})
  invoke (notify n) = log (notified n)
  invoke (notify_on exec n) = post_notification exec n
  invoke (forward w) = do state ← lock w; forward_state state
  invoke (schedule w) = schedule_weak w
  invoke (hold p) = pure tt

  -- The destructor of a continuation: of those that the library makes, one owns a state.
  unfoldable pub discard : Continuation → Code (Store V) (Unit {0})
  discard (hold p) = begin (release p ∷ [])
  discard _ = pure tt

  unfoldable pub perform : Job V → Code (Store V) (Unit {0})
  unfolding invoke discard
  perform (call c) = invoke c
  perform (destroy c) = discard c
  perform (release p) = drop p
  perform (run w) = run_weak w
  perform (deliver w x captured) = set_state_value w x captured
  perform (clean w) = clean_state w
  perform (give_up w) = SharedState.abandon w
  perform (end_task w) = PackagedTask.destroy (awaited w)
  perform (interrupt w f parent) = interrupt_state w f parent
  perform (settle w r) = settle_promise w r
  perform (end_promise w) = Promise.destroy (Promise.awaited w)

  -- One job; `thrown` is an exception that leaves a noexcept function.
  abbrev pub step_jobs : Store V → List (Job V) → Ends (Unit {0}) × Store V
  step_jobs s [] = (done tt, s)
  step_jobs s (j ∷ js) = perform j (record s { jobs = js })

  unfoldable pub step : Store V → Ends (Unit {0}) × Store V
  step s = step_jobs s s.jobs

  -- At most `fuel` jobs, until none is left or one does not end well.
  unfoldable pub run_jobs : ℕ → Code (Store V) (Unit {0})
  run_jobs zero s = (done tt, s)
  run_jobs (suc fuel) s = and_then (step s) (λ _. run_jobs fuel)

  abbrev pub take_from :
      (Posted → Code (Store V) (Unit {0}))
      → Store V
      → Option (Posted × List (ℕ × Posted))
      → Ends (Unit {0}) × Store V
  take_from f s none = (done tt, s)
  take_from f s (some (a, rest)) = f a (record s { posted = rest })

  abbrev pub call_action : Posted → Code (Store V) (Unit {0})
  call_action (scheduled w) = run_weak w
  call_action (packaged p) = call_posted p
  call_action (notification n) = log (notified n)

  abbrev pub drop_action : Posted → Code (Store V) (Unit {0})
  drop_action (scheduled w) = abandon_weak w
  drop_action (packaged p) = PackagedTask.destroy (awaited p)
  drop_action (notification n) = pure tt

  unfoldable pub run_posted : ℕ → Code (Store V) (Unit {0})
  run_posted i s = take_from call_action s (take_out i s.posted)

  unfoldable pub drop_posted : ℕ → Code (Store V) (Unit {0})
  drop_posted i s = take_from drop_action s (take_out i s.posted)
