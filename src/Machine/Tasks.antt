-- ===== src/Machine/Tasks.antt =====
-- Packaged tasks and `async` from the start to the end.
use portable_concurrency.Prelude.{
  ℕ, ◌≡◌, refl, sym, subst, Bool, true, false, ap, ◌∙◌, List, [], ◌∷◌, some, Option, ℕ_discrete,
}
use portable_concurrency.Store.{
  Code, ◌>>=◌, ◌>>◌, done, thrown, Ends, Result, err, broken_promise, promise_already_satisfied,
  Outcome, returns, throws, gives, Function, Job, Seen, ran, Store, release, end_task, Executor,
  inplace, queue,
}
use portable_concurrency.Owners.{begin, lock, share, make_shared, drop, drop_owner, cancel}
use portable_concurrency.SharedState.{
  execute, satisfy, emplace, set_exception, abandon, unwrap, outcome,
}
use portable_concurrency.Then.{set_state_value, clean_state}
use portable_concurrency.PackagedTask.{
  PackagedTask, owning, awaited, finish_call, call_posted, async, bind_arguments,
}
use portable_concurrency.PackagedTask
use portable_concurrency.Machine.{run_jobs, step, perform, invoke, discard, run_posted, drop_posted}
use portable_concurrency.Machine.System.{init}
use portable_concurrency.Machine.Chain.{fuel, outcome_result, function}

module _ {V : Type 0} where
  -- A packaged task that has given its future away.
  abbrev pub make_awaited : Function V → Code (Store V) (ℕ × PackagedTask)
  make_awaited f = do t ← PackagedTask.make f; PackagedTask.get_future t

  -- The task's call, up to the end of its function.
  pub task_called : Function V → Result V → Store V
  unfolding PackagedTask.make make_shared PackagedTask.get_future share PackagedTask.call lock
      ℕ_discrete
  task_called f a = ((make_awaited f >>= λ (p, t). PackagedTask.call t a) init).1

  -- How the run ended, what is left to do, the future, and the calls of the function.
  abbrev pub task_summary :
      Ends (Unit {0}) × Store V → Ends (Unit {0}) × List (Job V) × Option (Result V) × List Seen
  task_summary (x, s) = (x, s.jobs, outcome 2 s 0, s.seen)

  -- The same with an outcome that the function is taken to have.
  abbrev called_with : Function V → Outcome V → Store V
  called_with f x =
      ((make_awaited f >>= λ (p, t).
      lock p >>= λ o. share p >> begin (release p ∷ release p ∷ []) >> finish_call p f x)
        init).1

  task-called_with :
      (g : Result V → Outcome V) (a : Result V)
      → task_called (function g) a ≡ called_with (function g) (g a)
  unfolding task_called
  task-called_with g a = refl

  called_ends :
      (g : Result V → Outcome V) (b : Result V) (x : Outcome V)
      → let r = run_jobs fuel (called_with (function g) x) in
        (task_summary r ≡ (done tt, [], some (outcome_result x), ran 0 ∷ []))
        × ((PackagedTask.call (awaited 0) b r.1).0 ≡ thrown promise_already_satisfied)
  unfolding task_called run_jobs step perform invoke discard set_state_value emplace set_exception
      unwrap satisfy execute clean_state drop drop_owner cancel outcome
  called_ends g b (returns v) = (refl, refl)
  called_ends g b (throws e) = (refl, refl)
  called_ends g b gives = (refl, refl)

  -- A packaged task whose future has been taken, and whose function has no future captured, calls the
  -- function once, on its arguments; what the function does is in the future, and nothing is left to
  -- do. A second call after that throws.
  pub task_runs_once :
      (g : Result V → Outcome V) (a b : Result V)
      → let r = run_jobs fuel (task_called (function g) a) in
        (task_summary r ≡ (done tt, [], some (outcome_result (g a)), ran 0 ∷ []))
        × ((PackagedTask.call (awaited 0) b r.1).0 ≡ thrown promise_already_satisfied)
  task_runs_once g a b =
      subst
        (λ s.
          let r = run_jobs fuel s in
          (task_summary r ≡ (done tt, [], some (outcome_result (g a)), ran 0 ∷ []))
          × ((PackagedTask.call (awaited 0) b r.1).0 ≡ thrown promise_already_satisfied))
        (sym (task-called_with g a)) (called_ends g b (g a))

  -- The end of a task that has not been called: its destructor, or the assignment of an empty one.
  abbrev end_with : Bool → PackagedTask → Code (Store V) (Unit {0})
  end_with true t = PackagedTask.assign t PackagedTask.empty >>= λ r. PackagedTask.destroy r.0
  end_with false t = PackagedTask.destroy t

  pub task_ended : Function V → Bool → Ends (Unit {0}) × Store V
  unfolding called_ends PackagedTask.destroy PackagedTask.assign PackagedTask.find_state abandon
  task_ended f assigned = (make_awaited f >>= λ (p, t). end_with assigned t >> run_jobs fuel) init

  ended_breaks :
      (g : Result V → Outcome V) (assigned : Bool)
      → task_summary (task_ended (function g) assigned)
        ≡ (done tt, [], some (err broken_promise), [])
  unfolding task_ended
  ended_breaks g true = refl
  ended_breaks g false = refl

  -- `async`, up to the end of its function, which is called at once or when the executor takes the
  -- task.
  pub async_started : Executor → Function V → Result V → Store V
  unfolding task_called async run_posted run_jobs step perform drop drop_owner
  async_started inplace f a = (async inplace f a init).1
  async_started (queue k) f a =
      ((async (queue k) f a >>= λ _. run_jobs fuel >> run_posted 0) init).1

  -- The same with an outcome that the function is taken to have.
  abbrev posted_call : ℕ → Function V → Outcome V → Code (Store V) (Unit {0})
  posted_call p f x =
      begin (end_task p ∷ [])
      >> (lock p >>= λ o. share p >> begin (release p ∷ release p ∷ []) >> finish_call p f x)

  abbrev async_with : Executor → Function V → Outcome V → Store V
  async_with inplace f x = ((make_awaited f >>= λ (p, t). posted_call p f x) init).1
  async_with (queue k) f x =
      ((make_awaited f >>= λ (p, t). run_jobs fuel >> posted_call p f x) init).1

  async_started-with :
      (x : Executor) (g : Result V → Outcome V) (a : Result V)
      → async_started x (function g) a ≡ async_with x (bind_arguments (function g) a) (g a)
  unfolding async_started
  async_started-with inplace g a = refl
  async_started-with (queue k) g a = refl

  async_ends :
      (x : Executor) (h : Result V → Outcome V) (y : Outcome V)
      → task_summary (run_jobs fuel (async_with x (function h) y))
        ≡ (done tt, [], some (outcome_result y), ran 0 ∷ [])
  unfolding called_ends async_started PackagedTask.destroy abandon
  async_ends inplace h (returns v) = refl
  async_ends inplace h (throws w) = refl
  async_ends inplace h gives = refl
  async_ends (queue k) h (returns v) = refl
  async_ends (queue k) h (throws w) = refl
  async_ends (queue k) h gives = refl

  -- `async` ends in the same way on every executor, in place or when a queue calls the task: the
  -- function is called once on the arguments, what it does is in the future, and nothing is left
  -- to do.
  pub async_any_executor :
      (x : Executor) (g : Result V → Outcome V) (a : Result V)
      → task_summary (run_jobs fuel (async_started x (function g) a))
        ≡ (done tt, [], some (outcome_result (g a)), ran 0 ∷ [])
  async_any_executor x g a =
      ap (λ s. task_summary (run_jobs fuel s)) (async_started-with x g a)
      ∙ async_ends x (λ _. g a) (g a)

  pub async_dropped : ℕ → Function V → Result V → Ends (Unit {0}) × Store V
  unfolding task_ended async drop_posted
  async_dropped k f a =
      (async (queue k) f a >>= λ _. run_jobs fuel >> drop_posted 0 >> run_jobs fuel) init

  dropped_breaks :
      (k : ℕ) (g : Result V → Outcome V) (a : Result V)
      → task_summary (async_dropped k (function g) a) ≡ (done tt, [], some (err broken_promise), [])
  unfolding async_dropped
  dropped_breaks k g a = refl

  -- A packaged task that ends without a call, by its destructor, by an assignment to it, or since an
  -- executor that has it from `async` destroys it, breaks the promise of its future, and its function
  -- is not called.
  pub uncalled_task_breaks :
      (k : ℕ) (g : Result V → Outcome V) (a : Result V) (assigned : Bool)
      → (task_summary (task_ended (function g) assigned)
          ≡ (done tt, [], some (err broken_promise), []))
        × (task_summary (async_dropped k (function g) a)
            ≡ (done tt, [], some (err broken_promise), []))
  uncalled_task_breaks k g a assigned = (ended_breaks g assigned, dropped_breaks k g a)
