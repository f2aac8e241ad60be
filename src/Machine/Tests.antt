-- ===== src/Machine/Tests.antt =====
-- A promise that is set; a function that doubles, and what becomes of the promise before it.
use portable_concurrency.Prelude.{true, ℕ, ◌≡◌, ◌≤◌, ◌*◌, some, none, [], ◌∷◌, refl, ℕ_discrete}
use portable_concurrency.Store.{
  ◌>>=◌, ◌>>◌, inplace, queue, ran, thrown, promise_already_satisfied, Result, ok, err, Outcome,
  returns, throws, done, broken_promise, State, Store, executed, value, plain, applied,
}
use portable_concurrency.Owners.{make_shared, lock, share}
use portable_concurrency.Then.{set_state_value}
use portable_concurrency.SharedState.{emplace, satisfy, execute}
use portable_concurrency.Promise.{awaited}
use portable_concurrency.Promise
use portable_concurrency.Machine.System.{
  no_thread, next_request, next_job, new_thread, turn, serve, init, make_promise, set_value, then_,
  is_ready,
}
use portable_concurrency.Machine.Once.{applied_at_most_once}
use portable_concurrency.Machine.Once.Tokens.{sum, in_seen}
use portable_concurrency.Machine.Chain.{
  Fate, meet, sets, drops, then_started, next_started, next_dropped, function, summary, fuel,
  then_calls, next_calls_on_value, dropped_next_not_called,
}
use portable_concurrency.Machine.Tasks.{
  make_awaited, task_called, task_summary, task_ended, async_started, async_dropped, task_runs_once,
  async_any_executor, uncalled_task_breaks,
}
use portable_concurrency.Machine.Values.{met, get_returns_set, set_once}
use portable_concurrency.Future
use portable_concurrency.PackagedTask
use portable_concurrency.Machine.{step, perform, run_jobs}

abbrev promised : Store ℕ
promised = (serve (make_promise plain) init).1

abbrev settled : Store ℕ
settled = (serve (set_value (awaited 0) 7) promised).1

abbrev settled_state : State ℕ
settled_state = record { storage = value 7; continuations = executed; frame = plain; owners = 2 }

abbrev double : Result ℕ → Outcome ℕ
double (ok n) = returns (n * 2)
double (err e) = throws e

-- The continuation's function is called by the fourth job.
abbrev followed : Store ℕ
followed =
    (serve (set_value (awaited 0) 7)
      (serve (then_ (some 0) inplace (function double)) promised).1).1

abbrev half_followed : Store ℕ
half_followed = (step (step followed).1).1

-- Between its jobs, a second thread asks whether the future is ready.
abbrev asked : Store ℕ
asked = (serve (is_ready (some 0)) (record half_followed { jobs = [] })).1

abbrev followed_called : Store ℕ
followed_called = (step (step (record asked { jobs = half_followed.jobs })).1).1

applied_at_most_once_example : sum (in_seen 1) followed_called.seen ≤ 1
applied_at_most_once_example = applied_at_most_once 1 (
    next_job (
      next_job (
        turn [] half_followed.jobs [] (
          next_request (is_ready (some 0)) (
            new_thread (
              next_job (
                next_job (
                  next_request (set_value (awaited 0) 7) (
                    next_request (then_ (some 0) inplace (function double))
                      (next_request (make_promise plain) no_thread))))))))))

then_calls_example :
    summary (run_jobs fuel (then_started (function double) drops))
    ≡ (done tt, [], some (err broken_promise), applied 1 ∷ [])
then_calls_example = then_calls double drops

next_calls_on_value_example :
    summary (run_jobs fuel (next_started (function double) (sets 4)))
    ≡ (done tt, [], some (ok 8), applied 1 ∷ [])
next_calls_on_value_example = next_calls_on_value double (sets 4)

dropped_next_not_called_example :
    let r = next_dropped (function double) (sets 4) in
    (r.0 ≡ done tt)
    × (r.1.seen ≡ [])
    × (r.1.jobs ≡ [])
    × (r.1.states 0 ≡ none)
    × (r.1.states 1 ≡ none)
dropped_next_not_called_example = dropped_next_not_called double (sets 4)

task_runs_once_example :
    let r = run_jobs fuel (task_called (function double) (ok 4)) in
    (task_summary r ≡ (done tt, [], some (ok 8), ran 0 ∷ []))
    × ((PackagedTask.call (PackagedTask.awaited 0) (ok 5) r.1).0 ≡ thrown promise_already_satisfied)
task_runs_once_example = task_runs_once double (ok 4) (ok 5)

async_any_executor_example :
    task_summary (run_jobs fuel (async_started (queue 3) (function double) (ok 4)))
    ≡ (done tt, [], some (ok 8), ran 0 ∷ [])
async_any_executor_example = async_any_executor (queue 3) double (ok 4)

-- A continuation of the task's future that calls the task, before the call that it comes from has
-- ended: the function runs again.
called_again :
    let s =
      ((make_awaited (function double) >>= λ (p, t). PackagedTask.call t (ok 4) >> run_jobs 1)
        init).1 in
    (PackagedTask.call (PackagedTask.awaited 0) (ok 5) s).1.seen ≡ ran 0 ∷ ran 0 ∷ []
unfolding PackagedTask.make PackagedTask.get_future PackagedTask.call make_shared run_jobs step
    perform set_state_value emplace satisfy execute lock share ℕ_discrete
called_again = refl

uncalled_task_breaks_example :
    (task_summary (task_ended (function double) true)
      ≡ (done tt, [], some (err broken_promise), []))
    × (task_summary (async_dropped 3 (function double) (ok 4))
        ≡ (done tt, [], some (err broken_promise), []))
uncalled_task_breaks_example = uncalled_task_breaks 3 double (ok 4) true

abbrev four : Fate ℕ
four = sets 4

abbrev five : Fate ℕ
five = sets 5

get_returns_set_example :
    ((Future.get (some 0) (met four)).0 ≡ done 4)
    × ((Future.get_shared (some 0) (met four)).0 ≡ done 4)
    × ((Future.get_shared (some 0) (Future.get_shared (some 0) (met four)).1).0 ≡ done 4)
get_returns_set_example = get_returns_set four

set_once_example :
    let r = meet (awaited 0) five (met four) in
    (r.0 ≡ thrown promise_already_satisfied) × ((Future.get_shared (some 0) r.1).0 ≡ done 4)
set_once_example = set_once four five
