-- ===== src/PackagedTask.antt =====
-- bits/packaged_task.h and bits/async.h: a function with the state of its result.
use portable_concurrency.Prelude.{ℕ, Bool, true, false, Option, none, some, List, [], ◌∷◌, ◌++◌}
use portable_concurrency.Store.{
  Code, pure, throw, fault, ◌>>=◌, ◌>>◌, Result, err, no_state, future_already_retrieved,
  promise_already_satisfied, Outcome, gives, Function, Executor, inplace, queue, Frame, task, Job,
  release, deliver, clean, give_up, end_task, packaged, Store, ran,
}
use portable_concurrency.Owners.{deref, write, begin, log, make_shared, share, lock, frame_parts}
use portable_concurrency.Then.{clean_action}
use portable_concurrency.Future.{Future}

-- `either<monostate, shared_ptr<packaged_task_state>, weak_ptr<packaged_task_state>>`. The pointers
-- to the `shared_state` inside share their count with these.
pub data PackagedTask : Type 0 where
  empty : PackagedTask
  owning : ℕ → PackagedTask
  awaited : ℕ → PackagedTask

abbrev pub valid : PackagedTask → Bool
valid empty = false
valid _ = true

abbrev pub swap : PackagedTask → PackagedTask → PackagedTask × PackagedTask
swap t u = (u, t)

module _ {V : Type 0} where
  -- `packaged_task(F &&)`
  unfoldable pub make : Function V → Code (Store V) PackagedTask
  make f = do p ← make_shared (task (some f)); pure (owning p)

  -- `get_state(false)`
  unfoldable pub find_state : PackagedTask → Code (Store V) (Option ℕ)
  find_state empty = pure none
  find_state (owning p) = do share p; pure (some p)
  find_state (awaited p) = lock p

  -- `get_state()`
  unfoldable pub get_state : PackagedTask → Code (Store V) (Option ℕ)
  get_state empty = throw no_state
  get_state (owning p) = do share p; pure (some p)
  get_state (awaited p) = lock p

  unfoldable pub get_future : PackagedTask → Code (Store V) (ℕ × PackagedTask)
  get_future (awaited p) = throw future_already_retrieved
  get_future empty = throw no_state
  get_future (owning p) = do share p; begin (release p ∷ []); pure (p, awaited p)

  -- The future that the function returns, if it returns the one it has captured, and the function
  -- that is left.
  abbrev pub given : Function V → Outcome V → Option ℕ
  given f gives = f.captured
  given f _ = none

  abbrev pub after_call : Function V → Outcome V → Function V
  after_call f gives = record f { captured = none }
  after_call f _ = f

  -- The function has been called, with the outcome `x`: it stays where it is until its result is
  -- delivered.
  abbrev pub finish_call : ℕ → Function V → Outcome V → Code (Store V) (Unit {0})
  finish_call p f x = do
    b ← deref p
    write p (record b { frame = task (some (after_call f x)) })
    log (ran p)
    begin (deliver p x (given f x) ∷ clean p ∷ [])

  -- `task_state::run`
  abbrev pub run_function : ℕ → Result V → Option (Function V) → Code (Store V) (Unit {0})
  run_function p a none = throw promise_already_satisfied
  run_function p a (some f) = finish_call p f (f.body a)

  abbrev pub run_frame : ℕ → Result V → Frame V → Code (Store V) (Unit {0})
  run_frame p a (task f) = run_function p a f
  run_frame p a _ = fault

  -- A second pointer, `state_ptr`, goes with the one of `get_state`.
  abbrev pub run_task : Result V → Option ℕ → Code (Store V) (Unit {0})
  run_task a none = pure tt
  run_task a (some p) = do
    share p
    begin (release p ∷ release p ∷ [])
    b ← deref p
    run_frame p a b.frame

  -- `operator()`. The arguments are a value, or anything for a function that has none.
  unfoldable pub call : PackagedTask → Result V → Code (Store V) (Unit {0})
  unfolding get_state
  call t a = do state ← get_state t; run_task a state

  -- `task_state::abandon`, with the pointer of the caller.
  abbrev pub abandon_task : Option ℕ → Code (Store V) (Unit {0})
  abandon_task none = pure tt
  abandon_task (some p) = do
    b ← deref p
    write p (record b { frame = clean_action b.frame })
    begin (frame_parts b.frame ++ give_up p ∷ release p ∷ [])

  abbrev pub task_parts : PackagedTask → List (Job V)
  task_parts (owning p) = release p ∷ []
  task_parts _ = []

  -- `~packaged_task`: the state is abandoned, and then the member `state_` ends.
  unfoldable pub destroy : PackagedTask → Code (Store V) (Unit {0})
  unfolding find_state
  destroy t = do begin (task_parts t); state ← find_state t; abandon_task state

  -- `operator=(packaged_task &&)`: what is left of the two tasks.
  unfoldable pub assign : PackagedTask → PackagedTask → Code (Store V) (PackagedTask × PackagedTask)
  unfolding find_state
  assign t rhs = do
    begin (task_parts t)
    state ← find_state t
    abandon_task state
    pure (rhs, empty)

  -- A task without arguments that an executor calls, and destroys afterwards.
  unfoldable pub call_posted : ℕ → Code (Store V) (Unit {0})
  unfolding call
  call_posted p = do begin (end_task p ∷ []); call (awaited p) (err no_state)

  abbrev pub post_task : Executor → ℕ → Code (Store V) (Unit {0})
  post_task inplace p s = call_posted p s
  post_task (queue k) p s = pure tt (record s { posted = s.posted ++ (k, packaged p) ∷ [] })

  -- `make_task`: the arguments are bound.
  abbrev pub bind_arguments : Function V → Result V → Function V
  bind_arguments f a = record { body = λ _. f.body a; captured = f.captured }

  unfoldable pub async : Executor → Function V → Result V → Code (Store V) Future
  unfolding make get_future call_posted
  async exec f a = do
    t ← make (bind_arguments f a)
    (p, t') ← get_future t
    post_task exec p
    pure (some p)
