-- ===== src/Store.antt =====
-- The objects behind futures and promises, their owners, and the calls that are under way: the
-- data of bits/shared_state.h, bits/future_state.h, bits/promise.h and bits/then.hpp, and what
-- std::shared_ptr and std::weak_ptr do with it.
mod Monad
pub use Monad.*
use portable_concurrency.Prelude.{
  ◌≡◌, ◌⊎◌, inl, inr, refl, ℕ, zero, suc, ◌+◌, ◌-◌, ◌==◌, if◌then◌else◌, Bool, true, false, Option,
  none, some, List, [], ◌∷◌, ◌++◌, map, update,
}

-- `either<monostate, state_storage_t<T>, shared_ptr<future_state<T>>, exception_ptr>`, the
-- `storage_` of a `shared_state`.
pub data Storage (V : Type 0) : Type 0 where
  empty : Storage V
  value : V → Storage V
  inner : ℕ → Storage V
  failure : Error → Storage V

-- `inplace_executor`, or an executor of the user.
pub data Executor : Type 0 where
  inplace : Executor
  queue : ℕ → Executor

-- The callables that the library pushes as continuations. The number is a state: a strong pointer
-- to it in `hold`, a weak one in `forward` and `schedule`.
pub data Continuation : Type 0 where
  notify : ℕ → Continuation  -- a function of the user
  notify_on : Executor → ℕ → Continuation  -- the lambda of `notify` with an executor
  forward : ℕ → Continuation  -- of `shared_state::unwrap`
  schedule : ℕ → Continuation  -- of `make_then_state`
  hold : ℕ → Continuation  -- of `future::detach`

-- `continuations_stack`, as it looks to one thread: the list, newest first, or consumed.
pub data Continuations : Type 0 where
  waiting : List Continuation → Continuations
  executed : Continuations

-- What a user's function makes of its argument. `gives` returns the future that it has captured.
pub data Outcome (V : Type 0) : Type 0 where
  returns : V → Outcome V
  throws : Error → Outcome V
  gives : Outcome V

pub record Function (V : Type 0) : Type 0 where
  pub body : Result V → Outcome V
  pub captured : Option ℕ

-- What a user's function does with a promise that it is handed: it gives it a result, it leaves it
-- to the destructor, or it moves it away.
pub data Handling (V : Type 0) : Type 0 where
  fulfils : Result V → Handling V
  leaves : Handling V
  keeps : Handling V

pub record Handler (V : Type 0) : Type 0 where
  pub body : Result V → Handling V
  pub captured : Option ℕ

-- The functors of `decorate_unique_then` and its kin, and of the interruptible `then`, with the
-- parent's state.
pub data Action (V : Type 0) : Type 0 where
  then_action : Function V → ℕ → Action V
  next_action : Function V → ℕ → Action V
  promise_action : Handler V → ℕ → Action V

-- What stands beside the `shared_state` in its allocation: nothing, the `F cancel_action` of
-- `cancellable_state`, the fields of `cnt_state`, or the `func` of `task_state`.
pub data Frame (V : Type 0) : Type 0 where
  plain : Frame V
  cancellable : ℕ → Frame V
  continuation : Option Executor → Option (Action V) → Frame V
  task : Option (Function V) → Frame V

pub record State (V : Type 0) : Type 0 where
  pub storage : Storage V
  pub continuations : Continuations
  pub frame : Frame V
  pub owners : ℕ

-- What is still to be done by the calls that are under way, the innermost first.
pub data Job (V : Type 0) : Type 0 where
  call : Continuation → Job V
  destroy : Continuation → Job V
  release : ℕ → Job V
  run : ℕ → Job V  -- `cnt_action::operator()`, with its weak pointer
  deliver : ℕ → Outcome V → Option ℕ → Job V  -- the end of `set_state_value`
  clean : ℕ → Job V  -- the end of `cnt_state::abandon`, and of `task_state::run`
  give_up : ℕ → Job V  -- the end of `task_state::abandon`
  end_task : ℕ → Job V  -- the destructor of a `packaged_task` that has given its future away
  interrupt : ℕ → Handler V → ℕ → Job V  -- the call of an interruptible continuation's function
  settle : ℕ → Result V → Job V  -- what it does to its promise
  end_promise : ℕ → Job V  -- the destructor of that promise

-- What an executor of the user holds: a `cnt_action` or a `packaged_task`, with the weak pointer, or
-- a function of the user.
pub data Posted : Type 0 where
  scheduled : ℕ → Posted
  packaged : ℕ → Posted
  notification : ℕ → Posted

-- What the user's code sees.
pub data Seen : Type 0 where
  notified : ℕ → Seen
  applied : ℕ → Seen  -- the function of the continuation with this state is called
  ran : ℕ → Seen  -- the function of the packaged task with this state is called
  canceled : ℕ → Seen

pub record Store (V : Type 0) : Type 0 where
  pub states : ℕ → Option (State V)
  pub fresh : ℕ
  pub jobs : List (Job V)
  pub posted : List (ℕ × Posted)  -- with the number of the executor
  pub seen : List Seen

pub Continuations-cases :
    (k : Continuations) → (k ≡ executed) ⊎ ((cs : List Continuation) × (k ≡ waiting cs))
Continuations-cases executed = inl refl
Continuations-cases (waiting cs) = inr (cs, refl)
