-- ===== src/Then.antt =====
-- bits/then.hpp and set_state_value of bits/utils.h: continuations with a result of their own.
use portable_concurrency.Prelude.{ℕ, suc, Option, none, some, [], ◌∷◌, ◌++◌}
use portable_concurrency.Store.{
  task, scheduled, Code, pure, fault, done, ◌>>=◌, ◌>>◌, Result, ok, err, Store, Frame,
  continuation, schedule, release, applied, run, deliver, clean, Outcome, returns, throws, gives,
  Function, Action, then_action, next_action, promise_action, interrupt, Executor, inplace, queue,
}
use portable_concurrency.Owners.{
  deref, write, begin, log, share, lock, make_shared, release_option, frame_parts,
}
use portable_concurrency.SharedState.{push, emplace, set_exception, unwrap, read_result}
use portable_concurrency.SharedState
use portable_concurrency.Future.{Future, state_of}

module _ {V : Type 0} where
  abbrev pub frame_action : Frame V → Option (Action V)
  frame_action (continuation exec action) = action
  frame_action _ = none

  abbrev pub frame_executor : Frame V → Option Executor
  frame_executor (continuation exec action) = exec
  frame_executor _ = none

  abbrev pub clean_action : Frame V → Frame V
  clean_action (continuation exec action) = continuation exec none
  clean_action (task f) = task none
  clean_action f = f

  abbrev pub clean_executor : Frame V → Frame V
  clean_executor (continuation exec action) = continuation none action
  clean_executor f = f

  -- `make_then_state`: the result's state, which the caller owns. The parent knows it weakly.
  unfoldable pub make_then_state : ℕ → Executor → Action V → Code (Store V) ℕ
  make_then_state parent exec action = do
    p ← make_shared (continuation (some exec) (some action))
    push parent (schedule p)
    pure p

  -- `future::then` and `future::next` with an executor: the parent's pointer moves into the action.
  unfoldable pub attach_then : Future → Executor → Function V → Code (Store V) Future
  attach_then f exec g = do
    p ← state_of f
    r ← make_then_state p exec (then_action g p)
    pure (some r)

  unfoldable pub attach_next : Future → Executor → Function V → Code (Store V) Future
  attach_next f exec g = do
    p ← state_of f
    r ← make_then_state p exec (next_action g p)
    pure (some r)

  -- Those of `shared_future`: the action has a pointer of its own.
  unfoldable pub attach_shared_then : Future → Executor → Function V → Code (Store V) Future
  attach_shared_then f exec g = do
    p ← state_of f
    share p
    r ← make_then_state p exec (then_action g p)
    pure (some r)

  unfoldable pub attach_shared_next : Future → Executor → Function V → Code (Store V) Future
  attach_shared_next f exec g = do
    p ← state_of f
    share p
    r ← make_then_state p exec (next_action g p)
    pure (some r)

  abbrev pub post : Executor → ℕ → Code (Store V) (Unit {0})
  post inplace w s = (done tt, record s { jobs = run w ∷ s.jobs })
  post (queue k) w s = (done tt, record s { posted = s.posted ++ (k, scheduled w) ∷ [] })

  abbrev pub post_option : Option Executor → ℕ → Code (Store V) (Unit {0})
  post_option none w = fault
  post_option (some e) w = post e w

  -- `cnt_state::schedule`: moves the executor out and posts the action; its own pointer is gone
  -- before it posts.
  abbrev pub schedule_state : Option ℕ → Code (Store V) (Unit {0})
  schedule_state none = pure tt
  schedule_state (some w) = do
    b ← deref w
    write w (record b { frame = clean_executor b.frame })
    post_option (frame_executor b.frame) w
    begin (release w ∷ [])

  unfoldable pub schedule_weak : ℕ → Code (Store V) (Unit {0})
  schedule_weak w = do state ← lock w; schedule_state state

  abbrev pub result_of : ℕ → Code (Store V) (Result V)
  result_of p s = read_result (suc s.fresh) p s

  -- `if (auto error = parent->exception())`, and what follows it.
  abbrev pub apply_next : Function V → ℕ → ℕ → Result V → Code (Store V) (Unit {0})
  apply_next f parent w (ok v) = do
    log (applied w)
    begin (deliver w (f.body (ok v)) f.captured ∷ release w ∷ release parent ∷ [])
  apply_next f parent w (err e) = do
    begin (release w ∷ release parent ∷ release_option f.captured)
    set_exception w e

  -- The functor, with the result's state: `decorate_unique_then`, which hands the future to `f`,
  -- `decorate_unique_next`, which hands the value on, or the error past `f`, and the interruptible
  -- one, which makes a promise of the pointer, a weak one, before it calls `f`.
  unfoldable pub apply : Action V → ℕ → Code (Store V) (Unit {0})
  apply (then_action f parent) w = do
    r ← result_of parent
    log (applied w)
    begin (release parent ∷ deliver w (f.body r) f.captured ∷ release w ∷ [])
  apply (next_action f parent) w = do r ← result_of parent; apply_next f parent w r
  apply (promise_action f parent) w = begin (release w ∷ interrupt w f parent ∷ [])

  abbrev pub apply_option : Option (Action V) → ℕ → Code (Store V) (Unit {0})
  apply_option none w = fault
  apply_option (some a) w = apply a w

  abbrev pub run_state : Option ℕ → Code (Store V) (Unit {0})
  run_state none = pure tt
  run_state (some w) = do
    b ← deref w
    write w (record b { frame = clean_action b.frame })
    apply_option (frame_action b.frame) w

  -- `cnt_state::run`
  unfoldable pub run_weak : ℕ → Code (Store V) (Unit {0})
  run_weak w = do state ← lock w; run_state state

  -- `set_state_value`, once the function has ended: its result goes into the state.
  unfoldable pub set_state_value : ℕ → Outcome V → Option ℕ → Code (Store V) (Unit {0})
  set_state_value w (returns v) captured = do begin (release_option captured); emplace w v
  set_state_value w (throws e) captured = do begin (release_option captured); set_exception w e
  set_state_value w gives captured = do begin (release_option captured); unwrap w captured

  -- `cnt_state::abandon`: `state.abandon()`, and once its continuations have been called,
  -- `action.clean()`.
  abbrev pub abandon_state : Option ℕ → Code (Store V) (Unit {0})
  abandon_state none = pure tt
  abandon_state (some w) = do begin (clean w ∷ release w ∷ []); SharedState.abandon w

  -- `~cnt_action`, for an action that an executor destroys without having called it.
  unfoldable pub abandon_weak : ℕ → Code (Store V) (Unit {0})
  abandon_weak w = do state ← lock w; abandon_state state

  unfoldable pub clean_state : ℕ → Code (Store V) (Unit {0})
  clean_state w = do
    b ← deref w
    write w (record b { frame = clean_action b.frame })
    begin (frame_parts b.frame)
