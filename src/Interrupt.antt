-- ===== src/Interrupt.antt =====
-- The interruptible `then` of bits/future.hpp and bits/shared_future.hpp: a continuation that is
-- handed the promise of its result.
use portable_concurrency.Prelude.{ℕ, some, List, [], ◌∷◌, ◌++◌}
use portable_concurrency.Store.{
  Code, pure, ◌>>=◌, ◌>>◌, Result, ok, err, Store, Job, release, applied, Handling, fulfils, leaves,
  keeps, Handler, promise_action, Executor, settle, end_promise,
}
use portable_concurrency.Owners.{begin, log, release_option}
use portable_concurrency.Promise.{awaited}
use portable_concurrency.Promise
use portable_concurrency.Future.{Future, state_of}
use portable_concurrency.Then.{make_then_state, result_of}

module _ {V : Type 0} where
  -- `future::then` with a function that takes a promise.
  unfoldable pub attach_interruptible : Future → Executor → Handler V → Code (Store V) Future
  attach_interruptible f exec g = do
    p ← state_of f
    r ← make_then_state p exec (promise_action g p)
    pure (some r)

  -- That of `shared_future`. Unlike the other continuations of a shared_future it moves the pointer
  -- into the action: the shared_future is not valid afterwards.
  unfoldable pub attach_shared_interruptible : Future → Executor → Handler V → Code (Store V) Future
  attach_shared_interruptible f exec g = do
    p ← state_of f
    r ← make_then_state p exec (promise_action g p)
    pure (some r)

  -- What the function does to the promise, and the promise's end unless it has been moved away.
  abbrev pub handling_jobs : ℕ → Handling V → List (Job V)
  handling_jobs w (fulfils r) = settle w r ∷ end_promise w ∷ []
  handling_jobs w leaves = end_promise w ∷ []
  handling_jobs w keeps = []

  -- `invoke(f, std::move(p), future<T>{std::move(parent)})`. The future that the function is handed
  -- ends with the call.
  unfoldable pub interrupt_state : ℕ → Handler V → ℕ → Code (Store V) (Unit {0})
  interrupt_state w f parent = do
    r ← result_of parent
    log (applied w)
    begin (handling_jobs w (f.body r) ++ release parent ∷ release_option f.captured)

  unfoldable pub settle_promise : ℕ → Result V → Code (Store V) (Unit {0})
  settle_promise w (ok v) = Promise.set_value (awaited w) v
  settle_promise w (err e) = Promise.set_exception (awaited w) e
