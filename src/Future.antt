-- ===== src/Future.antt =====
-- bits/future.hpp, bits/shared_future.hpp and the free functions over them in
-- bits/portable_concurrency.cpp and bits/make_future.h. A future is the pointer in its `state_`.
use portable_concurrency.Prelude.{ℕ, suc, Bool, true, false, Option, none, some, [], ◌∷◌}
use portable_concurrency.Store.{
  Code, pure, throw, fault, ◌>>=◌, ◌>>◌, Error, Result, ok, err, no_state, Store, plain, notify,
  notify_on, Executor, hold, release,
}
use portable_concurrency.Owners.{deref, begin, share}
use portable_concurrency.SharedState.{push, is_executed, read_result}
use portable_concurrency.Promise

abbrev pub Future : Type 0
Future = Option ℕ

abbrev pub valid : Future → Bool
valid none = false
valid (some p) = true

-- A move, `share()`, and a shared_future that is made of a future: the pointer, and what is left.
abbrev pub move : Future → Future × Future
move f = (f, none)

module _ {V : Type 0} where
  -- `if (!state_) throw_no_state();`
  abbrev pub state_of : Future → Code (Store V) ℕ
  state_of none = throw no_state
  state_of (some p) = pure p

  unfoldable pub is_ready : Future → Code (Store V) Bool
  is_ready f = do p ← state_of f; b ← deref p; pure (is_executed b.continuations)

  -- `notify(f)`
  unfoldable pub add_notification : Future → ℕ → Code (Store V) (Unit {0})
  add_notification f n = do p ← state_of f; push p (notify n)

  -- `notify(exec, f)`
  unfoldable pub add_notification_on : Future → Executor → ℕ → Code (Store V) (Unit {0})
  add_notification_on f exec n = do p ← state_of f; push p (notify_on exec n)

  -- `detach()`: the state holds itself until its continuations have been called.
  unfoldable pub detach : Future → Code (Store V) Future
  detach f = do p ← state_of f; share p; push p (hold p); pure (some p)

  abbrev pub value_of : Result V → Code (Store V) V
  value_of (ok v) = pure v
  value_of (err e) = throw e

  -- `value_ref()` of a state whose continuations are executed.
  abbrev pub value_ref : ℕ → Code (Store V) V
  value_ref p s = (do r ← read_result (suc s.fresh) p; value_of r) s

  abbrev pub require : Bool → Code (Store V) (Unit {0})
  require true = pure tt
  require false = fault

  -- `future::get` after `wait` has returned. The state is released whether it throws or not.
  unfoldable pub get : Future → Code (Store V) V
  get f = do
    p ← state_of f
    b ← deref p
    require (is_executed b.continuations)
    begin (release p ∷ [])
    value_ref p

  -- `shared_future::get` after `wait` has returned.
  unfoldable pub get_shared : Future → Code (Store V) V
  get_shared f = do p ← state_of f; b ← deref p; require (is_executed b.continuations); value_ref p

  -- A copy of a shared_future.
  unfoldable pub copy : Future → Code (Store V) Future
  copy none = pure none
  copy (some p) = do share p; pure (some p)

  -- The destructor of either.
  unfoldable pub destroy : Future → Code (Store V) (Unit {0})
  destroy none = pure tt
  destroy (some p) = begin (release p ∷ [])

  -- `operator=(future &&)`, and that of a shared_future: what is left of the two.
  unfoldable pub assign : Future → Future → Code (Store V) (Future × Future)
  assign f rhs = do destroy f; pure (move rhs)

  -- `operator=(const shared_future &)`: the copy is made before the old pointer ends.
  unfoldable pub copy_assign : Future → Future → Code (Store V) Future
  copy_assign f rhs = do g ← copy rhs; destroy f; pure g

  unfoldable pub make_ready_future : V → Code (Store V) Future
  make_ready_future v = do
    (r, p) ← Promise.make_promise plain
    Promise.set_value r v
    Promise.destroy r
    pure (some p)

  unfoldable pub make_exceptional_future : Error → Code (Store V) Future
  make_exceptional_future e = do
    r ← Promise.make plain
    Promise.set_exception r e
    (p, r') ← Promise.get_future r
    Promise.destroy r'
    pure (some p)
