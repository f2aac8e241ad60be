-- ===== src/Promise.antt =====
-- bits/promise.h: `promise_common` and the functions around it.
use portable_concurrency.Prelude.{ℕ, Bool, true, false, Option, none, some, List, [], ◌∷◌}
use portable_concurrency.Store.{
  Code, pure, throw, done, thrown, ◌>>=◌, ◌>>◌, Error, no_state, future_already_retrieved, Job,
  Store, Frame, release,
}
use portable_concurrency.Owners.{begin, make_shared, share, lock}
use portable_concurrency.SharedState.{emplace}
use portable_concurrency.SharedState

-- `either<monostate, shared_ptr<shared_state<T>>, weak_ptr<shared_state<T>>>`
pub data Promise : Type 0 where
  empty : Promise
  owning : ℕ → Promise
  awaited : ℕ → Promise

module _ {V : Type 0} where
  -- `promise_common()` and, with a frame, `promise_common(canceler_arg_t, F)`.
  unfoldable pub make : Frame V → Code (Store V) Promise
  make f = do p ← make_shared f; pure (owning p)

  -- A shared_ptr of its own, null if the state is gone.
  unfoldable pub get_state : Promise → Code (Store V) (Option ℕ)
  get_state empty = throw no_state
  get_state (owning p) = do share p; pure (some p)
  get_state (awaited p) = lock p

  -- What `set_value` and `set_exception` do with the state that is there.
  abbrev pub with_state : Option ℕ → (ℕ → Code (Store V) (Unit {0})) → Code (Store V) (Unit {0})
  with_state none f = pure tt
  with_state (some p) f = do begin (release p ∷ []); f p

  unfoldable pub set_value : Promise → V → Code (Store V) (Unit {0})
  set_value r v = do state ← get_state r; with_state state (λ p. emplace p v)

  unfoldable pub set_exception : Promise → Error → Code (Store V) (Unit {0})
  set_exception r e = do state ← get_state r; with_state state (λ p. SharedState.set_exception p e)

  -- The future, and what is left of the promise: it gives up its ownership.
  unfoldable pub get_future : Promise → Code (Store V) (ℕ × Promise)
  get_future (awaited p) = throw future_already_retrieved
  get_future empty = throw no_state
  get_future (owning p) = do share p; begin (release p ∷ []); pure (p, awaited p)

  unfoldable pub is_awaiten : Promise → Code (Store V) Bool
  is_awaiten empty s = (thrown no_state, s)
  is_awaiten (owning p) s = (done true, s)
  is_awaiten (awaited p) s = elim (s.states p) [ none ↦ (done false, s) | some b ↦ (done true, s) ]

  -- `abandon`, which the destructor and the move assignment call.
  unfoldable pub abandon : Promise → Code (Store V) (Unit {0})
  abandon empty = pure tt
  abandon (owning p) = pure tt
  abandon (awaited p) = do state ← lock p; with_state state SharedState.abandon

  abbrev pub promise_parts : Promise → List (Job V)
  promise_parts (owning p) = release p ∷ []
  promise_parts _ = []

  -- `~promise_common`: `abandon`, and then the member `state_`.
  unfoldable pub destroy : Promise → Code (Store V) (Unit {0})
  destroy r = do begin (promise_parts r); abandon r

  -- `operator=(promise_common &&)`: what is left of the two promises.
  unfoldable pub assign : Promise → Promise → Code (Store V) (Promise × Promise)
  assign r rhs = do begin (promise_parts r); abandon r; pure (rhs, empty)

  -- `make_promise`
  unfoldable pub make_promise : Frame V → Code (Store V) (Promise × ℕ)
  make_promise f = do p ← make_shared f; pure (awaited p, p)
