-- ===== src/Machine/Once/Promises.antt =====
-- The functions of bits/promise.h are free.
use portable_concurrency.Prelude.{ℕ, refl, Option, none, some, [], ◌∷◌, arith}
use portable_concurrency.Store.{
  Code, pure, ◌>>=◌, ◌>>◌, Error, Frame, release, Store, empty, waiting,
}
use portable_concurrency.Owners.{begin, share, lock, make_shared}
use portable_concurrency.SharedState.{push, is_executed, emplace, outcome}
use portable_concurrency.SharedState
use portable_concurrency.Promise.{Promise, promise_parts, with_state, get_state}
use portable_concurrency.Promise
use portable_concurrency.Machine.System.{void}
use portable_concurrency.Machine.Once.Tokens.{tokens-make}
use portable_concurrency.Machine.Once.Prices.{Costs, free-then, free-bind}
use portable_concurrency.Machine.Once.Operations.{
  share-Costs, lock-Costs, emplace-Costs, set_exception-Costs, abandon-Costs,
}
use portable_concurrency.Machine.Once.Steps.{nothing-Costs, release-Costs}

module _ {V : Type 0} (v : ℕ) where
  pub free-void : {A : Type 0} (m : Code (Store V) A) → Costs v 0 m → Costs v 0 (void m)
  free-void m c = free-bind v m (λ _. pure tt) c (λ _. nothing-Costs v 0 tt)

  pub free-pure :
      {A B : Type 0} (m : Code (Store V) A) (f : A → B)
      → Costs v 0 m
      → Costs v 0 (m >>= λ a. pure (f a))
  free-pure m f c = free-bind v m (λ a. pure (f a)) c (λ a. nothing-Costs v 0 (f a))

  pub make_shared-Costs : (f : Frame V) → Costs v 0 (make_shared f)
  unfolding make_shared
  make_shared-Costs f s h = record {
    low = λ p g. ground (arith, h p);
    fresh = omega arith;
    tokens = omega (
      arith,
      tokens-make v s
          (record { storage = empty; continuations = waiting []; frame = f; owners = 1 }) refl,
    );
  }

  -- Promises.
  get_state-Costs : (r : Promise) → Costs v 0 (get_state {V = V} r)
  unfolding get_state
  get_state-Costs Promise.empty = nothing-Costs v 0 tt
  get_state-Costs (Promise.owning p) = free-pure (share p) (λ _. some p) (share-Costs v p)
  get_state-Costs (Promise.awaited p) = lock-Costs v p

  with_state-Costs :
      (o : Option ℕ) (f : ℕ → Code (Store V) (Unit {0}))
      → ((p : ℕ) → Costs v 0 (f p))
      → Costs v 0 (with_state o f)
  with_state-Costs none f k = nothing-Costs v 0 tt
  with_state-Costs (some p) f k =
      free-bind v (begin (release p ∷ [])) (λ _. f p) (release-Costs v (release p ∷ []) refl)
        (λ _. k p)

  pub set_value-Costs : (r : Promise) (x : V) → Costs v 0 (Promise.set_value r x)
  unfolding Promise.set_value
  set_value-Costs r x =
      free-bind v (get_state r) _ (get_state-Costs r)
        (λ o. with_state-Costs o (λ p. emplace p x) (λ p. emplace-Costs v p x))

  pub promise_exception-Costs :
      (r : Promise) (e : Error) → Costs v 0 (Promise.set_exception {V = V} r e)
  unfolding Promise.set_exception
  promise_exception-Costs r e = free-bind v (get_state r) _ (get_state-Costs r) (λ o.
      with_state-Costs o (λ p. SharedState.set_exception p e) (λ p. set_exception-Costs v p e))

  -- A pointer that is copied, and one that is released.
  pub handed-Costs :
      {A : Type 0} (p : ℕ) (a : A)
      → Costs v 0 (share {V = V} p >>= λ _. begin (release p ∷ []) >> pure a)
  handed-Costs p a =
      free-bind v (share p) (λ _. begin (release p ∷ []) >> pure a) (share-Costs v p)
        (λ _. free-pure (begin (release p ∷ [])) (λ _. a) (release-Costs v (release p ∷ []) refl))

  pub get_future-Costs : (r : Promise) → Costs v 0 (Promise.get_future {V = V} r)
  unfolding Promise.get_future
  get_future-Costs Promise.empty = nothing-Costs v 0 tt
  get_future-Costs (Promise.awaited p) = nothing-Costs v 0 tt
  get_future-Costs (Promise.owning p) = handed-Costs p (p, Promise.awaited p)

  promise_abandon-Costs : (r : Promise) → Costs v 0 (Promise.abandon {V = V} r)
  unfolding Promise.abandon
  promise_abandon-Costs Promise.empty = nothing-Costs v 0 tt
  promise_abandon-Costs (Promise.owning p) = nothing-Costs v 0 tt
  promise_abandon-Costs (Promise.awaited p) =
      free-bind v (lock p) _ (lock-Costs v p)
        (λ o. with_state-Costs o SharedState.abandon (abandon-Costs v))

  parts-Costs : (r : Promise) → Costs v 0 (begin {V = V} (promise_parts r))
  parts-Costs Promise.empty = release-Costs v [] refl
  parts-Costs (Promise.owning p) = release-Costs v (release p ∷ []) refl
  parts-Costs (Promise.awaited p) = release-Costs v [] refl

  pub destroy-Costs : (r : Promise) → Costs v 0 (Promise.destroy {V = V} r)
  unfolding Promise.destroy
  destroy-Costs r =
      free-bind v (begin (promise_parts r)) (λ _. Promise.abandon r) (parts-Costs r)
        (λ _. promise_abandon-Costs r)

  pub assign-Costs : (r q : Promise) → Costs v 0 (Promise.assign {V = V} r q)
  unfolding Promise.assign
  assign-Costs r q s h =
      let a = parts-Costs r s h in
      free-then v s _ _ a
        (free-pure (Promise.abandon r) (λ _. (q, Promise.empty)) (promise_abandon-Costs r) _ a.low)

  pub make_promise-Costs : (f : Frame V) → Costs v 0 (Promise.make_promise f)
  unfolding Promise.make_promise
  make_promise-Costs f =
      free-pure (make_shared f) (λ p. (Promise.awaited p, p)) (make_shared-Costs f)

  pub make-Costs : (f : Frame V) → Costs v 0 (Promise.make f)
  unfolding Promise.make
  make-Costs f = free-pure (make_shared f) Promise.owning (make_shared-Costs f)
