-- ===== src/Machine/Settled/Promises.antt =====
-- The functions of bits/promise.h keep the invariant.
use portable_concurrency.Prelude.{
  subst, sym, inl, inr, Option-cases, ℕ, Option, none, some, [], ◌∷◌,
}
use portable_concurrency.Store.{Code, pure, Error, Store, Frame, release}
use portable_concurrency.Owners.{deref-none, deref-some, deref, begin, share, lock, make_shared}
use portable_concurrency.SharedState.{push, is_executed, emplace, outcome}
use portable_concurrency.SharedState
use portable_concurrency.Promise.{Promise, promise_parts, with_state, get_state}
use portable_concurrency.Promise
use portable_concurrency.Machine.System.{void}
use portable_concurrency.Machine.Settled.Defs.{Holds, Inv-jobs}
use portable_concurrency.Machine.Settled.Operations.{
  Keeps, bind-Keeps, share-Keeps, lock-Keeps, emplace-Keeps, set_exception-Keeps, abandon-Keeps,
  make_shared-Keeps,
}

module _ {V : Type 0} where
  pub pure-Keeps : {A : Type 0} (a : A) → Keeps (pure {S = Store V} a)
  pure-Keeps a s h = h

  pub void-Keeps : {A : Type 0} (m : Code (Store V) A) → Keeps m → Keeps (void m)
  void-Keeps m k = bind-Keeps m _ k (λ a s h. h)

  pub release-Keeps : (p : ℕ) → Keeps (begin {V = V} (release p ∷ []))
  release-Keeps p s h = Inv-jobs h (release p ∷ []) (tt, tt)

  pub deref-Keeps : (p : ℕ) → Keeps (deref {V = V} p)
  deref-Keeps p s h = elim (Option-cases (s.states p)) [
    | inl e ↦ subst (λ r. Holds r.1) (sym (deref-none p s e)) h
    | inr (b, e) ↦ subst (λ r. Holds r.1) (sym (deref-some p s b e)) h
  ]

  -- Promises.
  pub get_state-Keeps : (r : Promise) → Keeps (get_state {V = V} r)
  unfolding get_state
  get_state-Keeps Promise.empty s h = h
  get_state-Keeps (Promise.owning p) s h = bind-Keeps (share p) _ (share-Keeps p) (λ _ s h. h) s h
  get_state-Keeps (Promise.awaited p) s h = lock-Keeps p s h

  pub with_state-Keeps :
      (o : Option ℕ) (f : ℕ → Code (Store V) (Unit {0}))
      → ((p : ℕ) → Keeps (f p))
      → Keeps (with_state o f)
  with_state-Keeps none f k s h = h
  with_state-Keeps (some p) f k s h = k p _ (release-Keeps p s h)

  pub set_value-Keeps : (r : Promise) (v : V) → Keeps (Promise.set_value r v)
  unfolding Promise.set_value
  set_value-Keeps r v =
      bind-Keeps (get_state r) _ (get_state-Keeps r)
        (λ o. with_state-Keeps o (λ p. emplace p v) (λ p. emplace-Keeps p v))

  pub promise_exception-Keeps :
      (r : Promise) (e : Error) → Keeps (Promise.set_exception {V = V} r e)
  unfolding Promise.set_exception
  promise_exception-Keeps r e =
      bind-Keeps (get_state r) _ (get_state-Keeps r) (λ o.
        with_state-Keeps o (λ p. SharedState.set_exception p e) (λ p. set_exception-Keeps p e))

  pub get_future-Keeps : (r : Promise) → Keeps (Promise.get_future {V = V} r)
  unfolding Promise.get_future
  get_future-Keeps Promise.empty s h = h
  get_future-Keeps (Promise.owning p) s h =
      bind-Keeps (share p) _ (share-Keeps p) (λ _ t k. release-Keeps p t k) s h
  get_future-Keeps (Promise.awaited p) s h = h

  pub promise_abandon-Keeps : (r : Promise) → Keeps (Promise.abandon {V = V} r)
  unfolding Promise.abandon
  promise_abandon-Keeps Promise.empty s h = h
  promise_abandon-Keeps (Promise.owning p) s h = h
  promise_abandon-Keeps (Promise.awaited p) s h =
      bind-Keeps (lock p) _ (lock-Keeps p)
        (λ o. with_state-Keeps o SharedState.abandon abandon-Keeps) s h

  pub parts-Keeps : (r : Promise) → Keeps (begin {V = V} (promise_parts r))
  parts-Keeps Promise.empty s h = h
  parts-Keeps (Promise.owning p) s h = release-Keeps p s h
  parts-Keeps (Promise.awaited p) s h = h

  pub destroy-Keeps : (r : Promise) → Keeps (Promise.destroy {V = V} r)
  unfolding Promise.destroy
  destroy-Keeps r s h = promise_abandon-Keeps r _ (parts-Keeps r s h)

  pub assign-Keeps : (r q : Promise) → Keeps (Promise.assign {V = V} r q)
  unfolding Promise.assign
  assign-Keeps r q s h =
      bind-Keeps (Promise.abandon r) (λ _. pure (q, Promise.empty)) (promise_abandon-Keeps r)
        (λ _ t k. k) _ (parts-Keeps r s h)

  pub make_promise-Keeps : (f : Frame V) → Keeps (Promise.make_promise f)
  unfolding Promise.make_promise
  make_promise-Keeps f = bind-Keeps (make_shared f) _ (make_shared-Keeps f) (λ _ s h. h)

  pub make-Keeps : (f : Frame V) → Keeps (Promise.make f)
  unfolding Promise.make
  make-Keeps f = bind-Keeps (make_shared f) _ (make_shared-Keeps f) (λ _ s h. h)
