-- ===== src/Machine/Settled/Futures.antt =====
-- Those of both futures and of bits/make_future.h do.
use portable_concurrency.Prelude.{ℕ, suc, Bool, true, false, none, some, [], ◌∷◌}
use portable_concurrency.Store.{
  and_then, Code, pure, ◌>>=◌, ◌>>◌, Error, Result, ok, err, Store, plain, notify, notify_on,
  Executor, hold, release,
}
use portable_concurrency.Owners.{begin, share}
use portable_concurrency.SharedState.{push, is_executed, read_result-ends}
use portable_concurrency.Promise.{Promise, promise_parts, with_state, get_state}
use portable_concurrency.Promise
use portable_concurrency.Future.{Future, state_of, require, value_ref, value_of}
use portable_concurrency.Future
use portable_concurrency.Machine.Settled.Defs.{Holds}
use portable_concurrency.Machine.Settled.Operations.{
  Keeps, bind-Keeps, deref-Holds, share-Keeps, push-Holds,
}
use portable_concurrency.Machine.Settled.Promises.{
  release-Keeps, set_value-Keeps, promise_exception-Keeps, get_future-Keeps, destroy-Keeps,
  make_promise-Keeps, make-Keeps,
}

module _ {V : Type 0} where
  -- Futures.
  pub state_of-Keeps : (f : Future) → Keeps (state_of {V = V} f)
  state_of-Keeps none s h = h
  state_of-Keeps (some p) s h = h

  pub is_ready-Keeps : (f : Future) → Keeps (Future.is_ready {V = V} f)
  unfolding Future.is_ready
  is_ready-Keeps f =
      bind-Keeps (state_of f) _ (state_of-Keeps f) (λ p s h. deref-Holds p _ s h (λ b e. h))

  pub add_notification-Keeps : (f : Future) (n : ℕ) → Keeps (Future.add_notification {V = V} f n)
  unfolding Future.add_notification
  add_notification-Keeps f n =
      bind-Keeps (state_of f) (λ p. push p (notify n)) (state_of-Keeps f)
        (λ p s h. push-Holds p (notify n) s tt h)

  pub add_notification_on-Keeps :
      (f : Future) (x : Executor) (n : ℕ) → Keeps (Future.add_notification_on {V = V} f x n)
  unfolding Future.add_notification_on
  add_notification_on-Keeps f x n =
      bind-Keeps (state_of f) (λ p. push p (notify_on x n)) (state_of-Keeps f)
        (λ p s h. push-Holds p (notify_on x n) s tt h)

  pub detach-Keeps : (f : Future) → Keeps (Future.detach {V = V} f)
  unfolding Future.detach
  detach-Keeps none s h = h
  detach-Keeps (some p) s h =
      bind-Keeps (share p) (λ _. push p (hold p) >> pure (some p)) (share-Keeps p)
        (λ _.
          bind-Keeps (push p (hold p)) (λ _. pure (some p)) (λ t k. push-Holds p (hold p) t tt k)
            (λ _ t k. k))
        s h

  pub require-Keeps : (b : Bool) → Keeps (require {V = V} b)
  require-Keeps true s h = h
  require-Keeps false s h = h

  pub value_of-Keeps : (r : Result V) → Keeps (value_of r)
  value_of-Keeps (ok v) s h = h
  value_of-Keeps (err e) s h = h

  pub value_ref-Keeps : (p : ℕ) → Keeps (value_ref {V = V} p)
  value_ref-Keeps p s h =
      read_result-ends (λ x. Holds (and_then x value_of).1) s (suc s.fresh) p
        (λ r. value_of-Keeps r s h) h (λ q. h)

  pub get-Keeps : (f : Future) → Keeps (Future.get {V = V} f)
  unfolding Future.get
  get-Keeps none s h = h
  get-Keeps (some p) s h = deref-Holds p _ s h λ b e.
      bind-Keeps (require (is_executed b.continuations))
        (λ _. begin (release p ∷ []) >> value_ref p) (require-Keeps (is_executed b.continuations))
        (λ _ t k. value_ref-Keeps p _ (release-Keeps p t k)) s h

  pub get_shared-Keeps : (f : Future) → Keeps (Future.get_shared {V = V} f)
  unfolding Future.get_shared
  get_shared-Keeps none s h = h
  get_shared-Keeps (some p) s h = deref-Holds p _ s h λ b e.
      bind-Keeps (require (is_executed b.continuations)) (λ _. value_ref p)
        (require-Keeps (is_executed b.continuations)) (λ _. value_ref-Keeps p) s h

  pub copy-Keeps : (f : Future) → Keeps (Future.copy {V = V} f)
  unfolding Future.copy
  copy-Keeps none s h = h
  copy-Keeps (some p) s h =
      bind-Keeps (share p) (λ _. pure (some p)) (share-Keeps p) (λ _ t k. k) s h

  pub destroy_future-Keeps : (f : Future) → Keeps (Future.destroy {V = V} f)
  unfolding Future.destroy
  destroy_future-Keeps none s h = h
  destroy_future-Keeps (some p) s h = release-Keeps p s h

  pub assign_future-Keeps : (f g : Future) → Keeps (Future.assign {V = V} f g)
  unfolding Future.assign
  assign_future-Keeps f g =
      bind-Keeps (Future.destroy f) (λ _. pure (g, none)) (destroy_future-Keeps f) (λ _ t k. k)

  pub copy_assign-Keeps : (f g : Future) → Keeps (Future.copy_assign {V = V} f g)
  unfolding Future.copy_assign
  copy_assign-Keeps f g =
      bind-Keeps (Future.copy g) (λ r. Future.destroy f >> pure r) (copy-Keeps g)
        (λ r. bind-Keeps (Future.destroy f) (λ _. pure r) (destroy_future-Keeps f) (λ _ t k. k))

  pub make_ready-Keeps : (v : V) → Keeps (Future.make_ready_future v)
  unfolding Future.make_ready_future
  make_ready-Keeps v =
      bind-Keeps (Promise.make_promise plain)
        (λ x. Promise.set_value x.0 v >> (Promise.destroy x.0 >> pure (some x.1)))
        (make_promise-Keeps plain)
        (λ x.
          bind-Keeps (Promise.set_value x.0 v) (λ _. Promise.destroy x.0 >> pure (some x.1))
            (set_value-Keeps x.0 v)
            (λ _.
              bind-Keeps (Promise.destroy x.0) (λ _. pure (some x.1)) (destroy-Keeps x.0)
                (λ _ t k. k)))

  pub make_exceptional-Keeps : (e : Error) → Keeps (Future.make_exceptional_future {V = V} e)
  unfolding Future.make_exceptional_future
  make_exceptional-Keeps e =
      bind-Keeps (Promise.make plain) (λ r. Promise.set_exception r e >> taken r) (make-Keeps plain)
        (λ r.
          bind-Keeps (Promise.set_exception r e) (λ _. taken r) (promise_exception-Keeps r e)
            (λ _.
              bind-Keeps (Promise.get_future r) (λ y. Promise.destroy y.1 >> pure (some y.0))
                (get_future-Keeps r)
                (λ y.
                  bind-Keeps (Promise.destroy y.1) (λ _. pure (some y.0)) (destroy-Keeps y.1)
                    (λ _ t k. k))))
    where
      taken : Promise → Code (Store V) Future
      taken r = Promise.get_future r >>= λ y. Promise.destroy y.1 >> pure (some y.0)
