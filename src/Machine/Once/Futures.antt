-- ===== src/Machine/Once/Futures.antt =====
-- Those of both futures, of bits/make_future.h, and of bits/then.hpp are: a continuation is pushed
-- with an address that is new.
use portable_concurrency.Prelude.{ℕ, suc, refl, Bool, true, false, none, some, [], ◌∷◌, arith}
use portable_concurrency.Store.{
  and_then, Code, pure, ◌>>=◌, ◌>>◌, Error, Result, ok, err, Function, Frame, plain, continuation,
  Action, then_action, next_action, promise_action, Handler, Executor, notify, notify_on, hold,
  schedule, release, Store, empty, waiting,
}
use portable_concurrency.Owners.{begin, share, make_shared}
use portable_concurrency.SharedState.{push, is_executed, read_result-ends}
use portable_concurrency.Promise.{Promise}
use portable_concurrency.Promise
use portable_concurrency.Future.{Future, state_of, require, value_ref, value_of}
use portable_concurrency.Future
use portable_concurrency.Then.{
  make_then_state, attach_then, attach_next, attach_shared_then, attach_shared_next,
}
use portable_concurrency.Interrupt.{attach_interruptible, attach_shared_interruptible}
use portable_concurrency.Machine.Once.Tokens.{news-first, tokens-make, in_continuation}
use portable_concurrency.Machine.Once.Prices.{
  Low, Adds, Costs, nothing-Adds, bind-Costs, free-bind, deref-Adds,
}
use portable_concurrency.Machine.Once.Operations.{share-Costs, push-Costs}
use portable_concurrency.Machine.Once.Steps.{nothing-Costs, release-Costs}
use portable_concurrency.Machine.Once.Promises.{
  free-pure, make_shared-Costs, set_value-Costs, promise_exception-Costs, get_future-Costs,
  destroy-Costs, make_promise-Costs, make-Costs,
}

module _ {V : Type 0} (v : ℕ) where
  -- Futures.
  state_of-Costs : (f : Future) → Costs v 0 (state_of {V = V} f)
  state_of-Costs none = nothing-Costs v 0 tt
  state_of-Costs (some p) = nothing-Costs v 0 p

  pub is_ready-Costs : (f : Future) → Costs v 0 (Future.is_ready {V = V} f)
  unfolding Future.is_ready
  is_ready-Costs f =
      free-bind v (state_of f) _ (state_of-Costs f)
        (λ p s h. deref-Adds v 0 p _ s h (λ b e. nothing-Adds v 0 s h))

  pub add_notification-Costs :
      (f : Future) (n : ℕ) → Costs v 0 (Future.add_notification {V = V} f n)
  unfolding Future.add_notification
  add_notification-Costs f n =
      free-bind v (state_of f) (λ p. push p (notify n)) (state_of-Costs f)
        (λ p. push-Costs v p (notify n))

  pub add_notification_on-Costs :
      (f : Future) (x : Executor) (n : ℕ) → Costs v 0 (Future.add_notification_on {V = V} f x n)
  unfolding Future.add_notification_on
  add_notification_on-Costs f x n =
      free-bind v (state_of f) (λ p. push p (notify_on x n)) (state_of-Costs f)
        (λ p. push-Costs v p (notify_on x n))

  pub detach-Costs : (f : Future) → Costs v 0 (Future.detach {V = V} f)
  unfolding Future.detach
  detach-Costs none = nothing-Costs v 0 tt
  detach-Costs (some p) =
      free-bind v (share p) (λ _. push p (hold p) >> pure (some p)) (share-Costs v p)
        (λ _. free-pure v (push p (hold p)) (λ _. some p) (push-Costs v p (hold p)))

  require-Costs : (b : Bool) → Costs v 0 (require {V = V} b)
  require-Costs true = nothing-Costs v 0 tt
  require-Costs false = nothing-Costs v 0 tt

  value_of-Costs : (r : Result V) → Costs v 0 (value_of r)
  value_of-Costs (ok w) s h = nothing-Adds v 0 s h
  value_of-Costs (err e) s h = nothing-Adds v 0 s h

  value_ref-Costs : (p : ℕ) → Costs v 0 (value_ref {V = V} p)
  value_ref-Costs p s h =
      read_result-ends (λ x. Adds v 0 s (and_then x value_of).1) s (suc s.fresh) p
        (λ r. value_of-Costs r s h) (nothing-Adds v 0 s h) (λ q. nothing-Adds v 0 s h)

  pub get-Costs : (f : Future) → Costs v 0 (Future.get {V = V} f)
  unfolding Future.get
  get-Costs none s h = nothing-Adds v 0 s h
  get-Costs (some p) s h = deref-Adds v 0 p _ s h λ b e.
      free-bind v (require (is_executed b.continuations))
        (λ _. begin (release p ∷ []) >> value_ref p) (require-Costs (is_executed b.continuations))
        (λ _.
          free-bind v (begin (release p ∷ [])) (λ _. value_ref p)
            (release-Costs v (release p ∷ []) refl) (λ _. value_ref-Costs p))
        s h

  pub get_shared-Costs : (f : Future) → Costs v 0 (Future.get_shared {V = V} f)
  unfolding Future.get_shared
  get_shared-Costs none s h = nothing-Adds v 0 s h
  get_shared-Costs (some p) s h = deref-Adds v 0 p _ s h λ b e.
      free-bind v (require (is_executed b.continuations)) (λ _. value_ref p)
        (require-Costs (is_executed b.continuations)) (λ _. value_ref-Costs p) s h

  pub copy-Costs : (f : Future) → Costs v 0 (Future.copy {V = V} f)
  unfolding Future.copy
  copy-Costs none = nothing-Costs v 0 tt
  copy-Costs (some p) = free-pure v (share p) (λ _. some p) (share-Costs v p)

  pub destroy_future-Costs : (f : Future) → Costs v 0 (Future.destroy {V = V} f)
  unfolding Future.destroy
  destroy_future-Costs none = nothing-Costs v 0 tt
  destroy_future-Costs (some p) = release-Costs v (release p ∷ []) refl

  pub assign_future-Costs : (f g : Future) → Costs v 0 (Future.assign {V = V} f g)
  unfolding Future.assign
  assign_future-Costs f g = free-pure v (Future.destroy f) (λ _. (g, none)) (destroy_future-Costs f)

  pub copy_assign-Costs : (f g : Future) → Costs v 0 (Future.copy_assign {V = V} f g)
  unfolding Future.copy_assign
  copy_assign-Costs f g =
      free-bind v (Future.copy g) (λ r. Future.destroy f >> pure r) (copy-Costs g)
        (λ r. free-pure v (Future.destroy f) (λ _. r) (destroy_future-Costs f))

  pub make_ready-Costs : (x : V) → Costs v 0 (Future.make_ready_future x)
  unfolding Future.make_ready_future
  make_ready-Costs x =
      free-bind v (Promise.make_promise plain)
        (λ y. Promise.set_value y.0 x >> (Promise.destroy y.0 >> pure (some y.1)))
        (make_promise-Costs v plain)
        (λ y.
          free-bind v (Promise.set_value y.0 x) (λ _. Promise.destroy y.0 >> pure (some y.1))
            (set_value-Costs v y.0 x)
            (λ _. free-pure v (Promise.destroy y.0) (λ _. some y.1) (destroy-Costs v y.0)))

  pub make_exceptional-Costs : (e : Error) → Costs v 0 (Future.make_exceptional_future {V = V} e)
  unfolding Future.make_exceptional_future
  make_exceptional-Costs e =
      free-bind v (Promise.make plain) (λ r. Promise.set_exception r e >> taken r)
        (make-Costs v plain)
        (λ r.
          free-bind v (Promise.set_exception r e) (λ _. taken r) (promise_exception-Costs v r e)
            (λ _.
              free-bind v (Promise.get_future r) (λ y. Promise.destroy y.1 >> pure (some y.0))
                (get_future-Costs v r)
                (λ y. free-pure v (Promise.destroy y.1) (λ _. some y.0) (destroy-Costs v y.1))))
    where
      taken : Promise → Code (Store V) Future
      taken r = Promise.get_future r >>= λ y. Promise.destroy y.1 >> pure (some y.0)

  -- Continuations.
  made :
      (p : ℕ) (f : Frame V) (s : Store V)
      → Low v s
      → Adds v 0 s ((make_shared f >>= λ r. push p (schedule r) >> pure r) s).1
  unfolding make_shared
  made p f s h =
      let a = make_shared-Costs v f s h in
      let c =
        bind-Costs v (in_continuation v (schedule s.fresh)) 0 (push p (schedule s.fresh))
          (λ _. pure s.fresh) (push-Costs v p (schedule s.fresh)) (λ _. nothing-Costs v 0 s.fresh)
          (make_shared f s).1 a.low in
      record {
        low = c.low;
        fresh = omega (arith, a.fresh, c.fresh);
        tokens = omega (
          arith,
          c.tokens,
          tokens-make v s
              (record { storage = empty; continuations = waiting []; frame = f; owners = 1 }) refl,
          news-first v s.fresh
              ((push p (schedule s.fresh) >> pure s.fresh) (make_shared f s).1).1.fresh c.fresh,
        );
      }

  then_state-Costs : (p : ℕ) (x : Executor) (a : Action V) → Costs v 0 (make_then_state p x a)
  unfolding make_then_state
  then_state-Costs p x a s h = made p (continuation (some x) (some a)) s h

  attach-Costs :
      (p : ℕ) (x : Executor) (a : Action V)
      → Costs v 0 (make_then_state p x a >>= λ r. pure (some r))
  attach-Costs p x a = free-pure v (make_then_state p x a) some (then_state-Costs p x a)

  pub attach_then-Costs :
      (f : Future) (x : Executor) (g : Function V) → Costs v 0 (attach_then f x g)
  unfolding attach_then
  attach_then-Costs none x g = nothing-Costs v 0 tt
  attach_then-Costs (some p) x g = attach-Costs p x (then_action g p)

  pub attach_next-Costs :
      (f : Future) (x : Executor) (g : Function V) → Costs v 0 (attach_next f x g)
  unfolding attach_next
  attach_next-Costs none x g = nothing-Costs v 0 tt
  attach_next-Costs (some p) x g = attach-Costs p x (next_action g p)

  pub interruptible-Costs :
      (f : Future) (x : Executor) (g : Handler V) → Costs v 0 (attach_interruptible f x g)
  unfolding attach_interruptible
  interruptible-Costs none x g = nothing-Costs v 0 tt
  interruptible-Costs (some p) x g = attach-Costs p x (promise_action g p)

  pub shared_interruptible-Costs :
      (f : Future) (x : Executor) (g : Handler V) → Costs v 0 (attach_shared_interruptible f x g)
  unfolding attach_shared_interruptible
  shared_interruptible-Costs none x g = nothing-Costs v 0 tt
  shared_interruptible-Costs (some p) x g = attach-Costs p x (promise_action g p)

  pub shared_then-Costs :
      (f : Future) (x : Executor) (g : Function V) → Costs v 0 (attach_shared_then f x g)
  unfolding attach_shared_then
  shared_then-Costs none x g = nothing-Costs v 0 tt
  shared_then-Costs (some p) x g =
      free-bind v (share p) (λ _. make_then_state p x (then_action g p) >>= λ r. pure (some r))
        (share-Costs v p) (λ _. attach-Costs p x (then_action g p))

  pub shared_next-Costs :
      (f : Future) (x : Executor) (g : Function V) → Costs v 0 (attach_shared_next f x g)
  unfolding attach_shared_next
  shared_next-Costs none x g = nothing-Costs v 0 tt
  shared_next-Costs (some p) x g =
      free-bind v (share p) (λ _. make_then_state p x (next_action g p) >>= λ r. pure (some r))
        (share-Costs v p) (λ _. attach-Costs p x (next_action g p))
