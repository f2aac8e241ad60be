-- ===== src/Machine/Safe/Continuations.antt =====
-- What the functions of bits/then.hpp use, for both futures.
use portable_concurrency.Prelude.{ℕ, ◌≤◌, some, arith}
use portable_concurrency.Store.{
  pure, ◌>>=◌, ◌>>◌, Function, continuation, Action, then_action, next_action, promise_action,
  Handler, Executor, schedule, Store,
}
use portable_concurrency.Owners.{share, make_shared}
use portable_concurrency.SharedState.{push}
use portable_concurrency.Future.{Future}
use portable_concurrency.Then.{
  make_then_state, attach_then, attach_next, attach_shared_then, attach_shared_next,
}
use portable_concurrency.Interrupt.{attach_interruptible, attach_shared_interruptible}
use portable_concurrency.Machine.Owned.Refs.{pointer, option_refs, owners}
use portable_concurrency.Machine.Safe.Ends.{Intact, action_parent, Good, same-Grown, bind-Good}
use portable_concurrency.Machine.Safe.Operations.{share-Good, push-Good, make_shared-Good}
use portable_concurrency.Machine.Safe.Futures.{state_of-Good}

module _ {V : Type 0} (v : ℕ) where
  -- The parent is there when the continuation is pushed.
  attached-Good :
      (p : ℕ) (x : Executor) (a : Action V) (s : Store V)
      → action_parent v (some a) ≤ pointer v p
      → Intact v s
      → pointer v p ≤ owners v s
      → Good v s (λ _. 0) ((make_then_state p x a >>= λ r. pure (some r)) s)
  unfolding make_then_state
  attached-Good p x a s l h u =
      bind-Good v s (λ _. 0) (λ _. 0)
        (make_shared (continuation (some x) (some a)) >>= λ r. push p (schedule r) >> pure r)
        (λ r. pure (some r))
        (bind-Good v s (pointer v) (λ _. 0) (make_shared (continuation (some x) (some a)))
          (λ r. push p (schedule r) >> pure r)
          (make_shared-Good v (continuation (some x) (some a)) s h (omega (arith, l, u)))
          (λ r t g k.
            bind-Good v t (λ _. 0) (λ _. 0) (push p (schedule r)) (λ _. pure r)
              (push-Good v p (schedule r) t g.low (omega (arith, u, g.grown)))
              (λ _ q l m. (same-Grown v q l.low, omega arith))))
        (λ r t g k. (same-Grown v t g.low, omega arith))

  own_pointer-Good :
      (p : ℕ) (x : Executor) (a : Action V) (s : Store V)
      → action_parent v (some a) ≤ pointer v p
      → Intact v s
      → pointer v p ≤ owners v s
      → Good v s (λ _. 0) ((share p >>= λ _. make_then_state p x a >>= λ r. pure (some r)) s)
  own_pointer-Good p x a s l h u =
      bind-Good v s (λ _. pointer v p) (λ _. 0) (share p)
        (λ _. make_then_state p x a >>= λ r. pure (some r)) (share-Good v p s h u)
        (λ _ t g k. attached-Good p x a t l g.low k)

  pub attach_then-Good :
      (f : Future) (x : Executor) (g : Function V) (s : Store V)
      → Intact v s
      → option_refs v f ≤ owners v s
      → Good v s (λ _. 0) (attach_then f x g s)
  unfolding attach_then
  attach_then-Good f x g s h u =
      state_of-Good v f _ (λ _. 0) s u
        (λ p w. attached-Good p x (then_action g p) s (omega arith) h w)

  pub attach_next-Good :
      (f : Future) (x : Executor) (g : Function V) (s : Store V)
      → Intact v s
      → option_refs v f ≤ owners v s
      → Good v s (λ _. 0) (attach_next f x g s)
  unfolding attach_next
  attach_next-Good f x g s h u =
      state_of-Good v f _ (λ _. 0) s u
        (λ p w. attached-Good p x (next_action g p) s (omega arith) h w)

  pub interruptible-Good :
      (f : Future) (x : Executor) (g : Handler V) (s : Store V)
      → Intact v s
      → option_refs v f ≤ owners v s
      → Good v s (λ _. 0) (attach_interruptible f x g s)
  unfolding attach_interruptible
  interruptible-Good f x g s h u =
      state_of-Good v f _ (λ _. 0) s u
        (λ p w. attached-Good p x (promise_action g p) s (omega arith) h w)

  pub shared_interruptible-Good :
      (f : Future) (x : Executor) (g : Handler V) (s : Store V)
      → Intact v s
      → option_refs v f ≤ owners v s
      → Good v s (λ _. 0) (attach_shared_interruptible f x g s)
  unfolding attach_shared_interruptible
  shared_interruptible-Good f x g s h u =
      state_of-Good v f _ (λ _. 0) s u
        (λ p w. attached-Good p x (promise_action g p) s (omega arith) h w)

  pub shared_then-Good :
      (f : Future) (x : Executor) (g : Function V) (s : Store V)
      → Intact v s
      → option_refs v f ≤ owners v s
      → Good v s (λ _. 0) (attach_shared_then f x g s)
  unfolding attach_shared_then
  shared_then-Good f x g s h u =
      state_of-Good v f _ (λ _. 0) s u
        (λ p w. own_pointer-Good p x (then_action g p) s (omega arith) h w)

  pub shared_next-Good :
      (f : Future) (x : Executor) (g : Function V) (s : Store V)
      → Intact v s
      → option_refs v f ≤ owners v s
      → Good v s (λ _. 0) (attach_shared_next f x g s)
  unfolding attach_shared_next
  shared_next-Good f x g s h u =
      state_of-Good v f _ (λ _. 0) s u
        (λ p w. own_pointer-Good p x (next_action g p) s (omega arith) h w)
