-- ===== src/Machine/Owned/Continuations.antt =====
-- What then and next of both futures do with pointers (bits/future.hpp, bits/shared_future.hpp,
-- bits/then.hpp): a continuation's action has the parent's pointer and what its function captured.
use portable_concurrency.Prelude.{ℕ, ◌+◌, ◌≡◌, refl, Option, none, some, arith}
use portable_concurrency.Store.{
  pure, ◌>>=◌, ◌>>◌, Function, continuation, Action, then_action, next_action, promise_action,
  Handler, Executor, schedule,
}
use portable_concurrency.Owners.{share, make_shared}
use portable_concurrency.SharedState.{push}
use portable_concurrency.Future.{Future}
use portable_concurrency.Then.{
  make_then_state, attach_then, attach_next, attach_shared_then, attach_shared_next,
}
use portable_concurrency.Interrupt.{attach_interruptible, attach_shared_interruptible}
use portable_concurrency.Machine.Owned.Refs.{pointer, option_refs, action_refs}
use portable_concurrency.Machine.Owned.Moves.{
  Moves, nothing-Kept, then-Moves, bind-Moves, pure-Moves, make-Kept,
}
use portable_concurrency.Machine.Owned.Operations.{share-Moves, push-Moves}

-- What a future and the function that it is given have; a future that is not valid takes nothing.
abbrev pub attach_refs : ℕ → Future → Option ℕ → ℕ
attach_refs v none captured = 0
attach_refs v (some p) captured = pointer v p + option_refs v captured

abbrev pub shared_attach_refs : ℕ → Future → Option ℕ → ℕ
shared_attach_refs v none captured = 0
shared_attach_refs v (some p) captured = option_refs v captured

module _ {V : Type 0} (v : ℕ) where
  -- The result's state is made with the action, the parent has a weak pointer to it, and its future
  -- is handed out.
  attached-Moves :
      (p k : ℕ) (x : Executor) (a : Action V)
      → action_refs v (some a) ≡ k
      → Moves v k (option_refs v) (make_then_state p x a >>= λ r. pure (some r))
  unfolding make_then_state make_shared
  attached-Moves p k x a e s h n =
      let y =
        make-Kept v (continuation (some x) (some a)) s k (pointer v s.fresh) h n
          (omega (arith, e)) in
      then-Moves v s _ k (pointer v s.fresh) (option_refs v)
        ((push p (schedule s.fresh) >> pure s.fresh) >>= λ r. pure (some r)) y
        (bind-Moves v (pointer v s.fresh) (pointer v) (option_refs v)
          (push p (schedule s.fresh) >> pure s.fresh) (λ r. pure (some r))
          (bind-Moves v (pointer v s.fresh) (λ _. pointer v s.fresh) (pointer v)
            (push p (schedule s.fresh)) (λ _. pure s.fresh)
            (push-Moves v p (schedule s.fresh) (pointer v s.fresh) (pointer v s.fresh)
              (omega arith))
            (λ _. pure-Moves v (pointer v s.fresh) (pointer v) s.fresh refl))
          (λ r. pure-Moves v (pointer v r) (option_refs v) (some r) refl))

  pub attach_then-Moves :
      (f : Future) (x : Executor) (g : Function V)
      → Moves v (attach_refs v f g.captured) (option_refs v) (attach_then f x g)
  unfolding attach_then
  attach_then-Moves none x g s h n = nothing-Kept v 0 s h n
  attach_then-Moves (some p) x g s h n =
      attached-Moves p (pointer v p + option_refs v g.captured) x (then_action g p) refl s h n

  pub attach_next-Moves :
      (f : Future) (x : Executor) (g : Function V)
      → Moves v (attach_refs v f g.captured) (option_refs v) (attach_next f x g)
  unfolding attach_next
  attach_next-Moves none x g s h n = nothing-Kept v 0 s h n
  attach_next-Moves (some p) x g s h n =
      attached-Moves p (pointer v p + option_refs v g.captured) x (next_action g p) refl s h n

  pub interruptible-Moves :
      (f : Future) (x : Executor) (g : Handler V)
      → Moves v (attach_refs v f g.captured) (option_refs v) (attach_interruptible f x g)
  unfolding attach_interruptible
  interruptible-Moves none x g s h n = nothing-Kept v 0 s h n
  interruptible-Moves (some p) x g s h n =
      attached-Moves p (pointer v p + option_refs v g.captured) x (promise_action g p) refl s h n

  pub shared_interruptible-Moves :
      (f : Future) (x : Executor) (g : Handler V)
      → Moves v (attach_refs v f g.captured) (option_refs v) (attach_shared_interruptible f x g)
  unfolding attach_shared_interruptible
  shared_interruptible-Moves none x g s h n = nothing-Kept v 0 s h n
  shared_interruptible-Moves (some p) x g s h n =
      attached-Moves p (pointer v p + option_refs v g.captured) x (promise_action g p) refl s h n

  -- With a pointer of its own.
  own_pointer-Moves :
      (p c : ℕ) (x : Executor) (a : Action V)
      → action_refs v (some a) ≡ pointer v p + c
      → Moves v c (option_refs v) (share p >>= λ _. make_then_state p x a >>= λ r. pure (some r))
  own_pointer-Moves p c x a e =
      bind-Moves v c (λ _. pointer v p + c) (option_refs v) (share p)
        (λ _. make_then_state p x a >>= λ r. pure (some r))
        (share-Moves v p c (pointer v p + c) refl) (λ _. attached-Moves p (pointer v p + c) x a e)

  pub shared_then-Moves :
      (f : Future) (x : Executor) (g : Function V)
      → Moves v (shared_attach_refs v f g.captured) (option_refs v) (attach_shared_then f x g)
  unfolding attach_shared_then
  shared_then-Moves none x g s h n = nothing-Kept v 0 s h n
  shared_then-Moves (some p) x g s h n =
      own_pointer-Moves p (option_refs v g.captured) x (then_action g p) refl s h n

  pub shared_next-Moves :
      (f : Future) (x : Executor) (g : Function V)
      → Moves v (shared_attach_refs v f g.captured) (option_refs v) (attach_shared_next f x g)
  unfolding attach_shared_next
  shared_next-Moves none x g s h n = nothing-Kept v 0 s h n
  shared_next-Moves (some p) x g s h n =
      own_pointer-Moves p (option_refs v g.captured) x (next_action g p) refl s h n
