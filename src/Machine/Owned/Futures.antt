-- ===== src/Machine/Owned/Futures.antt =====
-- What the functions of both futures other than then and next do with pointers
-- (bits/future.hpp, bits/shared_future.hpp).
use portable_concurrency.Prelude.{
  ℕ, suc, ◌+◌, ◌≡◌, refl, Bool, true, false, none, some, [], ◌∷◌, arith,
}
use portable_concurrency.Store.{
  and_then, pure, ◌>>◌, Result, ok, err, Executor, notify, notify_on, hold, release,
}
use portable_concurrency.Owners.{begin, share}
use portable_concurrency.SharedState.{push, is_executed, read_result-ends}
use portable_concurrency.Future.{Future, state_of, require, value_ref, value_of}
use portable_concurrency.Future
use portable_concurrency.Machine.Owned.Refs.{pointer, option_refs}
use portable_concurrency.Machine.Owned.Moves.{
  After, Moves, nothing-Kept, bind-Moves, pure-Moves, deref-After,
}
use portable_concurrency.Machine.Owned.Operations.{begin-Moves, share-Moves, push-Moves}
use portable_concurrency.Machine.Owned.Blocks.{begin_then, begin_all, shared-Moves}

module _ {V : Type 0} (v : ℕ) where
  pub is_ready-Moves : (f : Future) → Moves v 0 (λ _. 0) (Future.is_ready {V = V} f)
  unfolding Future.is_ready
  is_ready-Moves none s h n = nothing-Kept v 0 s h n
  is_ready-Moves (some p) s h n = deref-After v 0 (λ _. 0) p _ s (λ b g. nothing-Kept v 0 s h n)

  pub add_notification-Moves :
      (f : Future) (m : ℕ) → Moves v 0 (λ _. 0) (Future.add_notification {V = V} f m)
  unfolding Future.add_notification
  add_notification-Moves none m s h n = nothing-Kept v 0 s h n
  add_notification-Moves (some p) m s h n = push-Moves v p (notify m) 0 0 refl s h n

  pub add_notification_on-Moves :
      (f : Future) (x : Executor) (m : ℕ)
      → Moves v 0 (λ _. 0) (Future.add_notification_on {V = V} f x m)
  unfolding Future.add_notification_on
  add_notification_on-Moves none x m s h n = nothing-Kept v 0 s h n
  add_notification_on-Moves (some p) x m s h n = push-Moves v p (notify_on x m) 0 0 refl s h n

  -- The pointer that is pushed is a new one.
  pub detach-Moves : (f : Future) → Moves v 0 (λ _. 0) (Future.detach {V = V} f)
  unfolding Future.detach
  detach-Moves none s h n = nothing-Kept v 0 s h n
  detach-Moves (some p) s h n =
      bind-Moves v 0 (λ _. pointer v p) (λ _. 0) (share p) (λ _. push p (hold p) >> pure (some p))
        (share-Moves v p 0 (pointer v p) (omega arith))
        (λ _.
          bind-Moves v (pointer v p) (λ _. 0) (λ _. 0) (push p (hold p)) (λ _. pure (some p))
            (push-Moves v p (hold p) (pointer v p) 0 (omega arith))
            (λ _. pure-Moves v 0 (λ _. 0) (some p) refl))
        s h n

  require-Moves : (k : ℕ) (b : Bool) → Moves v k (λ _. k) (require {V = V} b)
  require-Moves k true s h n = nothing-Kept v k s h n
  require-Moves k false s h n = tt

  value_of-Moves : (r : Result V) → Moves v 0 (λ _. 0) (value_of r)
  value_of-Moves (ok w) s h n = nothing-Kept v 0 s h n
  value_of-Moves (err e) s h n = nothing-Kept v 0 s h n

  value_ref-Moves : (p : ℕ) → Moves v 0 (λ _. 0) (value_ref {V = V} p)
  value_ref-Moves p s h n =
      read_result-ends (λ x. After v s 0 (λ _. 0) (and_then x value_of)) s (suc s.fresh) p
        (λ r. value_of-Moves r s h n) tt (λ q. tt)

  pub get-Moves : (f : Future) → Moves v (option_refs v f) (λ _. 0) (Future.get {V = V} f)
  unfolding Future.get
  get-Moves none s h n = nothing-Kept v 0 s h n
  get-Moves (some p) s h n =
      deref-After v (pointer v p) (λ _. 0) p _ s
        λ b g.
          bind-Moves v (pointer v p) (λ _. pointer v p) (λ _. 0)
            (require (is_executed b.continuations)) (λ _. begin (release p ∷ []) >> value_ref p)
            (require-Moves (pointer v p) (is_executed b.continuations))
            (λ _.
              begin_then v (release p ∷ []) (pointer v p) (λ _. 0) (value_ref p) (ground arith)
                (omega arith) (value_ref-Moves p))
            s h n

  pub get_shared-Moves : (f : Future) → Moves v 0 (λ _. 0) (Future.get_shared {V = V} f)
  unfolding Future.get_shared
  get_shared-Moves none s h n = nothing-Kept v 0 s h n
  get_shared-Moves (some p) s h n =
      deref-After v 0 (λ _. 0) p _ s
        λ b g.
          bind-Moves v 0 (λ _. 0) (λ _. 0) (require (is_executed b.continuations))
            (λ _. value_ref p) (require-Moves 0 (is_executed b.continuations))
            (λ _. value_ref-Moves p) s h n

  pub copy-Moves : (f : Future) → Moves v 0 (option_refs v) (Future.copy {V = V} f)
  unfolding Future.copy
  copy-Moves none s h n = nothing-Kept v 0 s h n
  copy-Moves (some p) s h n = shared-Moves v p (option_refs v) (some p) refl s h n

  pub destroy_future-Moves :
      (f : Future) → Moves v (option_refs v f) (λ _. 0) (Future.destroy {V = V} f)
  unfolding Future.destroy
  destroy_future-Moves none s h n = nothing-Kept v 0 s h n
  destroy_future-Moves (some p) s h n =
      begin_all v (release p ∷ []) (pointer v p) (ground arith) (omega arith) s h n

  -- The pointer of a future ends, and others stay in hand.
  ended-Moves :
      {A : Type 0} (f : Future) (k : ℕ) (out : A → ℕ) (a : A)
      → option_refs v f + out a ≡ k
      → Moves v k out (Future.destroy {V = V} f >> pure a)
  unfolding Future.destroy
  ended-Moves none k out a e s h n = pure-Moves v k out a (omega (arith, e)) s h n
  ended-Moves (some p) k out a e s h n =
      bind-Moves v k (λ _. out a) out (begin (release p ∷ [])) (λ _. pure a)
        (begin-Moves v (release p ∷ []) k (out a) (ground arith) (omega (arith, e)))
        (λ _. pure-Moves v (out a) out a refl) s h n

  pub assign_future-Moves :
      (f g : Future) → Moves v (option_refs v f) (λ _. 0) (Future.assign {V = V} f g)
  unfolding Future.assign
  assign_future-Moves f g = ended-Moves f (option_refs v f) (λ _. 0) (g, none) (omega arith)

  copied-Moves : (f : Future) (k : ℕ) → Moves v k (λ r. k + option_refs v r) (Future.copy {V = V} f)
  unfolding Future.copy
  copied-Moves none k = pure-Moves v k (λ r. k + option_refs v r) none (omega arith)
  copied-Moves (some p) k =
      bind-Moves v k (λ _. k + pointer v p) (λ r. k + option_refs v r) (share p)
        (λ _. pure (some p)) (share-Moves v p k (k + pointer v p) (omega arith))
        (λ _. pure-Moves v (k + pointer v p) (λ r. k + option_refs v r) (some p) refl)

  pub copy_assign-Moves :
      (f g : Future) → Moves v (option_refs v f) (option_refs v) (Future.copy_assign {V = V} f g)
  unfolding Future.copy_assign
  copy_assign-Moves f g =
      bind-Moves v (option_refs v f) (λ r. option_refs v f + option_refs v r) (option_refs v)
        (Future.copy g) (λ r. Future.destroy f >> pure r) (copied-Moves g (option_refs v f))
        (λ r. ended-Moves f (option_refs v f + option_refs v r) (option_refs v) r refl)
