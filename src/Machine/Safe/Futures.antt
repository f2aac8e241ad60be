-- ===== src/Machine/Safe/Futures.antt =====
-- What the functions of both futures use.
use portable_concurrency.Prelude.{ℕ, suc, ◌≤◌, refl, Bool, true, false, none, some, [], ◌∷◌, arith}
use portable_concurrency.Store.{
  Code, pure, ◌>>=◌, ◌>>◌, Result, ok, err, Executor, notify, notify_on, hold, release, Store,
}
use portable_concurrency.Owners.{begin, share}
use portable_concurrency.SharedState.{push, is_executed, read_result}
use portable_concurrency.Future.{Future, state_of, require, value_ref, value_of}
use portable_concurrency.Future
use portable_concurrency.Machine.Owned.Refs.{pointer, option_refs, owners}
use portable_concurrency.Machine.Safe.Ends.{
  Intact, Good, read_result-Good, same-Grown, then-Good, bind-Good, deref-Good, begin-Grown,
}
use portable_concurrency.Machine.Safe.Operations.{share-Good, push-Good}
use portable_concurrency.Machine.Safe.Promises.{shared-Good}

module _ {V : Type 0} (v : ℕ) where
  -- The pointer of a future, which throws if there is none.
  pub state_of-Good :
      {B : Type 0} (f : Future) (g : ℕ → Code (Store V) B) (end : B → ℕ) (s : Store V)
      → option_refs v f ≤ owners v s
      → ((p : ℕ) → pointer v p ≤ owners v s → Good v s end (g p s))
      → Good v s end ((state_of f >>= g) s)
  state_of-Good none g end s u k = tt
  state_of-Good (some p) g end s u k = k p u

  pub is_ready-Good :
      (f : Future) (s : Store V)
      → Intact v s
      → option_refs v f ≤ owners v s
      → Good v s (λ _. 0) (Future.is_ready f s)
  unfolding Future.is_ready
  is_ready-Good f s h u =
      state_of-Good f _ (λ _. 0) s u
        λ p w. deref-Good v p (λ _. 0) _ s w (λ b e. (same-Grown v s h, omega arith))

  pub add_notification-Good :
      (f : Future) (m : ℕ) (s : Store V)
      → Intact v s
      → option_refs v f ≤ owners v s
      → Good v s (λ _. 0) (Future.add_notification f m s)
  unfolding Future.add_notification
  add_notification-Good f m s h u =
      state_of-Good f _ (λ _. 0) s u (λ p w. push-Good v p (notify m) s h w)

  pub add_notification_on-Good :
      (f : Future) (x : Executor) (m : ℕ) (s : Store V)
      → Intact v s
      → option_refs v f ≤ owners v s
      → Good v s (λ _. 0) (Future.add_notification_on f x m s)
  unfolding Future.add_notification_on
  add_notification_on-Good f x m s h u =
      state_of-Good f _ (λ _. 0) s u (λ p w. push-Good v p (notify_on x m) s h w)

  pub detach-Good :
      (f : Future) (s : Store V)
      → Intact v s
      → option_refs v f ≤ owners v s
      → Good v s (λ _. 0) (Future.detach f s)
  unfolding Future.detach
  detach-Good f s h u =
      state_of-Good f _ (λ _. 0) s u
        λ p w.
          bind-Good v s (λ _. pointer v p) (λ _. 0) (share p)
            (λ _. push p (hold p) >> pure (some p)) (share-Good v p s h w)
            (λ _ t g k.
              bind-Good v t (λ _. 0) (λ _. 0) (push p (hold p)) (λ _. pure (some p))
                (push-Good v p (hold p) t g.low k) (λ _ r l m. (same-Grown v r l.low, omega arith)))

  require-Good : (b : Bool) (s : Store V) → Intact v s → Good v s (λ _. 0) (require b s)
  require-Good true s h = (same-Grown v s h, omega arith)
  require-Good false s h = tt

  value_of-Good : (r : Result V) (s : Store V) → Intact v s → Good v s (λ _. 0) (value_of r s)
  value_of-Good (ok w) s h = (same-Grown v s h, omega arith)
  value_of-Good (err e) s h = tt

  value_ref-Good :
      (p : ℕ) (s : Store V)
      → Intact v s
      → pointer v p ≤ owners v s
      → Good v s (λ _. 0) (value_ref p s)
  value_ref-Good p s h u =
      bind-Good v s (λ _. 0) (λ _. 0) (read_result (suc s.fresh) p) value_of
        (read_result-Good v (suc s.fresh) p s h u) (λ r t g k. value_of-Good r t g.low)

  pub get-Good :
      (f : Future) (s : Store V)
      → Intact v s
      → option_refs v f ≤ owners v s
      → Good v s (λ _. 0) (Future.get f s)
  unfolding Future.get
  get-Good f s h u =
      state_of-Good f _ (λ _. 0) s u
        λ p w.
          deref-Good v p (λ _. 0) _ s w
            λ b e.
              bind-Good v s (λ _. 0) (λ _. 0) (require (is_executed b.continuations))
                (λ _. begin (release p ∷ []) >> value_ref p)
                (require-Good (is_executed b.continuations) s h)
                (λ _ t g k.
                  let l = begin-Grown v t (release p ∷ []) g.low in
                  then-Good v t _ (λ _. 0) _ l
                    (value_ref-Good p (begin (release p ∷ []) t).1 l.low
                      (omega (arith, w, g.grown, l.grown))))

  pub get_shared-Good :
      (f : Future) (s : Store V)
      → Intact v s
      → option_refs v f ≤ owners v s
      → Good v s (λ _. 0) (Future.get_shared f s)
  unfolding Future.get_shared
  get_shared-Good f s h u =
      state_of-Good f _ (λ _. 0) s u
        λ p w.
          deref-Good v p (λ _. 0) _ s w
            λ b e.
              bind-Good v s (λ _. 0) (λ _. 0) (require (is_executed b.continuations))
                (λ _. value_ref p) (require-Good (is_executed b.continuations) s h)
                (λ _ t g k. value_ref-Good p t g.low (omega (arith, w, g.grown)))

  pub copy-Good :
      (f : Future) (s : Store V)
      → Intact v s
      → option_refs v f ≤ owners v s
      → Good v s (option_refs v) (Future.copy f s)
  unfolding Future.copy
  copy-Good none s h u = (same-Grown v s h, omega arith)
  copy-Good (some p) s h u = shared-Good v p (option_refs v) (some p) s h u refl

  pub destroy_future-Good :
      (f : Future) (s : Store V) → Intact v s → Good v s (λ _. 0) (Future.destroy f s)
  unfolding Future.destroy
  destroy_future-Good none s h = (same-Grown v s h, omega arith)
  destroy_future-Good (some p) s h = (begin-Grown v s (release p ∷ []) h, omega arith)

  pub assign_future-Good :
      (f g : Future) (s : Store V) → Intact v s → Good v s (λ _. 0) (Future.assign f g s)
  unfolding Future.assign
  assign_future-Good f g s h =
      bind-Good v s (λ _. 0) (λ _. 0) (Future.destroy f) _ (destroy_future-Good f s h)
        (λ _ t k l. (same-Grown v t k.low, omega arith))

  pub copy_assign-Good :
      (f g : Future) (s : Store V)
      → Intact v s
      → option_refs v g ≤ owners v s
      → Good v s (λ _. 0) (Future.copy_assign f g s)
  unfolding Future.copy_assign
  copy_assign-Good f g s h u =
      bind-Good v s (option_refs v) (λ _. 0) (Future.copy g) _ (copy-Good g s h u)
        (λ r t k l.
          bind-Good v t (λ _. 0) (λ _. 0) (Future.destroy f) _ (destroy_future-Good f t k.low)
            (λ _ q i j. (same-Grown v q i.low, omega arith)))
