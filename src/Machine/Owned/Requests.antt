-- ===== src/Machine/Owned/Requests.antt =====
-- Every call of the user's code moves what it takes, and gives what it says.
use portable_concurrency.Prelude.{ℕ, ◌+◌, ◌≡◌, refl, false, arith}
use mathlib.Core.Bool.{true≢false}
use portable_concurrency.Store.{Code, pure, Store}
use portable_concurrency.Promise
use portable_concurrency.Future
use portable_concurrency.PackagedTask
use portable_concurrency.Interrupt.{attach_interruptible, attach_shared_interruptible}
use portable_concurrency.Then.{attach_then, attach_next, attach_shared_then, attach_shared_next}
use portable_concurrency.Machine.{run_posted, drop_posted}
use portable_concurrency.Machine.System.{Request}
use portable_concurrency.Machine.Owned.Refs.{pointer, option_refs}
use portable_concurrency.Machine.Owned.Moves.{Moves, bind-Moves, pure-Moves}
use portable_concurrency.Machine.Owned.Jobs.{run_posted-Moves, drop_posted-Moves}
use portable_concurrency.Machine.Owned.Promises.{
  promise_refs, set_value-Moves, promise_exception-Moves, get_future-Moves, destroy-Moves,
  assign-Moves, make_promise-Moves, make-Moves,
}
use portable_concurrency.Machine.Owned.Futures.{
  is_ready-Moves, add_notification-Moves, add_notification_on-Moves, detach-Moves, get-Moves,
  get_shared-Moves, copy-Moves, destroy_future-Moves, assign_future-Moves, copy_assign-Moves,
}
use portable_concurrency.Machine.Owned.Continuations.{
  attach_then-Moves, attach_next-Moves, shared_then-Moves, shared_next-Moves, interruptible-Moves,
  shared_interruptible-Moves,
}
use portable_concurrency.Machine.Owned.Tasks.{
  task_refs, call_task-Moves, destroy_task-Moves, assign_task-Moves,
}
use portable_concurrency.Machine.Owned.Whole.{
  Returns, Moves-Returns, bind-Returns, pure-Returns, make_task-Moves, task_future-Moves,
  make_ready-Returns, make_exceptional-Returns, async-Returns,
}
use portable_concurrency.Machine.Owned.Runs.{Pointers, takes, giving, answer, is_whole}

module _ {V : Type 0} (v : ℕ) where
  giving-Moves :
      {A : Type 0} (k : ℕ) (out : A → ℕ) (m : Code (Store V) A) (g : A → Pointers)
      → Moves v k out m
      → ((a : A) → out a ≡ g a v)
      → Moves v k (λ p. p v) (giving g m)
  giving-Moves k out m g c e =
      bind-Moves v k out (λ p. p v) m (λ a. pure (g a)) c
        (λ a. pure-Moves v (out a) (λ p. p v) (g a) (e a))

  giving-Returns :
      {A : Type 0} (k : ℕ) (out : A → ℕ) (m : Code (Store V) A) (g : A → Pointers)
      → Returns v k out m
      → ((a : A) → out a ≡ g a v)
      → Returns v k (λ p. p v) (giving g m)
  giving-Returns k out m g c e =
      bind-Returns v k out (λ p. p v) m (λ a. pure (g a)) c
        (λ a. pure-Returns v (out a) (λ p. p v) (g a) (e a))

  abbrev pub Both : Request V → Type 0
  Both r =
      Returns v (takes r v) (λ p. p v) (answer r)
      × (is_whole r ≡ false → Moves v (takes r v) (λ p. p v) (answer r))

  both_ends :
      (k : ℕ) (m : Code (Store V) Pointers) (B : Type 0)
      → Moves v k (λ p. p v) m
      → Returns v k (λ p. p v) m × (B → Moves v k (λ p. p v) m)
  both_ends k m B c =
      (Moves-Returns v k 0 k (λ p. p v) (λ p. p v) m c (omega arith) (λ p. omega arith), λ _. c)

  pub answer-Both : (r : Request V) → Both r
  unfolding answer
  answer-Both (Request.make_promise f) = both_ends _ _ _ (
      giving-Moves _ (λ y. promise_refs v y.0 + pointer v y.1) (Promise.make_promise f)
        (λ y v. promise_refs v y.0 + pointer v y.1) (make_promise-Moves v f) (λ _. refl))
  answer-Both (Request.make_owning f) = both_ends _ _ _ (
      giving-Moves _ (promise_refs v) (Promise.make f) (λ r v. promise_refs v r) (make-Moves v f)
        (λ _. refl))
  answer-Both (Request.set_value r x) = both_ends _ _ _ (
      giving-Moves _ (λ _. 0) (Promise.set_value r x) (λ _ v. 0) (set_value-Moves v r x)
        (λ _. refl))
  answer-Both (Request.set_exception r e) = both_ends _ _ _ (
      giving-Moves _ (λ _. 0) (Promise.set_exception r e) (λ _ v. 0) (promise_exception-Moves v r e)
        (λ _. refl))
  answer-Both (Request.get_future r) = both_ends _ _ _ (
      giving-Moves _ (λ y. pointer v y.0 + promise_refs v y.1) (Promise.get_future r)
        (λ y v. pointer v y.0 + promise_refs v y.1) (get_future-Moves v r) (λ _. refl))
  answer-Both (Request.destroy_promise r) =
      both_ends _ _ _
        (giving-Moves _ (λ _. 0) (Promise.destroy r) (λ _ v. 0) (destroy-Moves v r) (λ _. refl))
  answer-Both (Request.assign_promise r q) =
      both_ends _ _ _
        (giving-Moves _ (λ _. 0) (Promise.assign r q) (λ _ v. 0) (assign-Moves v r q) (λ _. refl))
  answer-Both (Request.is_ready f) =
      both_ends _ _ _
        (giving-Moves _ (λ _. 0) (Future.is_ready f) (λ _ v. 0) (is_ready-Moves v f) (λ _. refl))
  answer-Both (Request.add_notification f n) = both_ends _ _ _ (
      giving-Moves _ (λ _. 0) (Future.add_notification f n) (λ _ v. 0)
        (add_notification-Moves v f n) (λ _. refl))
  answer-Both (Request.add_notification_on f x n) = both_ends _ _ _ (
      giving-Moves _ (λ _. 0) (Future.add_notification_on f x n) (λ _ v. 0)
        (add_notification_on-Moves v f x n) (λ _. refl))
  answer-Both (Request.detach f) =
      both_ends _ _ _
        (giving-Moves _ (λ _. 0) (Future.detach f) (λ _ v. 0) (detach-Moves v f) (λ _. refl))
  answer-Both (Request.get f) =
      both_ends _ _ _
        (giving-Moves _ (λ _. 0) (Future.get f) (λ _ v. 0) (get-Moves v f) (λ _. refl))
  answer-Both (Request.get_shared f) =
      both_ends _ _ _ (
        giving-Moves _ (λ _. 0) (Future.get_shared f) (λ _ v. 0) (get_shared-Moves v f) (λ _. refl))
  answer-Both (Request.assign_future f g) = both_ends _ _ _ (
      giving-Moves _ (λ _. 0) (Future.assign f g) (λ _ v. 0) (assign_future-Moves v f g)
        (λ _. refl))
  answer-Both (Request.copy_assign_future f g) = both_ends _ _ _ (
      giving-Moves _ (option_refs v) (Future.copy_assign f g) (λ f v. option_refs v f)
        (copy_assign-Moves v f g) (λ _. refl))
  answer-Both (Request.copy f) = both_ends _ _ _ (
      giving-Moves _ (option_refs v) (Future.copy f) (λ f v. option_refs v f) (copy-Moves v f)
        (λ _. refl))
  answer-Both (Request.destroy_future f) =
      both_ends _ _ _ (
        giving-Moves _ (λ _. 0) (Future.destroy f) (λ _ v. 0) (destroy_future-Moves v f)
          (λ _. refl))
  answer-Both (Request.make_ready x) = (
    giving-Returns _ (option_refs v) (Future.make_ready_future x) (λ f v. option_refs v f)
        (make_ready-Returns v x) (λ _. refl),
    λ w. absurd (true≢false w),
  )
  answer-Both (Request.make_exceptional e) = (
    giving-Returns _ (option_refs v) (Future.make_exceptional_future e) (λ f v. option_refs v f)
        (make_exceptional-Returns v e) (λ _. refl),
    λ w. absurd (true≢false w),
  )
  answer-Both (Request.then_ f x g) = both_ends _ _ _ (
      giving-Moves _ (option_refs v) (attach_then f x g) (λ f v. option_refs v f)
        (attach_then-Moves v f x g) (λ _. refl))
  answer-Both (Request.next_ f x g) = both_ends _ _ _ (
      giving-Moves _ (option_refs v) (attach_next f x g) (λ f v. option_refs v f)
        (attach_next-Moves v f x g) (λ _. refl))
  answer-Both (Request.shared_then f x g) = both_ends _ _ _ (
      giving-Moves _ (option_refs v) (attach_shared_then f x g) (λ f v. option_refs v f)
        (shared_then-Moves v f x g) (λ _. refl))
  answer-Both (Request.shared_next f x g) = both_ends _ _ _ (
      giving-Moves _ (option_refs v) (attach_shared_next f x g) (λ f v. option_refs v f)
        (shared_next-Moves v f x g) (λ _. refl))
  answer-Both (Request.interruptible f x g) = both_ends _ _ _ (
      giving-Moves _ (option_refs v) (attach_interruptible f x g) (λ f v. option_refs v f)
        (interruptible-Moves v f x g) (λ _. refl))
  answer-Both (Request.shared_interruptible f x g) = both_ends _ _ _ (
      giving-Moves _ (option_refs v) (attach_shared_interruptible f x g) (λ f v. option_refs v f)
        (shared_interruptible-Moves v f x g) (λ _. refl))
  answer-Both (Request.make_task f) = both_ends _ _ _ (
      giving-Moves _ (task_refs v) (PackagedTask.make f) (λ t v. task_refs v t)
        (make_task-Moves v f) (λ _. refl))
  answer-Both (Request.call_task t a) = both_ends _ _ _ (
      giving-Moves _ (λ _. 0) (PackagedTask.call t a) (λ _ v. 0) (call_task-Moves v t a)
        (λ _. refl))
  answer-Both (Request.task_future t) = both_ends _ _ _ (
      giving-Moves _ (λ y. pointer v y.0 + task_refs v y.1) (PackagedTask.get_future t)
        (λ y v. pointer v y.0 + task_refs v y.1)
        (task_future-Moves v t (λ y. pointer v y.0 + task_refs v y.1) (λ p. omega arith))
        (λ _. refl))
  answer-Both (Request.destroy_task t) = both_ends _ _ _ (
      giving-Moves _ (λ _. 0) (PackagedTask.destroy t) (λ _ v. 0) (destroy_task-Moves v t)
        (λ _. refl))
  answer-Both (Request.assign_task t u) = both_ends _ _ _ (
      giving-Moves _ (λ _. 0) (PackagedTask.assign t u) (λ _ v. 0) (assign_task-Moves v t u)
        (λ _. refl))
  answer-Both (Request.run_async x f a) = (
    giving-Returns _ (option_refs v) (PackagedTask.async x f a) (λ f v. option_refs v f)
        (async-Returns v x f a) (λ _. refl),
    λ w. absurd (true≢false w),
  )
  answer-Both (Request.execute_posted i) =
      both_ends _ _ _
        (giving-Moves _ (λ _. 0) (run_posted i) (λ _ v. 0) (run_posted-Moves v i) (λ _. refl))
  answer-Both (Request.discard_posted i) =
      both_ends _ _ _
        (giving-Moves _ (λ _. 0) (drop_posted i) (λ _ v. 0) (drop_posted-Moves v i) (λ _. refl))
