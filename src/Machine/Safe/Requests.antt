-- ===== src/Machine/Safe/Requests.antt =====
-- Every call of a client uses states that are there, if it holds the pointers that it hands over or
-- calls with.
use portable_concurrency.Prelude.{ℕ, ◌+◌, ◌≤◌, none, some, arith}
use portable_concurrency.Store.{
  Code, pure, Error, Store, Frame, plain, cancellable, continuation, task, then_action, next_action,
  promise_action,
}
use portable_concurrency.Promise.{Promise}
use portable_concurrency.Promise
use portable_concurrency.Future.{Future}
use portable_concurrency.Future
use portable_concurrency.PackagedTask
use portable_concurrency.Interrupt.{attach_interruptible, attach_shared_interruptible}
use portable_concurrency.Then.{attach_then, attach_next, attach_shared_then, attach_shared_next}
use portable_concurrency.Machine.{run_posted, drop_posted}
use portable_concurrency.Machine.System.{Request}
use portable_concurrency.Machine.Owned.Refs.{pointer, option_refs, frame_refs, owners}
use portable_concurrency.Machine.Owned.Promises.{promise_refs}
use portable_concurrency.Machine.Owned.Tasks.{task_refs}
use portable_concurrency.Machine.Owned.Runs.{Pointers, giving, answer}
use portable_concurrency.Machine.Safe.Ends.{Intact, frame_parent, Good, same-Grown, bind-Good}
use portable_concurrency.Machine.Safe.Promises.{
  set_value-Good, promise_exception-Good, get_future-Good, destroy-Good, assign-Good, made-Good,
}
use portable_concurrency.Machine.Safe.Futures.{
  is_ready-Good, add_notification-Good, add_notification_on-Good, detach-Good, get-Good,
  get_shared-Good, copy-Good, destroy_future-Good, assign_future-Good, copy_assign-Good,
}
use portable_concurrency.Machine.Safe.Continuations.{
  attach_then-Good, attach_next-Good, shared_then-Good, shared_next-Good, interruptible-Good,
  shared_interruptible-Good,
}
use portable_concurrency.Machine.Safe.Tasks.{
  make_task-Good, call_task-Good, task_future-Good, destroy_task-Good, assign_task-Good, async-Good,
}
use portable_concurrency.Machine.Safe.Jobs.{Spares, Good-Spares, run_posted-Good, drop_posted-Good}

module _ {V : Type 0} where
  -- The pointers that a call is made with: those that it takes, and those that it looks at.
  abbrev pub uses : Request V → Pointers
  uses (Request.make_promise f) v = frame_refs v f
  uses (Request.make_owning f) v = frame_refs v f
  uses (Request.set_value r x) v = promise_refs v r
  uses (Request.set_exception r e) v = promise_refs v r
  uses (Request.get_future r) v = promise_refs v r
  uses (Request.destroy_promise r) v = promise_refs v r
  uses (Request.assign_promise r q) v = promise_refs v r
  uses (Request.is_ready f) v = option_refs v f
  uses (Request.add_notification f n) v = option_refs v f
  uses (Request.add_notification_on f x n) v = option_refs v f
  uses (Request.detach f) v = option_refs v f
  uses (Request.get f) v = option_refs v f
  uses (Request.get_shared f) v = option_refs v f
  uses (Request.assign_future f g) v = option_refs v f
  uses (Request.copy_assign_future f g) v = option_refs v f + option_refs v g
  uses (Request.copy f) v = option_refs v f
  uses (Request.destroy_future f) v = option_refs v f
  uses (Request.then_ f x g) v = option_refs v f
  uses (Request.next_ f x g) v = option_refs v f
  uses (Request.shared_then f x g) v = option_refs v f
  uses (Request.shared_next f x g) v = option_refs v f
  uses (Request.interruptible f x g) v = option_refs v f
  uses (Request.shared_interruptible f x g) v = option_refs v f
  uses (Request.call_task t a) v = task_refs v t
  uses (Request.task_future t) v = task_refs v t
  uses (Request.destroy_task t) v = task_refs v t
  uses (Request.assign_task t q) v = task_refs v t
  uses _ v = 0

module _ {V : Type 0} (v : ℕ) where
  pub frame_parent-refs : (f : Frame V) → frame_parent v f ≤ frame_refs v f
  frame_parent-refs plain = omega arith
  frame_parent-refs (cancellable m) = omega arith
  frame_parent-refs (continuation x none) = omega arith
  frame_parent-refs (continuation x (some (then_action f p))) = omega arith
  frame_parent-refs (continuation x (some (next_action f p))) = omega arith
  frame_parent-refs (continuation x (some (promise_action f p))) = omega arith
  frame_parent-refs (task f) = omega arith

  make_ready-Good :
      (x : V) (s : Store V) → Intact v s → Good v s (λ _. 0) (Future.make_ready_future x s)
  unfolding Future.make_ready_future Promise.make_promise
  make_ready-Good x s h =
      bind-Good v s (λ y. promise_refs v y.0) (λ _. 0) (Promise.make_promise plain) _
        (made-Good v plain (λ p. (Promise.awaited p, p)) (λ y. promise_refs v y.0) s h (omega arith)
          (λ p. omega arith))
        (λ y t g k.
          bind-Good v t (λ _. 0) (λ _. 0) (Promise.set_value y.0 x) _
            (set_value-Good v y.0 x t g.low k)
            (λ _ r l m.
              bind-Good v r (λ _. 0) (λ _. 0) (Promise.destroy y.0) _ (destroy-Good v y.0 r l.low)
                (λ _ q i j. (same-Grown v q i.low, omega arith))))

  make_exceptional-Good :
      (e : Error) (s : Store V)
      → Intact v s
      → Good v s (λ _. 0) (Future.make_exceptional_future e s)
  unfolding Future.make_exceptional_future Promise.make
  make_exceptional-Good e s h =
      bind-Good v s (promise_refs v) (λ _. 0) (Promise.make plain) _
        (made-Good v plain Promise.owning (promise_refs v) s h (omega arith) (λ p. omega arith))
        (λ r t g k.
          bind-Good v t (λ _. 0) (λ _. 0) (Promise.set_exception r e) _
            (promise_exception-Good v r e t g.low k)
            (λ _ q l m.
              bind-Good v q (λ y. pointer v y.0 + promise_refs v y.1) (λ _. 0)
                (Promise.get_future r) _ (get_future-Good v r q l.low (omega (arith, k, l.grown)))
                (λ y a i j.
                  bind-Good v a (λ _. 0) (λ _. 0) (Promise.destroy y.1) _
                    (destroy-Good v y.1 a i.low) (λ _ b n o. (same-Grown v b n.low, omega arith)))))

  giving-Spares :
      {A : Type 0} (s : Store V) (out : A → ℕ) (m : Code (Store V) A) (g : A → Pointers)
      → Good v s out (m s)
      → Spares v (giving g m s)
  giving-Spares s out m g c =
      Good-Spares v s (λ _. 0) (giving g m s)
        (bind-Good v s out (λ _. 0) m (λ a. pure (g a)) c
          (λ a t k l. (same-Grown v t k.low, omega arith)))

  pub answer-Spares :
      (r : Request V) (s : Store V) → Intact v s → uses r v ≤ owners v s → Spares v (answer r s)
  unfolding answer Promise.make_promise Promise.make
  answer-Spares (Request.make_promise f) s h u =
      giving-Spares s (λ y. pointer v y.1) (Promise.make_promise f)
        (λ y v. promise_refs v y.0 + pointer v y.1)
        (made-Good v f (λ p. (Promise.awaited p, p)) (λ y. pointer v y.1) s h
          (omega (arith, u, frame_parent-refs f)) (λ p. omega arith))
  answer-Spares (Request.make_owning f) s h u =
      giving-Spares s (promise_refs v) (Promise.make f) (λ r v. promise_refs v r)
        (made-Good v f Promise.owning (promise_refs v) s h (omega (arith, u, frame_parent-refs f))
          (λ p. omega arith))
  answer-Spares (Request.set_value r x) s h u =
      giving-Spares s (λ _. 0) (Promise.set_value r x) (λ _ v. 0) (set_value-Good v r x s h u)
  answer-Spares (Request.set_exception r e) s h u =
      giving-Spares s (λ _. 0) (Promise.set_exception r e) (λ _ v. 0)
        (promise_exception-Good v r e s h u)
  answer-Spares (Request.get_future r) s h u =
      giving-Spares s (λ y. pointer v y.0 + promise_refs v y.1) (Promise.get_future r)
        (λ y v. pointer v y.0 + promise_refs v y.1) (get_future-Good v r s h u)
  answer-Spares (Request.destroy_promise r) s h u =
      giving-Spares s (λ _. 0) (Promise.destroy r) (λ _ v. 0) (destroy-Good v r s h)
  answer-Spares (Request.assign_promise r q) s h u =
      giving-Spares s (λ _. 0) (Promise.assign r q) (λ _ v. 0) (assign-Good v r q s h)
  answer-Spares (Request.is_ready f) s h u =
      giving-Spares s (λ _. 0) (Future.is_ready f) (λ _ v. 0) (is_ready-Good v f s h u)
  answer-Spares (Request.add_notification f n) s h u =
      giving-Spares s (λ _. 0) (Future.add_notification f n) (λ _ v. 0)
        (add_notification-Good v f n s h u)
  answer-Spares (Request.add_notification_on f x n) s h u =
      giving-Spares s (λ _. 0) (Future.add_notification_on f x n) (λ _ v. 0)
        (add_notification_on-Good v f x n s h u)
  answer-Spares (Request.detach f) s h u =
      giving-Spares s (λ _. 0) (Future.detach f) (λ _ v. 0) (detach-Good v f s h u)
  answer-Spares (Request.get f) s h u =
      giving-Spares s (λ _. 0) (Future.get f) (λ _ v. 0) (get-Good v f s h u)
  answer-Spares (Request.get_shared f) s h u =
      giving-Spares s (λ _. 0) (Future.get_shared f) (λ _ v. 0) (get_shared-Good v f s h u)
  answer-Spares (Request.assign_future f g) s h u =
      giving-Spares s (λ _. 0) (Future.assign f g) (λ _ v. 0) (assign_future-Good v f g s h)
  answer-Spares (Request.copy_assign_future f g) s h u =
      giving-Spares s (λ _. 0) (Future.copy_assign f g) (λ f v. option_refs v f)
        (copy_assign-Good v f g s h (omega (arith, u)))
  answer-Spares (Request.copy f) s h u =
      giving-Spares s (option_refs v) (Future.copy f) (λ f v. option_refs v f) (copy-Good v f s h u)
  answer-Spares (Request.destroy_future f) s h u =
      giving-Spares s (λ _. 0) (Future.destroy f) (λ _ v. 0) (destroy_future-Good v f s h)
  answer-Spares (Request.make_ready x) s h u =
      giving-Spares s (λ _. 0) (Future.make_ready_future x) (λ f v. option_refs v f)
        (make_ready-Good x s h)
  answer-Spares (Request.make_exceptional e) s h u =
      giving-Spares s (λ _. 0) (Future.make_exceptional_future e) (λ f v. option_refs v f)
        (make_exceptional-Good e s h)
  answer-Spares (Request.then_ f x g) s h u =
      giving-Spares s (λ _. 0) (attach_then f x g) (λ f v. option_refs v f)
        (attach_then-Good v f x g s h u)
  answer-Spares (Request.next_ f x g) s h u =
      giving-Spares s (λ _. 0) (attach_next f x g) (λ f v. option_refs v f)
        (attach_next-Good v f x g s h u)
  answer-Spares (Request.shared_then f x g) s h u =
      giving-Spares s (λ _. 0) (attach_shared_then f x g) (λ f v. option_refs v f)
        (shared_then-Good v f x g s h u)
  answer-Spares (Request.shared_next f x g) s h u =
      giving-Spares s (λ _. 0) (attach_shared_next f x g) (λ f v. option_refs v f)
        (shared_next-Good v f x g s h u)
  answer-Spares (Request.interruptible f x g) s h u =
      giving-Spares s (λ _. 0) (attach_interruptible f x g) (λ f v. option_refs v f)
        (interruptible-Good v f x g s h u)
  answer-Spares (Request.shared_interruptible f x g) s h u =
      giving-Spares s (λ _. 0) (attach_shared_interruptible f x g) (λ f v. option_refs v f)
        (shared_interruptible-Good v f x g s h u)
  answer-Spares (Request.make_task f) s h u =
      giving-Spares s (task_refs v) (PackagedTask.make f) (λ t v. task_refs v t)
        (make_task-Good v f s h)
  answer-Spares (Request.call_task t a) s h u =
      giving-Spares s (λ _. 0) (PackagedTask.call t a) (λ _ v. 0) (call_task-Good v t a s h u)
  answer-Spares (Request.task_future t) s h u =
      giving-Spares s (λ y. pointer v y.0) (PackagedTask.get_future t)
        (λ y v. pointer v y.0 + task_refs v y.1) (task_future-Good v t s h u)
  answer-Spares (Request.destroy_task t) s h u =
      giving-Spares s (λ _. 0) (PackagedTask.destroy t) (λ _ v. 0) (destroy_task-Good v t s h u)
  answer-Spares (Request.assign_task t q) s h u =
      giving-Spares s (λ _. 0) (PackagedTask.assign t q) (λ _ v. 0) (assign_task-Good v t q s h u)
  answer-Spares (Request.run_async x f a) s h u =
      giving-Spares s (λ _. 0) (PackagedTask.async x f a) (λ f v. option_refs v f)
        (async-Good v x f a s h)
  answer-Spares (Request.execute_posted i) s h u =
      giving-Spares s (λ _. 0) (run_posted i) (λ _ v. 0) (run_posted-Good v i s h)
  answer-Spares (Request.discard_posted i) s h u =
      giving-Spares s (λ _. 0) (drop_posted i) (λ _ v. 0) (drop_posted-Good v i s h)
