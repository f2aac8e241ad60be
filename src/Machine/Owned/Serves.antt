-- ===== src/Machine/Owned/Serves.antt =====
-- The client's side of a call changes nothing in the store.
use portable_concurrency.Prelude.{◌+◌, ◌≡◌, refl}
use portable_concurrency.Store.{pure, done, thrown, undefined, dangling, Ends, and_then, Store}
use portable_concurrency.Promise
use portable_concurrency.Future
use portable_concurrency.PackagedTask
use portable_concurrency.Interrupt.{attach_interruptible, attach_shared_interruptible}
use portable_concurrency.Then.{attach_then, attach_next, attach_shared_then, attach_shared_next}
use portable_concurrency.Machine.{run_posted, drop_posted}
use portable_concurrency.Machine.System.{Request, serve}
use portable_concurrency.Machine.Owned.Refs.{pointer, option_refs}
use portable_concurrency.Machine.Owned.Promises.{promise_refs}
use portable_concurrency.Machine.Owned.Tasks.{task_refs}
use portable_concurrency.Machine.Owned.Runs.{Pointers, answer}

module _ {V : Type 0} where
  giving-state :
      {A : Type 0} (g : A → Pointers) (r : Ends A × Store V)
      → (and_then r (λ a. pure (g a))).1 ≡ r.1
  giving-state g (done a, s) = refl
  giving-state g (thrown e, s) = refl
  giving-state g (undefined, s) = refl
  giving-state g (dangling p, s) = refl

  same-state :
      {A : Type 0} (g : A → Pointers) (r : Ends A × Store V)
      → (and_then r (λ a. pure (g a))).1 ≡ (and_then r (λ a. pure {S = Store V} tt)).1
  same-state g (done a, s) = refl
  same-state g (thrown e, s) = refl
  same-state g (undefined, s) = refl
  same-state g (dangling p, s) = refl

  pub answer_serves : (r : Request V) (s : Store V) → (answer r s).1 ≡ (serve r s).1
  unfolding answer serve
  answer_serves (Request.make_promise f) s =
      same-state (λ y v. promise_refs v y.0 + pointer v y.1) ((Promise.make_promise f) s)
  answer_serves (Request.make_owning f) s =
      same-state (λ r v. promise_refs v r) ((Promise.make f) s)
  answer_serves (Request.set_value r x) s = giving-state (λ _ v. 0) ((Promise.set_value r x) s)
  answer_serves (Request.set_exception r e) s =
      giving-state (λ _ v. 0) ((Promise.set_exception r e) s)
  answer_serves (Request.get_future r) s =
      same-state (λ y v. pointer v y.0 + promise_refs v y.1) ((Promise.get_future r) s)
  answer_serves (Request.destroy_promise r) s = giving-state (λ _ v. 0) ((Promise.destroy r) s)
  answer_serves (Request.assign_promise r q) s = same-state (λ _ v. 0) ((Promise.assign r q) s)
  answer_serves (Request.is_ready f) s = same-state (λ _ v. 0) ((Future.is_ready f) s)
  answer_serves (Request.add_notification f n) s =
      giving-state (λ _ v. 0) ((Future.add_notification f n) s)
  answer_serves (Request.add_notification_on f x n) s =
      giving-state (λ _ v. 0) ((Future.add_notification_on f x n) s)
  answer_serves (Request.detach f) s = same-state (λ _ v. 0) ((Future.detach f) s)
  answer_serves (Request.get f) s = same-state (λ _ v. 0) ((Future.get f) s)
  answer_serves (Request.get_shared f) s = same-state (λ _ v. 0) ((Future.get_shared f) s)
  answer_serves (Request.assign_future f g) s = same-state (λ _ v. 0) (Future.assign f g s)
  answer_serves (Request.copy_assign_future f g) s =
      same-state (λ f v. option_refs v f) (Future.copy_assign f g s)
  answer_serves (Request.copy f) s = same-state (λ f v. option_refs v f) ((Future.copy f) s)
  answer_serves (Request.destroy_future f) s = giving-state (λ _ v. 0) ((Future.destroy f) s)
  answer_serves (Request.make_ready x) s =
      same-state (λ f v. option_refs v f) ((Future.make_ready_future x) s)
  answer_serves (Request.make_exceptional e) s =
      same-state (λ f v. option_refs v f) ((Future.make_exceptional_future e) s)
  answer_serves (Request.then_ f x g) s =
      same-state (λ f v. option_refs v f) ((attach_then f x g) s)
  answer_serves (Request.next_ f x g) s =
      same-state (λ f v. option_refs v f) ((attach_next f x g) s)
  answer_serves (Request.shared_then f x g) s =
      same-state (λ f v. option_refs v f) ((attach_shared_then f x g) s)
  answer_serves (Request.shared_next f x g) s =
      same-state (λ f v. option_refs v f) ((attach_shared_next f x g) s)
  answer_serves (Request.interruptible f x g) s =
      same-state (λ f v. option_refs v f) ((attach_interruptible f x g) s)
  answer_serves (Request.shared_interruptible f x g) s =
      same-state (λ f v. option_refs v f) ((attach_shared_interruptible f x g) s)
  answer_serves (Request.make_task f) s =
      same-state (λ t v. task_refs v t) ((PackagedTask.make f) s)
  answer_serves (Request.call_task t a) s = giving-state (λ _ v. 0) ((PackagedTask.call t a) s)
  answer_serves (Request.task_future t) s =
      same-state (λ y v. pointer v y.0 + task_refs v y.1) ((PackagedTask.get_future t) s)
  answer_serves (Request.destroy_task t) s = giving-state (λ _ v. 0) ((PackagedTask.destroy t) s)
  answer_serves (Request.assign_task t u) s = same-state (λ _ v. 0) ((PackagedTask.assign t u) s)
  answer_serves (Request.run_async x f a) s =
      same-state (λ f v. option_refs v f) ((PackagedTask.async x f a) s)
  answer_serves (Request.execute_posted i) s = giving-state (λ _ v. 0) (run_posted i s)
  answer_serves (Request.discard_posted i) s = giving-state (λ _ v. 0) (drop_posted i s)
