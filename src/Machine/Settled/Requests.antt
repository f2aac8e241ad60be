-- ===== src/Machine/Settled/Requests.antt =====
-- Every call of the user's code does.
use portable_concurrency.Prelude.{Option, none, some, ℕ, none, some, List}
use portable_concurrency.Store.{
  Posted, scheduled, packaged, notification, Code, pure, ◌>>=◌, ◌>>◌, Store, Function, Action,
  then_action, next_action, promise_action, Handler, Executor, continuation, schedule,
}
use portable_concurrency.Owners.{share, make_shared}
use portable_concurrency.SharedState.{push}
use portable_concurrency.Promise.{Promise, promise_parts, with_state, get_state}
use portable_concurrency.Promise
use portable_concurrency.Future.{Future, state_of, require, value_ref, value_of}
use portable_concurrency.Future
use portable_concurrency.Then.{
  make_then_state, attach_then, attach_next, attach_shared_then, attach_shared_next,
}
use portable_concurrency.Interrupt.{attach_interruptible, attach_shared_interruptible}
use portable_concurrency.Machine.{
  call_action, drop_action, take_from, take_out, run_posted, drop_posted,
}
use portable_concurrency.Machine.System.{Request, serve}
use portable_concurrency.Machine.Settled.Defs.{Holds}
use portable_concurrency.Machine.Settled.Operations.{
  Keeps, bind-Keeps, share-Keeps, push-Holds, make_shared-Keeps,
}
use portable_concurrency.Machine.Settled.Steps.{
  destroy_task-Keeps, run_weak-Keeps, abandon_weak-Keeps,
}
use portable_concurrency.PackagedTask.{awaited}
use portable_concurrency.PackagedTask
use portable_concurrency.Machine.Settled.Tasks.{
  make_task-Keeps, call_task-Keeps, task_future-Keeps, assign_task-Keeps, call_posted-Keeps,
  async-Keeps,
}
use portable_concurrency.Machine.Settled.Promises.{
  void-Keeps, set_value-Keeps, promise_exception-Keeps, get_future-Keeps, destroy-Keeps,
  assign-Keeps, make_promise-Keeps, make-Keeps,
}
use portable_concurrency.Machine.Settled.Futures.{
  is_ready-Keeps, add_notification-Keeps, add_notification_on-Keeps, detach-Keeps, get-Keeps,
  get_shared-Keeps, copy-Keeps, destroy_future-Keeps, assign_future-Keeps, copy_assign-Keeps,
  make_ready-Keeps, make_exceptional-Keeps,
}

module _ {V : Type 0} where
  -- Continuations.
  make_then_state-Keeps : (p : ℕ) (x : Executor) (a : Action V) → Keeps (make_then_state p x a)
  unfolding make_then_state
  make_then_state-Keeps p x a =
      bind-Keeps (make_shared (continuation (some x) (some a))) (λ r. push p (schedule r) >> pure r)
        (make_shared-Keeps (continuation (some x) (some a)))
        (λ r.
          bind-Keeps (push p (schedule r)) (λ _. pure r) (λ t k. push-Holds p (schedule r) t tt k)
            (λ _ t k. k))

  attach-Keeps :
      (p : ℕ) (x : Executor) (a : Action V) → Keeps (make_then_state p x a >>= λ r. pure (some r))
  attach-Keeps p x a =
      bind-Keeps (make_then_state p x a) (λ r. pure (some r)) (make_then_state-Keeps p x a)
        (λ _ t k. k)

  attach_then-Keeps : (f : Future) (x : Executor) (g : Function V) → Keeps (attach_then f x g)
  unfolding attach_then
  attach_then-Keeps none x g s h = h
  attach_then-Keeps (some p) x g s h = attach-Keeps p x (then_action g p) s h

  attach_next-Keeps : (f : Future) (x : Executor) (g : Function V) → Keeps (attach_next f x g)
  unfolding attach_next
  attach_next-Keeps none x g s h = h
  attach_next-Keeps (some p) x g s h = attach-Keeps p x (next_action g p) s h

  shared_then-Keeps :
      (f : Future) (x : Executor) (g : Function V) → Keeps (attach_shared_then f x g)
  unfolding attach_shared_then
  shared_then-Keeps none x g s h = h
  shared_then-Keeps (some p) x g s h =
      bind-Keeps (share p) (λ _. make_then_state p x (then_action g p) >>= λ r. pure (some r))
        (share-Keeps p) (λ _. attach-Keeps p x (then_action g p)) s h

  shared_next-Keeps :
      (f : Future) (x : Executor) (g : Function V) → Keeps (attach_shared_next f x g)
  unfolding attach_shared_next
  shared_next-Keeps none x g s h = h
  shared_next-Keeps (some p) x g s h =
      bind-Keeps (share p) (λ _. make_then_state p x (next_action g p) >>= λ r. pure (some r))
        (share-Keeps p) (λ _. attach-Keeps p x (next_action g p)) s h

  interruptible-Keeps :
      (f : Future) (x : Executor) (g : Handler V) → Keeps (attach_interruptible f x g)
  unfolding attach_interruptible
  interruptible-Keeps none x g s h = h
  interruptible-Keeps (some p) x g s h = attach-Keeps p x (promise_action g p) s h

  shared_interruptible-Keeps :
      (f : Future) (x : Executor) (g : Handler V) → Keeps (attach_shared_interruptible f x g)
  unfolding attach_shared_interruptible
  shared_interruptible-Keeps none x g s h = h
  shared_interruptible-Keeps (some p) x g s h = attach-Keeps p x (promise_action g p) s h

  -- Executors of the user.
  posted-Keeps :
      (f : Posted → Code (Store V) (Unit {0}))
      → ((a : Posted) → Keeps (f a))
      → (s : Store V) (o : Option (Posted × List (ℕ × Posted))) → Holds s
      → Holds (take_from f s o).1
  posted-Keeps f k s none h = h
  posted-Keeps f k s (some (a, rest)) h = k a (record s { posted = rest }) h

  call_action-Keeps : (a : Posted) → Keeps (call_action {V = V} a)
  call_action-Keeps (scheduled w) = run_weak-Keeps w
  call_action-Keeps (packaged p) = call_posted-Keeps p
  call_action-Keeps (notification n) = λ s h. h

  drop_action-Keeps : (a : Posted) → Keeps (drop_action {V = V} a)
  drop_action-Keeps (scheduled w) = abandon_weak-Keeps w
  drop_action-Keeps (packaged p) = destroy_task-Keeps (awaited p)
  drop_action-Keeps (notification n) = λ s h. h

  run_posted-Keeps : (i : ℕ) → Keeps (run_posted {V = V} i)
  unfolding run_posted
  run_posted-Keeps i s h = posted-Keeps call_action call_action-Keeps s (take_out i s.posted) h

  drop_posted-Keeps : (i : ℕ) → Keeps (drop_posted {V = V} i)
  unfolding drop_posted
  drop_posted-Keeps i s h = posted-Keeps drop_action drop_action-Keeps s (take_out i s.posted) h

  pub serve-Keeps : (r : Request V) → Keeps (serve r)
  unfolding serve
  serve-Keeps (Request.make_promise f) = void-Keeps (Promise.make_promise f) (make_promise-Keeps f)
  serve-Keeps (Request.make_owning f) = void-Keeps (Promise.make f) (make-Keeps f)
  serve-Keeps (Request.set_value r v) = set_value-Keeps r v
  serve-Keeps (Request.set_exception r e) = promise_exception-Keeps r e
  serve-Keeps (Request.get_future r) = void-Keeps (Promise.get_future r) (get_future-Keeps r)
  serve-Keeps (Request.destroy_promise r) = destroy-Keeps r
  serve-Keeps (Request.assign_promise r q) = void-Keeps (Promise.assign r q) (assign-Keeps r q)
  serve-Keeps (Request.is_ready f) = void-Keeps (Future.is_ready f) (is_ready-Keeps f)
  serve-Keeps (Request.add_notification f n) = add_notification-Keeps f n
  serve-Keeps (Request.add_notification_on f x n) = add_notification_on-Keeps f x n
  serve-Keeps (Request.detach f) = void-Keeps (Future.detach f) (detach-Keeps f)
  serve-Keeps (Request.get f) = void-Keeps (Future.get f) (get-Keeps f)
  serve-Keeps (Request.get_shared f) = void-Keeps (Future.get_shared f) (get_shared-Keeps f)
  serve-Keeps (Request.assign_future f g) = void-Keeps (Future.assign f g) (assign_future-Keeps f g)
  serve-Keeps (Request.copy_assign_future f g) =
      void-Keeps (Future.copy_assign f g) (copy_assign-Keeps f g)
  serve-Keeps (Request.copy f) = void-Keeps (Future.copy f) (copy-Keeps f)
  serve-Keeps (Request.destroy_future f) = destroy_future-Keeps f
  serve-Keeps (Request.make_ready v) = void-Keeps (Future.make_ready_future v) (make_ready-Keeps v)
  serve-Keeps (Request.make_exceptional e) =
      void-Keeps (Future.make_exceptional_future e) (make_exceptional-Keeps e)
  serve-Keeps (Request.then_ f x g) = void-Keeps (attach_then f x g) (attach_then-Keeps f x g)
  serve-Keeps (Request.next_ f x g) = void-Keeps (attach_next f x g) (attach_next-Keeps f x g)
  serve-Keeps (Request.shared_then f x g) =
      void-Keeps (attach_shared_then f x g) (shared_then-Keeps f x g)
  serve-Keeps (Request.shared_next f x g) =
      void-Keeps (attach_shared_next f x g) (shared_next-Keeps f x g)
  serve-Keeps (Request.interruptible f x g) =
      void-Keeps (attach_interruptible f x g) (interruptible-Keeps f x g)
  serve-Keeps (Request.shared_interruptible f x g) =
      void-Keeps (attach_shared_interruptible f x g) (shared_interruptible-Keeps f x g)
  serve-Keeps (Request.make_task f) = void-Keeps (PackagedTask.make f) (make_task-Keeps f)
  serve-Keeps (Request.call_task t a) = call_task-Keeps t a
  serve-Keeps (Request.task_future t) = void-Keeps (PackagedTask.get_future t) (task_future-Keeps t)
  serve-Keeps (Request.destroy_task t) = destroy_task-Keeps t
  serve-Keeps (Request.assign_task t u) =
      void-Keeps (PackagedTask.assign t u) (assign_task-Keeps t u)
  serve-Keeps (Request.run_async x f a) = void-Keeps (PackagedTask.async x f a) (async-Keeps x f a)
  serve-Keeps (Request.execute_posted i) = run_posted-Keeps i
  serve-Keeps (Request.discard_posted i) = drop_posted-Keeps i
