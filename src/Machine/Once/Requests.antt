-- ===== src/Machine/Once/Requests.antt =====
-- Every call of the user's code is: what is posted pays for itself.
use portable_concurrency.Prelude.{
  ℕ, zero, suc, ◌+◌, ◌≤◌, ◌≡◌, refl, Option, none, some, List, [], ◌∷◌, arith,
}
use portable_concurrency.Store.{Code, Posted, scheduled, packaged, notification, Store}
use portable_concurrency.Promise
use portable_concurrency.Future
use portable_concurrency.Then.{attach_then, attach_next, attach_shared_then, attach_shared_next}
use portable_concurrency.PackagedTask.{awaited}
use portable_concurrency.PackagedTask
use portable_concurrency.Interrupt.{attach_interruptible, attach_shared_interruptible}
use portable_concurrency.Machine.{
  call_action, drop_action, take_from, take_out, put_back, run_posted, drop_posted,
}
use portable_concurrency.Machine.System.{Request, serve}
use portable_concurrency.Machine.Once.Tokens.{sum, in_posted}
use portable_concurrency.Machine.Once.Prices.{Low, Adds, Costs, nothing-Adds, less-Adds}
use portable_concurrency.Machine.Once.Steps.{
  log-Adds, destroy_task-Costs, run_weak-Costs, abandon_weak-Costs,
}
use portable_concurrency.Machine.Once.Promises.{
  free-void, set_value-Costs, promise_exception-Costs, get_future-Costs, destroy-Costs,
  assign-Costs, make_promise-Costs, make-Costs,
}
use portable_concurrency.Machine.Once.Futures.{
  is_ready-Costs, add_notification-Costs, add_notification_on-Costs, detach-Costs, get-Costs,
  get_shared-Costs, copy-Costs, destroy_future-Costs, assign_future-Costs, copy_assign-Costs,
  make_ready-Costs, make_exceptional-Costs, attach_then-Costs, attach_next-Costs, shared_then-Costs,
  shared_next-Costs, interruptible-Costs, shared_interruptible-Costs,
}
use portable_concurrency.Machine.Once.Tasks.{
  make_task-Costs, call_task-Costs, task_future-Costs, assign_task-Costs, call_posted-Costs,
  async-Costs,
}

abbrev price : ℕ → Posted → ℕ
price v a = in_posted v (0, a)

module _ (v : ℕ) where
  -- What is taken out, and what is left, had been paid for.
  abbrev taken : Option (Posted × List (ℕ × Posted)) → ℕ
  taken none = 0
  taken (some (a, rest)) = price v a + sum (in_posted v) rest

  price-in_posted : (k : ℕ) (a : Posted) → price v a ≡ in_posted v (k, a)
  price-in_posted k (scheduled w) = refl
  price-in_posted k (packaged w) = refl
  price-in_posted k (notification n) = refl

  put_back-taken :
      (x : ℕ × Posted) (o : Option (Posted × List (ℕ × Posted)))
      → taken (put_back x o) ≤ in_posted v x + taken o
  put_back-taken x none = omega arith
  put_back-taken x (some (a, rest)) = omega arith

  take_out-taken : (i : ℕ) (ps : List (ℕ × Posted)) → taken (take_out i ps) ≤ sum (in_posted v) ps
  take_out-taken i [] = omega arith
  take_out-taken zero ((k, a) ∷ rest) = omega (arith, price-in_posted k a)
  take_out-taken (suc i) (x ∷ rest) =
      omega (arith, put_back-taken x (take_out i rest), take_out-taken i rest)

module _ {V : Type 0} (v : ℕ) where
  -- What an executor takes pays for itself.
  posted-Adds :
      (f : Posted → Code (Store V) (Unit {0}))
      → ((a : Posted) → Costs v (price v a) (f a))
      → (s : Store V) (o : Option (Posted × List (ℕ × Posted)))
      → taken v o ≤ sum (in_posted v) s.posted
      → Low v s
      → Adds v 0 s (take_from f s o).1
  posted-Adds f k s none e h = nothing-Adds v 0 s h
  posted-Adds f k s (some (a, rest)) e h =
      let x = k a (record s { posted = rest }) h in
      record { low = x.low; fresh = x.fresh; tokens = omega (arith, x.tokens, e) }

  call_action-Costs : (a : Posted) → Costs v (price v a) (call_action {V = V} a)
  call_action-Costs (scheduled w) s h = run_weak-Costs v w s h
  call_action-Costs (packaged p) s h = call_posted-Costs v p s h
  call_action-Costs (notification n) s h = log-Adds v s _ h

  drop_action-Costs : (a : Posted) → Costs v (price v a) (drop_action {V = V} a)
  drop_action-Costs (scheduled w) s h =
      less-Adds v s _ 0 (price v (scheduled w)) (abandon_weak-Costs v w s h) (omega arith)
  drop_action-Costs (notification n) s h = nothing-Adds v 0 s h
  drop_action-Costs (packaged p) s h = destroy_task-Costs v (awaited p) s h

  run_posted-Costs : (i : ℕ) → Costs v 0 (run_posted {V = V} i)
  unfolding run_posted
  run_posted-Costs i s h =
      posted-Adds call_action call_action-Costs s (take_out i s.posted)
        (take_out-taken v i s.posted) h

  drop_posted-Costs : (i : ℕ) → Costs v 0 (drop_posted {V = V} i)
  unfolding drop_posted
  drop_posted-Costs i s h =
      posted-Adds drop_action drop_action-Costs s (take_out i s.posted)
        (take_out-taken v i s.posted) h

  pub serve-Costs : (r : Request V) → Costs v 0 (serve r)
  unfolding serve
  serve-Costs (Request.make_promise f) =
      free-void v (Promise.make_promise f) (make_promise-Costs v f)
  serve-Costs (Request.make_owning f) = free-void v (Promise.make f) (make-Costs v f)
  serve-Costs (Request.set_value r x) = set_value-Costs v r x
  serve-Costs (Request.set_exception r e) = promise_exception-Costs v r e
  serve-Costs (Request.get_future r) = free-void v (Promise.get_future r) (get_future-Costs v r)
  serve-Costs (Request.destroy_promise r) = destroy-Costs v r
  serve-Costs (Request.assign_promise r q) = free-void v (Promise.assign r q) (assign-Costs v r q)
  serve-Costs (Request.is_ready f) = free-void v (Future.is_ready f) (is_ready-Costs v f)
  serve-Costs (Request.add_notification f n) = add_notification-Costs v f n
  serve-Costs (Request.add_notification_on f x n) = add_notification_on-Costs v f x n
  serve-Costs (Request.detach f) = free-void v (Future.detach f) (detach-Costs v f)
  serve-Costs (Request.get f) = free-void v (Future.get f) (get-Costs v f)
  serve-Costs (Request.get_shared f) = free-void v (Future.get_shared f) (get_shared-Costs v f)
  serve-Costs (Request.assign_future f g) =
      free-void v (Future.assign f g) (assign_future-Costs v f g)
  serve-Costs (Request.copy_assign_future f g) =
      free-void v (Future.copy_assign f g) (copy_assign-Costs v f g)
  serve-Costs (Request.copy f) = free-void v (Future.copy f) (copy-Costs v f)
  serve-Costs (Request.destroy_future f) = destroy_future-Costs v f
  serve-Costs (Request.make_ready x) =
      free-void v (Future.make_ready_future x) (make_ready-Costs v x)
  serve-Costs (Request.make_exceptional e) =
      free-void v (Future.make_exceptional_future e) (make_exceptional-Costs v e)
  serve-Costs (Request.then_ f x g) = free-void v (attach_then f x g) (attach_then-Costs v f x g)
  serve-Costs (Request.next_ f x g) = free-void v (attach_next f x g) (attach_next-Costs v f x g)
  serve-Costs (Request.shared_then f x g) =
      free-void v (attach_shared_then f x g) (shared_then-Costs v f x g)
  serve-Costs (Request.shared_next f x g) =
      free-void v (attach_shared_next f x g) (shared_next-Costs v f x g)
  serve-Costs (Request.interruptible f x g) =
      free-void v (attach_interruptible f x g) (interruptible-Costs v f x g)
  serve-Costs (Request.shared_interruptible f x g) =
      free-void v (attach_shared_interruptible f x g) (shared_interruptible-Costs v f x g)
  serve-Costs (Request.make_task f) = free-void v (PackagedTask.make f) (make_task-Costs v f)
  serve-Costs (Request.call_task t a) = call_task-Costs v t a
  serve-Costs (Request.task_future t) =
      free-void v (PackagedTask.get_future t) (task_future-Costs v t)
  serve-Costs (Request.destroy_task t) = destroy_task-Costs v t
  serve-Costs (Request.assign_task t u) =
      free-void v (PackagedTask.assign t u) (assign_task-Costs v t u)
  serve-Costs (Request.run_async x f a) =
      free-void v (PackagedTask.async x f a) (async-Costs v x f a)
  serve-Costs (Request.execute_posted i) = run_posted-Costs i
  serve-Costs (Request.discard_posted i) = drop_posted-Costs i
