-- ===== src/Machine/System.antt =====
-- Everything that can happen to the store: a job goes on, or some code of the user's calls the
-- library, at any moment and with any pointers, also while other calls are under way.
use portable_concurrency.Prelude.{ℕ, ◌≡◌, none, List, [], ◌∷◌, ◌++◌}
use portable_concurrency.PackagedTask.{PackagedTask}
use portable_concurrency.PackagedTask
use portable_concurrency.Store.{
  thrown, Job, release, clean, Result, Code, pure, ◌>>=◌, Error, Store, Frame, Function, Handler,
  Executor,
}
use portable_concurrency.Interrupt.{attach_interruptible, attach_shared_interruptible}
use portable_concurrency.Promise.{Promise}
use portable_concurrency.Promise
use portable_concurrency.Future.{Future}
use portable_concurrency.Future
use portable_concurrency.Then.{attach_then, attach_next, attach_shared_then, attach_shared_next}
use portable_concurrency.Machine.{step, run_posted, drop_posted}

pub data Request (V : Type 0) : Type 0 where
  make_promise : Frame V → Request V
  make_owning : Frame V → Request V
  set_value : Promise → V → Request V
  set_exception : Promise → Error → Request V
  get_future : Promise → Request V
  destroy_promise : Promise → Request V
  assign_promise : Promise → Promise → Request V
  is_ready : Future → Request V
  add_notification : Future → ℕ → Request V
  add_notification_on : Future → Executor → ℕ → Request V
  detach : Future → Request V
  get : Future → Request V
  get_shared : Future → Request V
  copy : Future → Request V
  destroy_future : Future → Request V
  assign_future : Future → Future → Request V
  copy_assign_future : Future → Future → Request V
  make_ready : V → Request V
  make_exceptional : Error → Request V
  then_ : Future → Executor → Function V → Request V
  next_ : Future → Executor → Function V → Request V
  shared_then : Future → Executor → Function V → Request V
  shared_next : Future → Executor → Function V → Request V
  interruptible : Future → Executor → Handler V → Request V
  shared_interruptible : Future → Executor → Handler V → Request V
  make_task : Function V → Request V
  call_task : PackagedTask → Result V → Request V
  task_future : PackagedTask → Request V
  destroy_task : PackagedTask → Request V
  assign_task : PackagedTask → PackagedTask → Request V
  run_async : Executor → Function V → Result V → Request V
  execute_posted : ℕ → Request V
  discard_posted : ℕ → Request V

module _ {V : Type 0} where
  abbrev pub void : {A : Type 0} → Code (Store V) A → Code (Store V) (Unit {0})
  void m = m >>= λ _. pure tt

  unfoldable pub serve : Request V → Code (Store V) (Unit {0})
  serve (make_promise f) = void (Promise.make_promise f)
  serve (make_owning f) = void (Promise.make f)
  serve (set_value r v) = Promise.set_value r v
  serve (set_exception r e) = Promise.set_exception r e
  serve (get_future r) = void (Promise.get_future r)
  serve (destroy_promise r) = Promise.destroy r
  serve (assign_promise r q) = void (Promise.assign r q)
  serve (is_ready f) = void (Future.is_ready f)
  serve (add_notification f n) = Future.add_notification f n
  serve (add_notification_on f x n) = Future.add_notification_on f x n
  serve (detach f) = void (Future.detach f)
  serve (get f) = void (Future.get f)
  serve (get_shared f) = void (Future.get_shared f)
  serve (copy f) = void (Future.copy f)
  serve (destroy_future f) = Future.destroy f
  serve (assign_future f g) = void (Future.assign f g)
  serve (copy_assign_future f g) = void (Future.copy_assign f g)
  serve (make_ready v) = void (Future.make_ready_future v)
  serve (make_exceptional e) = void (Future.make_exceptional_future e)
  serve (then_ f x g) = void (attach_then f x g)
  serve (next_ f x g) = void (attach_next f x g)
  serve (shared_then f x g) = void (attach_shared_then f x g)
  serve (shared_next f x g) = void (attach_shared_next f x g)
  serve (interruptible f x g) = void (attach_interruptible f x g)
  serve (shared_interruptible f x g) = void (attach_shared_interruptible f x g)
  serve (make_task f) = void (PackagedTask.make f)
  serve (call_task t a) = PackagedTask.call t a
  serve (task_future t) = void (PackagedTask.get_future t)
  serve (destroy_task t) = PackagedTask.destroy t
  serve (assign_task t u) = void (PackagedTask.assign t u)
  serve (run_async x f a) = void (PackagedTask.async x f a)
  serve (execute_posted i) = run_posted i
  serve (discard_posted i) = drop_posted i

  abbrev pub init : Store V
  init = record { states = λ _. none; fresh = 0; jobs = []; posted = []; seen = [] }

  pub data Reach : Store V → Type 0 where
    start : Reach init
    job : {s : Store V} → Reach s → Reach (step s).1
    request : {s : Store V} (r : Request V) → Reach s → Reach (serve r s).1

  -- An exception that leaves a job leaves `task_state::run`: what follows the call is skipped, but
  -- the pointers that it has are released.
  abbrev pub unwind : List (Job V) → List (Job V)
  unwind (release p ∷ js) = release p ∷ unwind js
  unwind (clean w ∷ js) = js
  unwind js = js

  -- The same with any number of threads: with the calls that are under way in those that wait. The
  -- thread that runs goes on, or calls; another one begins, or takes its turn.
  pub data Interleaved : Store V → List (List (Job V)) → Type 0 where
    no_thread : Interleaved init []
    next_job :
        {s : Store V} {ts : List (List (Job V))} → Interleaved s ts → Interleaved (step s).1 ts
    unwound :
        {s t : Store V} {ts : List (List (Job V))} (e : Error)
        → Interleaved s ts
        → step s ≡ (thrown e, t)
        → Interleaved (record t { jobs = unwind t.jobs }) ts
    next_request :
        {s : Store V} {ts : List (List (Job V))} (r : Request V)
        → Interleaved s ts
        → Interleaved (serve r s).1 ts
    new_thread :
        {s : Store V} {ts : List (List (Job V))}
        → Interleaved s ts
        → Interleaved (record s { jobs = [] }) (s.jobs ∷ ts)
    turn :
        {s : Store V} (before : List (List (Job V))) (js : List (Job V))
        (after : List (List (Job V)))
        → Interleaved s (before ++ js ∷ after)
        → Interleaved (record s { jobs = js }) (before ++ s.jobs ∷ after)

  -- One thread alone.
  pub Reach-Interleaved : {s : Store V} → Reach s → Interleaved s []
  Reach-Interleaved start = no_thread
  Reach-Interleaved (job r) = next_job (Reach-Interleaved r)
  Reach-Interleaved (request q r) = next_request q (Reach-Interleaved r)
