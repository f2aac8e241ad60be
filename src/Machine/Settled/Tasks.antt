-- ===== src/Machine/Settled/Tasks.antt =====
-- The functions of bits/packaged_task.h and bits/async.h do.
use portable_concurrency.Prelude.{ℕ, refl, Option, none, some, [], ◌∷◌}
use portable_concurrency.Store.{
  pure, ◌>>=◌, ◌>>◌, Result, err, no_state, Outcome, Function, Frame, Executor, inplace, queue,
  task, plain, cancellable, continuation, deliver, clean, release, end_task,
}
use portable_concurrency.Owners.{deref, begin, share, make_shared}
use portable_concurrency.PackagedTask.{
  PackagedTask, empty, owning, awaited, finish_call, run_function, run_frame, run_task, after_call,
  given, call_posted, post_task, abandon_task, bind_arguments, task_parts,
}
use portable_concurrency.PackagedTask
use portable_concurrency.Machine.Settled.Defs.{Inv-jobs}
use portable_concurrency.Machine.Settled.Operations.{
  Keeps, bind-Keeps, deref-Holds, same-Keeps, share-Keeps, lock-Keeps, make_shared-Keeps,
}
use portable_concurrency.Machine.Settled.Steps.{
  find_state-Keeps, abandon_task-Keeps, task_parts-Keeps,
}

module _ {V : Type 0} where
  pub make_task-Keeps : (f : Function V) → Keeps (PackagedTask.make f)
  unfolding PackagedTask.make
  make_task-Keeps f =
      bind-Keeps (make_shared (task (some f))) (λ p. pure (owning p))
        (make_shared-Keeps (task (some f))) (λ _ s h. h)

  get_task_state-Keeps : (t : PackagedTask) → Keeps (PackagedTask.get_state {V = V} t)
  unfolding PackagedTask.get_state
  get_task_state-Keeps empty s h = h
  get_task_state-Keeps (owning p) s h = bind-Keeps (share p) _ (share-Keeps p) (λ _ t k. k) s h
  get_task_state-Keeps (awaited p) s h = lock-Keeps p s h

  pub task_future-Keeps : (t : PackagedTask) → Keeps (PackagedTask.get_future {V = V} t)
  unfolding PackagedTask.get_future
  task_future-Keeps empty s h = h
  task_future-Keeps (awaited p) s h = h
  task_future-Keeps (owning p) s h =
      bind-Keeps (share p) _ (share-Keeps p) (λ _ t k. Inv-jobs k (release p ∷ []) (tt, tt)) s h

  finish_call-Keeps : (p : ℕ) (f : Function V) (x : Outcome V) → Keeps (finish_call p f x)
  finish_call-Keeps p f x s h = deref-Holds p _ s h λ b e.
      Inv-jobs (same-Keeps s p b (record b { frame = task (some (after_call f x)) }) e refl refl h)
        (deliver p x (given f x) ∷ clean p ∷ []) (tt, (tt, tt))

  run_function-Keeps : (p : ℕ) (a : Result V) (f : Option (Function V)) → Keeps (run_function p a f)
  run_function-Keeps p a none s h = h
  run_function-Keeps p a (some f) s h = finish_call-Keeps p f (f.body a) s h

  run_frame-Keeps : (p : ℕ) (a : Result V) (f : Frame V) → Keeps (run_frame p a f)
  run_frame-Keeps p a (task f) s h = run_function-Keeps p a f s h
  run_frame-Keeps p a plain s h = h
  run_frame-Keeps p a (cancellable n) s h = h
  run_frame-Keeps p a (continuation x g) s h = h

  run_task-Keeps : (a : Result V) (o : Option ℕ) → Keeps (run_task a o)
  run_task-Keeps a none s h = h
  run_task-Keeps a (some p) s h =
      bind-Keeps (share p)
        (λ _. begin (release p ∷ release p ∷ []) >> (deref p >>= λ b. run_frame p a b.frame))
        (share-Keeps p)
        (λ _ s h.
          deref-Holds p (λ b. run_frame p a b.frame) _
            (Inv-jobs h (release p ∷ release p ∷ []) (tt, (tt, tt)))
            (λ b e.
              run_frame-Keeps p a b.frame _
                (Inv-jobs h (release p ∷ release p ∷ []) (tt, (tt, tt)))))
        s h

  pub call_task-Keeps : (t : PackagedTask) (a : Result V) → Keeps (PackagedTask.call t a)
  unfolding PackagedTask.call
  call_task-Keeps t a =
      bind-Keeps (PackagedTask.get_state t) (run_task a) (get_task_state-Keeps t) (run_task-Keeps a)

  pub assign_task-Keeps : (t u : PackagedTask) → Keeps (PackagedTask.assign {V = V} t u)
  unfolding PackagedTask.assign
  assign_task-Keeps t u s h =
      bind-Keeps (PackagedTask.find_state t) (λ o. abandon_task o >> pure (u, empty))
        (find_state-Keeps t)
        (λ o.
          bind-Keeps (abandon_task o) (λ _. pure (u, empty)) (abandon_task-Keeps o) (λ _ s h. h))
        _ (task_parts-Keeps t s h)

  pub call_posted-Keeps : (p : ℕ) → Keeps (call_posted {V = V} p)
  unfolding call_posted
  call_posted-Keeps p s h =
      call_task-Keeps (awaited p) (err no_state) _ (Inv-jobs h (end_task p ∷ []) (tt, tt))

  post_task-Keeps : (x : Executor) (p : ℕ) → Keeps (post_task {V = V} x p)
  post_task-Keeps inplace p s h = call_posted-Keeps p s h
  post_task-Keeps (queue k) p s h = h

  pub async-Keeps :
      (x : Executor) (f : Function V) (a : Result V) → Keeps (PackagedTask.async x f a)
  unfolding PackagedTask.async
  async-Keeps x f a =
      bind-Keeps (PackagedTask.make (bind_arguments f a)) _ (make_task-Keeps (bind_arguments f a))
        (λ t. bind-Keeps (PackagedTask.get_future t) _ (task_future-Keeps t) (λ r.
          bind-Keeps (post_task x r.0) (λ _. pure (some r.0)) (post_task-Keeps x r.0) (λ _ s h. h)))
