-- ===== src/Machine/Once/Tasks.antt =====
-- The functions of bits/packaged_task.h and bits/async.h are free.
use portable_concurrency.Prelude.{ℕ, refl, Option, none, some, [], ◌∷◌, arith}
use portable_concurrency.Store.{
  pure, ◌>>=◌, ◌>>◌, Result, err, no_state, Outcome, Function, Frame, Executor, inplace, queue,
  task, plain, cancellable, continuation, deliver, clean, release, end_task, packaged, ran,
}
use portable_concurrency.Owners.{deref, begin, share, make_shared}
use portable_concurrency.PackagedTask.{
  PackagedTask, empty, owning, awaited, finish_call, run_function, run_frame, run_task, after_call,
  given, call_posted, post_task, abandon_task, bind_arguments, task_parts,
}
use portable_concurrency.PackagedTask
use portable_concurrency.Machine.Once.Tokens.{sum-append, in_posted}
use portable_concurrency.Machine.Once.Prices.{
  Costs, nothing-Adds, free-then, free-bind, deref-Adds, same_list-Adds,
}
use portable_concurrency.Machine.Once.Operations.{share-Costs, lock-Costs}
use portable_concurrency.Machine.Once.Steps.{
  nothing-Costs, release-Costs, log-Adds, find_state-Costs, abandon_task-Costs, task_parts-Costs,
}
use portable_concurrency.Machine.Once.Promises.{free-pure, handed-Costs, make_shared-Costs}

module _ {V : Type 0} (v : ℕ) where
  pub make_task-Costs : (f : Function V) → Costs v 0 (PackagedTask.make f)
  unfolding PackagedTask.make
  make_task-Costs f = free-pure v (make_shared (task (some f))) owning (make_shared-Costs v _)

  get_task_state-Costs : (t : PackagedTask) → Costs v 0 (PackagedTask.get_state {V = V} t)
  unfolding PackagedTask.get_state
  get_task_state-Costs empty = nothing-Costs v 0 tt
  get_task_state-Costs (owning p) = free-pure v (share p) (λ _. some p) (share-Costs v p)
  get_task_state-Costs (awaited p) = lock-Costs v p

  pub task_future-Costs : (t : PackagedTask) → Costs v 0 (PackagedTask.get_future {V = V} t)
  unfolding PackagedTask.get_future
  task_future-Costs empty = nothing-Costs v 0 tt
  task_future-Costs (awaited p) = nothing-Costs v 0 tt
  task_future-Costs (owning p) = handed-Costs v p (p, awaited p)

  finish_call-Costs : (p : ℕ) (f : Function V) (x : Outcome V) → Costs v 0 (finish_call p f x)
  finish_call-Costs p f x s h = deref-Adds v 0 p _ s h λ b e.
      let a = same_list-Adds v s p b (record b { frame = task (some (after_call f x)) }) e h refl in
      let c = log-Adds v _ (ran p) a.low in
      free-then v s _ _ (free-then v s _ _ a c)
        (release-Costs v (deliver p x (given f x) ∷ clean p ∷ []) refl _ c.low)

  run_function-Costs :
      (p : ℕ) (a : Result V) (f : Option (Function V)) → Costs v 0 (run_function p a f)
  run_function-Costs p a none s h = nothing-Adds v 0 s h
  run_function-Costs p a (some f) s h = finish_call-Costs p f (f.body a) s h

  run_frame-Costs : (p : ℕ) (a : Result V) (f : Frame V) → Costs v 0 (run_frame p a f)
  run_frame-Costs p a (task f) s h = run_function-Costs p a f s h
  run_frame-Costs p a plain s h = nothing-Adds v 0 s h
  run_frame-Costs p a (cancellable n) s h = nothing-Adds v 0 s h
  run_frame-Costs p a (continuation x g) s h = nothing-Adds v 0 s h

  run_task-Costs : (a : Result V) (o : Option ℕ) → Costs v 0 (run_task a o)
  run_task-Costs a none s h = nothing-Adds v 0 s h
  run_task-Costs a (some p) s h =
      free-bind v (share p)
        (λ _. begin (release p ∷ release p ∷ []) >> (deref p >>= λ b. run_frame p a b.frame))
        (share-Costs v p)
        (λ _.
          free-bind v (begin (release p ∷ release p ∷ []))
            (λ _. deref p >>= λ b. run_frame p a b.frame)
            (release-Costs v (release p ∷ release p ∷ []) refl)
            (λ _ s h.
              deref-Adds v 0 p (λ b. run_frame p a b.frame) s h
                (λ b e. run_frame-Costs p a b.frame s h)))
        s h

  pub call_task-Costs : (t : PackagedTask) (a : Result V) → Costs v 0 (PackagedTask.call t a)
  unfolding PackagedTask.call
  call_task-Costs t a =
      free-bind v (PackagedTask.get_state t) (run_task a) (get_task_state-Costs t)
        (run_task-Costs a)

  pub assign_task-Costs : (t u : PackagedTask) → Costs v 0 (PackagedTask.assign {V = V} t u)
  unfolding PackagedTask.assign
  assign_task-Costs t u s h =
      let a = task_parts-Costs v t s h in
      free-then v s _ _ a (
        free-bind v (PackagedTask.find_state t) (λ o. abandon_task o >> pure (u, empty))
          (find_state-Costs v t)
          (λ o. free-pure v (abandon_task o) (λ _. (u, empty)) (abandon_task-Costs v o)) _ a.low)

  pub call_posted-Costs : (p : ℕ) → Costs v 0 (call_posted {V = V} p)
  unfolding call_posted
  call_posted-Costs p =
      free-bind v (begin (end_task p ∷ [])) (λ _. PackagedTask.call (awaited p) (err no_state))
        (release-Costs v (end_task p ∷ []) refl) (λ _. call_task-Costs (awaited p) (err no_state))

  post_task-Costs : (x : Executor) (p : ℕ) → Costs v 0 (post_task {V = V} x p)
  post_task-Costs inplace p s h = call_posted-Costs p s h
  post_task-Costs (queue k) p s h = record {
    low = h;
    fresh = omega arith;
    tokens = omega (arith, sum-append (in_posted v) s.posted ((k, packaged p) ∷ []));
  }

  pub async-Costs :
      (x : Executor) (f : Function V) (a : Result V) → Costs v 0 (PackagedTask.async x f a)
  unfolding PackagedTask.async
  async-Costs x f a =
      free-bind v (PackagedTask.make (bind_arguments f a)) _ (make_task-Costs (bind_arguments f a))
        (λ t.
          free-bind v (PackagedTask.get_future t) _ (task_future-Costs t)
            (λ r. free-pure v (post_task x r.0) (λ _. some r.0) (post_task-Costs x r.0)))
