-- ===== src/Machine/Safe/Tasks.antt =====
-- What the functions of bits/packaged_task.h and bits/async.h use.
use portable_concurrency.Prelude.{ℕ, ◌≤◌, refl, Option, none, some, [], ◌∷◌, ◌++◌, arith}
use portable_concurrency.Store.{
  pure, ◌>>◌, Result, err, no_state, release, deliver, clean, give_up, end_task, ran, Outcome,
  Function, Executor, inplace, queue, Store, Frame, plain, cancellable, continuation, task,
}
use portable_concurrency.Owners.{write, begin, log, share, frame_parts}
use portable_concurrency.Then.{clean_action}
use portable_concurrency.PackagedTask.{
  PackagedTask, empty, owning, awaited, abandon_task, task_parts, finish_call, run_function,
  run_frame, run_task, after_call, given, call_posted, post_task, bind_arguments,
}
use portable_concurrency.PackagedTask
use portable_concurrency.Machine.Owned.Refs.{pointer, option_refs, owners}
use portable_concurrency.Machine.Owned.Tasks.{task_refs}
use portable_concurrency.Machine.Safe.Ends.{
  Intact, Good, same-Grown, then-Grown, then-Good, bind-Good, deref-Good, begin-Grown, log-Grown,
}
use portable_concurrency.Machine.Safe.Operations.{share-Good, lock-Good}
use portable_concurrency.Machine.Safe.Steps.{frame-Grown, clean_action-parent}
use portable_concurrency.Machine.Safe.Promises.{shared-Good, handed-Good, made-Good}

module _ {V : Type 0} (v : ℕ) where
  find_state-Good :
      (t : PackagedTask) (s : Store V)
      → Intact v s
      → task_refs v t ≤ owners v s
      → Good v s (option_refs v) (PackagedTask.find_state t s)
  unfolding PackagedTask.find_state
  find_state-Good empty s h u = (same-Grown v s h, omega arith)
  find_state-Good (owning p) s h u = shared-Good v p (option_refs v) (some p) s h u refl
  find_state-Good (awaited p) s h u = lock-Good v p s h

  get_state-Good :
      (t : PackagedTask) (s : Store V)
      → Intact v s
      → task_refs v t ≤ owners v s
      → Good v s (option_refs v) (PackagedTask.get_state t s)
  unfolding PackagedTask.get_state
  get_state-Good empty s h u = tt
  get_state-Good (owning p) s h u = shared-Good v p (option_refs v) (some p) s h u refl
  get_state-Good (awaited p) s h u = lock-Good v p s h

  abandon_task-Good :
      (o : Option ℕ) (s : Store V)
      → Intact v s
      → option_refs v o ≤ owners v s
      → Good v s (λ _. 0) (abandon_task o s)
  abandon_task-Good none s h u = (same-Grown v s h, omega arith)
  abandon_task-Good (some p) s h u =
      deref-Good v p (λ _. 0) _ s u
        λ b e.
          let g =
            frame-Grown v s p b (clean_action b.frame) e h
              (omega (arith, clean_action-parent v b.frame)) in
          (
            then-Grown v s _ _ g
                (begin-Grown v _ (frame_parts b.frame ++ give_up p ∷ release p ∷ []) g.low),
            omega arith,
          )

  pub destroy_task-Good :
      (t : PackagedTask) (s : Store V)
      → Intact v s
      → task_refs v t ≤ owners v s
      → Good v s (λ _. 0) (PackagedTask.destroy t s)
  unfolding PackagedTask.destroy
  destroy_task-Good t s h u =
      let g = begin-Grown v s (task_parts t) h in
      then-Good v s _ (λ _. 0) _ g
        (bind-Good v (begin (task_parts t) s).1 (option_refs v) (λ _. 0) (PackagedTask.find_state t)
          abandon_task
          (find_state-Good t (begin (task_parts t) s).1 g.low (omega (arith, u, g.grown)))
          (λ o r k i. abandon_task-Good o r k.low i))

  pub assign_task-Good :
      (t u : PackagedTask) (s : Store V)
      → Intact v s
      → task_refs v t ≤ owners v s
      → Good v s (λ _. 0) (PackagedTask.assign t u s)
  unfolding PackagedTask.assign
  assign_task-Good t u s h w =
      let g = begin-Grown v s (task_parts t) h in
      then-Good v s _ (λ _. 0) _ g
        (bind-Good v (begin (task_parts t) s).1 (option_refs v) (λ _. 0) (PackagedTask.find_state t)
          (λ o. abandon_task o >> pure (u, empty))
          (find_state-Good t (begin (task_parts t) s).1 g.low (omega (arith, w, g.grown)))
          (λ o r k i.
            bind-Good v r (λ _. 0) (λ _. 0) (abandon_task o) (λ _. pure (u, empty))
              (abandon_task-Good o r k.low i) (λ _ q l m. (same-Grown v q l.low, omega arith))))

  finish_call-Good :
      (p : ℕ) (f : Function V) (x : Outcome V) (s : Store V)
      → Intact v s
      → pointer v p ≤ owners v s
      → Good v s (λ _. 0) (finish_call p f x s)
  finish_call-Good p f x s h u =
      deref-Good v p (λ _. 0) _ s u
        λ b e.
          let g = frame-Grown v s p b (task (some (after_call f x))) e h (omega arith) in
          let k =
            log-Grown v (write p (record b { frame = task (some (after_call f x)) }) s).1 (ran p)
              g.low in
          let l =
            begin-Grown v
              (log (ran p) (write p (record b { frame = task (some (after_call f x)) }) s).1).1
              (deliver p x (given f x) ∷ clean p ∷ []) k.low in
          (then-Grown v s _ _ g (then-Grown v _ _ _ k l), omega arith)

  run_frame-Good :
      (p : ℕ) (a : Result V) (f : Frame V) (s : Store V)
      → Intact v s
      → pointer v p ≤ owners v s
      → Good v s (λ _. 0) (run_frame p a f s)
  run_frame-Good p a (task none) s h u = tt
  run_frame-Good p a (task (some f)) s h u = finish_call-Good p f (f.body a) s h u
  run_frame-Good p a plain s h u = tt
  run_frame-Good p a (cancellable m) s h u = tt
  run_frame-Good p a (continuation x m) s h u = tt

  run_task-Good :
      (a : Result V) (o : Option ℕ) (s : Store V)
      → Intact v s
      → option_refs v o ≤ owners v s
      → Good v s (λ _. 0) (run_task a o s)
  run_task-Good a none s h u = (same-Grown v s h, omega arith)
  run_task-Good a (some p) s h u =
      bind-Good v s (λ _. pointer v p) (λ _. 0) (share p) _ (share-Good v p s h u)
        (λ _ t g k.
          let js = release p ∷ release p ∷ [] in
          let l = begin-Grown v t js g.low in
          then-Good v t _ (λ _. 0) _ l
            (deref-Good v p (λ _. 0) (λ b. run_frame p a b.frame) (begin js t).1
              (omega (arith, k, l.grown))
              (λ b e. run_frame-Good p a b.frame (begin js t).1 l.low (omega (arith, k, l.grown)))))

  pub call_task-Good :
      (t : PackagedTask) (a : Result V) (s : Store V)
      → Intact v s
      → task_refs v t ≤ owners v s
      → Good v s (λ _. 0) (PackagedTask.call t a s)
  unfolding PackagedTask.call
  call_task-Good t a s h u =
      bind-Good v s (option_refs v) (λ _. 0) (PackagedTask.get_state t) (run_task a)
        (get_state-Good t s h u) (λ o r g k. run_task-Good a o r g.low k)

  pub call_posted-Good : (p : ℕ) (s : Store V) → Intact v s → Good v s (λ _. 0) (call_posted p s)
  unfolding call_posted
  call_posted-Good p s h =
      let g = begin-Grown v s (end_task p ∷ []) h in
      then-Good v s _ (λ _. 0) _ g
        (call_task-Good (awaited p) (err no_state) (begin (end_task p ∷ []) s).1 g.low
          (omega arith))

  pub make_task-Good :
      (f : Function V) (s : Store V) → Intact v s → Good v s (task_refs v) (PackagedTask.make f s)
  unfolding PackagedTask.make
  make_task-Good f s h =
      made-Good v (task (some f)) owning (task_refs v) s h (omega arith) (λ p. omega arith)

  pub task_future-Good :
      (t : PackagedTask) (s : Store V)
      → Intact v s
      → task_refs v t ≤ owners v s
      → Good v s (λ y. pointer v y.0) (PackagedTask.get_future t s)
  unfolding PackagedTask.get_future
  task_future-Good empty s h u = tt
  task_future-Good (awaited p) s h u = tt
  task_future-Good (owning p) s h u = handed-Good v p (λ y. pointer v y.0) (p, awaited p) s h u refl

  post_task-Good :
      (x : Executor) (p : ℕ) (s : Store V) → Intact v s → Good v s (λ _. 0) (post_task x p s)
  post_task-Good inplace p s h = call_posted-Good p s h
  post_task-Good (queue k) p s h = (record { low = h; grown = omega arith }, omega arith)

  pub async-Good :
      (x : Executor) (f : Function V) (a : Result V) (s : Store V)
      → Intact v s
      → Good v s (λ _. 0) (PackagedTask.async x f a s)
  unfolding PackagedTask.async
  async-Good x f a s h =
      bind-Good v s (task_refs v) (λ _. 0) (PackagedTask.make (bind_arguments f a)) _
        (make_task-Good (bind_arguments f a) s h)
        (λ t r g k.
          bind-Good v r (λ y. pointer v y.0) (λ _. 0) (PackagedTask.get_future t) _
            (task_future-Good t r g.low k)
            (λ y q l m.
              bind-Good v q (λ _. 0) (λ _. 0) (post_task x y.0) (λ _. pure (some y.0))
                (post_task-Good x y.0 q l.low) (λ _ o i j. (same-Grown v o i.low, omega arith))))
