-- ===== src/Machine/Owned/Tasks.antt =====
-- What the functions of bits/packaged_task.h do with pointers.
use portable_concurrency.Prelude.{ℕ, ◌+◌, ◌≤◌, ◌≡◌, refl, Option, none, some, [], ◌∷◌, ◌++◌, arith}
use portable_concurrency.Store.{
  pure, ◌>>=◌, ◌>>◌, Result, err, no_state, release, deliver, clean, give_up, end_task, ran,
  Outcome, returns, throws, gives, Function, State, Store, Frame, plain, cancellable, continuation,
  task,
}
use portable_concurrency.Owners.{deref, write, begin, log, share, frame_parts}
use portable_concurrency.PackagedTask.{
  PackagedTask, empty, owning, awaited, abandon_task, task_parts, finish_call, run_function,
  run_frame, run_task, after_call, given, call_posted, post_task,
}
use portable_concurrency.PackagedTask
use portable_concurrency.Machine.Once.Tokens.{sum, sum-append}
use portable_concurrency.Machine.Once.Prices.{Low}
use portable_concurrency.Machine.Owned.Refs.{
  pointer, option_refs, frame_refs, job_refs, Backed, Backed-append,
}
use portable_concurrency.Machine.Owned.Parts.{frame_parts-refs, frame_parts-Backed}
use portable_concurrency.Machine.Owned.Moves.{
  Sound, After, Moves, nothing-Kept, then-Kept, then-After, then-Moves, begin-Kept, bind-Moves,
  pure-Moves, deref-After, same_owners-Kept,
}
use portable_concurrency.Machine.Owned.Operations.{share-Moves, lock-Moves}
use portable_concurrency.Machine.Owned.Blocks.{begin_then, begin_all, shared-Moves, clean-Kept}

abbrev pub task_refs : ℕ → PackagedTask → ℕ
task_refs v (owning p) = pointer v p
task_refs v _ = 0

module _ (V : Type 0) (v : ℕ) where
  task_parts-refs : (t : PackagedTask) → sum (job_refs {V = V} v) (task_parts t) ≡ task_refs v t
  task_parts-refs empty = refl
  task_parts-refs (awaited p) = refl
  task_parts-refs (owning p) = omega arith

  task_parts-Backed : (t : PackagedTask) → Backed {V = V} v (task_parts t)
  task_parts-Backed empty = tt
  task_parts-Backed (awaited p) = tt
  task_parts-Backed (owning p) = ground arith

module _ {V : Type 0} (v : ℕ) where
  find_state-Moves :
      (t : PackagedTask) → Moves v 0 (option_refs v) (PackagedTask.find_state {V = V} t)
  unfolding PackagedTask.find_state
  find_state-Moves empty s h n = nothing-Kept v 0 s h n
  find_state-Moves (owning p) s h n = shared-Moves v p (option_refs v) (some p) refl s h n
  find_state-Moves (awaited p) s h n = lock-Moves v p s h n

  get_state-Moves :
      (t : PackagedTask) → Moves v 0 (option_refs v) (PackagedTask.get_state {V = V} t)
  unfolding PackagedTask.get_state
  get_state-Moves empty s h n = nothing-Kept v 0 s h n
  get_state-Moves (owning p) s h n = shared-Moves v p (option_refs v) (some p) refl s h n
  get_state-Moves (awaited p) s h n = lock-Moves v p s h n

  abandon_task-Moves : (o : Option ℕ) → Moves v (option_refs v o) (λ _. 0) (abandon_task {V = V} o)
  abandon_task-Moves none s h n = nothing-Kept v 0 s h n
  abandon_task-Moves (some p) s h n =
      deref-After v (pointer v p) (λ _. 0) p _ s
        λ b g.
          then-Moves v s _ (pointer v p) (frame_refs v b.frame + pointer v p) (λ _. 0)
            (begin (frame_parts b.frame ++ give_up p ∷ release p ∷ []))
            (clean-Kept v s p (pointer v p) (frame_refs v b.frame + pointer v p) b g refl h n)
            (begin_all v (frame_parts b.frame ++ give_up p ∷ release p ∷ [])
              (frame_refs v b.frame + pointer v p)
              (Backed-append v (frame_parts b.frame) (give_up p ∷ release p ∷ [])
                (frame_parts-Backed V v b.frame) (ground arith))
              (omega (
                arith,
                sum-append (job_refs {V = V} v) (frame_parts b.frame) (give_up p ∷ release p ∷ []),
                frame_parts-refs V v b.frame,
              )))

  pub destroy_task-Moves :
      (t : PackagedTask) → Moves v (task_refs v t) (λ _. 0) (PackagedTask.destroy {V = V} t)
  unfolding PackagedTask.destroy
  destroy_task-Moves t =
      begin_then v (task_parts t) (task_refs v t) (λ _. 0)
        (PackagedTask.find_state t >>= abandon_task) (task_parts-Backed V v t)
        (task_parts-refs V v t)
        (bind-Moves v 0 (option_refs v) (λ _. 0) (PackagedTask.find_state t) abandon_task
          (find_state-Moves t) abandon_task-Moves)

  pub assign_task-Moves :
      (t u : PackagedTask) → Moves v (task_refs v t) (λ _. 0) (PackagedTask.assign {V = V} t u)
  unfolding PackagedTask.assign
  assign_task-Moves t u =
      begin_then v (task_parts t) (task_refs v t) (λ _. 0)
        (PackagedTask.find_state t >>= λ o. abandon_task o >> pure (u, empty))
        (task_parts-Backed V v t) (task_parts-refs V v t)
        (bind-Moves v 0 (option_refs v) (λ _. 0) (PackagedTask.find_state t)
          (λ o. abandon_task o >> pure (u, empty)) (find_state-Moves t)
          (λ o.
            bind-Moves v (option_refs v o) (λ _. 0) (λ _. 0) (abandon_task o) (λ _. pure (u, empty))
              (abandon_task-Moves o)
              (λ _. pure-Moves v {A = PackagedTask × PackagedTask} 0 (λ _. 0) (u, empty) refl)))

  -- A function that returns the future it has captured hands it over.
  after_call-refs :
      (f : Function V) (x : Outcome V)
      → option_refs v (after_call f x).captured + option_refs v (given f x)
        ≡ option_refs v f.captured
  after_call-refs f (returns y) = omega arith
  after_call-refs f (throws e) = omega arith
  after_call-refs f gives = omega arith

  -- The calls that use the state `p` have a pointer to it below them.
  finish_call-After :
      (p : ℕ) (f : Function V) (x : Outcome V) (b : State V) (s : Store V)
      → s.states p ≡ some b
      → b.frame ≡ task (some f)
      → pointer v p ≤ sum (job_refs v) s.jobs
      → Low v s
      → Sound v s
      → After v s 0 (λ _. 0) (finish_call p f x s)
  finish_call-After p f x b s g i m h n =
      deref-After v 0 (λ _. 0) p _ s
        λ c j.
          let y =
            same_owners-Kept v s p c (record c { frame = task (some (after_call f x)) }) 0
              (option_refs v (given f x)) j h n refl
              (ground (arith, i, j, g, after_call-refs f x)) in
          let z =
            begin-Kept v
              (log (ran p) (write p (record c { frame = task (some (after_call f x)) }) s).1).1
              (deliver p x (given f x) ∷ clean p ∷ []) (option_refs v (given f x)) 0 y.low y.sound
              (omega (arith, m), (omega (arith, m), n.1)) (omega arith) in
          then-Kept v s (write p (record c { frame = task (some (after_call f x)) }) s).1 _ 0
            (option_refs v (given f x)) 0 y
            (record { low = z.low; sound = z.sound; balance = z.balance })

  run_frame-After :
      (p : ℕ) (a : Result V) (f : Frame V) (b : State V) (s : Store V)
      → s.states p ≡ some b
      → b.frame ≡ f
      → pointer v p ≤ sum (job_refs v) s.jobs
      → Low v s
      → Sound v s
      → After v s 0 (λ _. 0) (run_frame p a f s)
  run_frame-After p a (task none) b s g i m h n = nothing-Kept v 0 s h n
  run_frame-After p a (task (some f)) b s g i m h n = finish_call-After p f (f.body a) b s g i m h n
  run_frame-After p a plain b s g i m h n = tt
  run_frame-After p a (cancellable l) b s g i m h n = tt
  run_frame-After p a (continuation x l) b s g i m h n = tt

  -- With the two pointers of the call.
  run_called-Moves :
      (p : ℕ) (a : Result V)
      → Moves v
          (pointer v p + pointer v p)
          (λ _. 0)
          (begin (release p ∷ release p ∷ []) >> (deref p >>= λ b. run_frame p a b.frame))
  run_called-Moves p a s h n =
      let x =
        begin_all v (release p ∷ release p ∷ []) (pointer v p + pointer v p) (ground arith)
          (omega arith) s h n in
      then-After v s _ (pointer v p + pointer v p) 0 (λ _. 0)
        ((deref p >>= λ b. run_frame p a b.frame) (begin (release p ∷ release p ∷ []) s).1) x
        (deref-After v 0 (λ _. 0) p (λ b. run_frame p a b.frame)
          (begin (release p ∷ release p ∷ []) s).1
          (λ b g. run_frame-After p a b.frame b _ g refl (omega arith) x.low x.sound))

  run_task-Moves : (a : Result V) (o : Option ℕ) → Moves v (option_refs v o) (λ _. 0) (run_task a o)
  run_task-Moves a none s h n = nothing-Kept v 0 s h n
  run_task-Moves a (some p) s h n =
      bind-Moves v (pointer v p) (λ _. pointer v p + pointer v p) (λ _. 0) (share p) _
        (share-Moves v p (pointer v p) (pointer v p + pointer v p) refl) (λ _. run_called-Moves p a)
        s h n

  pub call_task-Moves :
      (t : PackagedTask) (a : Result V) → Moves v 0 (λ _. 0) (PackagedTask.call t a)
  unfolding PackagedTask.call
  call_task-Moves t a =
      bind-Moves v 0 (option_refs v) (λ _. 0) (PackagedTask.get_state t) (run_task a)
        (get_state-Moves t) (run_task-Moves a)

  pub call_posted-Moves : (p : ℕ) → Moves v 0 (λ _. 0) (call_posted {V = V} p)
  unfolding call_posted
  call_posted-Moves p =
      begin_then v (end_task p ∷ []) 0 (λ _. 0) (PackagedTask.call (awaited p) (err no_state))
        (ground arith) refl (call_task-Moves (awaited p) (err no_state))
