-- ===== src/Machine/Settled/Steps.antt =====
-- The functions behind the jobs keep the invariant.
use portable_concurrency.Prelude.{◌++◌, ℕ, suc, Option, none, some, [], ◌∷◌, refl}
use portable_concurrency.PackagedTask.{
  PackagedTask, empty, owning, awaited, abandon_task, task_parts,
}
use portable_concurrency.PackagedTask
use portable_concurrency.Store.{
  give_up, Result, ok, err, release, run, deliver, clean, Outcome, returns, throws, gives, Function,
  Action, then_action, next_action, promise_action, interrupt, Executor, inplace, queue,
}
use portable_concurrency.Owners.{share, begin, lock, release_option, frame_parts}
use portable_concurrency.SharedState.{read_result-ends}
use portable_concurrency.Then.{
  apply_next, schedule_weak, schedule_state, run_weak, run_state, apply, apply_option, result_of,
  set_state_value, abandon_weak, abandon_state, clean_state, post_option, frame_action,
  frame_executor, clean_action, clean_executor,
}
use portable_concurrency.Machine.Settled.Defs.{Holds, Inv-jobs, jobs-append}
use portable_concurrency.Machine.Settled.Parts.{frame_parts_fine, release_option_fine}
use portable_concurrency.Machine.Settled.Operations.{
  share-Keeps, Keeps, bind-Keeps, deref-Holds, same-Keeps, lock-Keeps, emplace-Keeps,
  set_exception-Keeps, abandon-Keeps, unwrap-Keeps,
}

module _ {V : Type 0} where
  post_option-Keeps : (o : Option Executor) (w : ℕ) → Keeps (post_option {V = V} o w)
  post_option-Keeps none w s h = h
  post_option-Keeps (some inplace) w s h = Inv-jobs h (run w ∷ []) (tt, tt)
  post_option-Keeps (some (queue k)) w s h = h

  schedule_state-Keeps : (o : Option ℕ) → Keeps (schedule_state {V = V} o)
  schedule_state-Keeps none s h = h
  schedule_state-Keeps (some w) s h = deref-Holds w _ s h λ b e.
      bind-Keeps (post_option (frame_executor b.frame) w) (λ _. begin (release w ∷ []))
        (post_option-Keeps (frame_executor b.frame) w)
        (λ _ t k. Inv-jobs k (release w ∷ []) (tt, tt)) _
        (same-Keeps s w b (record b { frame = clean_executor b.frame }) e refl refl h)

  pub schedule_weak-Keeps : (w : ℕ) → Keeps (schedule_weak {V = V} w)
  unfolding schedule_weak
  schedule_weak-Keeps w = bind-Keeps (lock w) schedule_state (lock-Keeps w) schedule_state-Keeps

  pub result_of-Keeps : (p : ℕ) → Keeps (result_of {V = V} p)
  result_of-Keeps p s h = read_result-ends (λ x. Holds x.1) s (suc s.fresh) p (λ r. h) h (λ q. h)

  apply_next-Keeps :
      (f : Function V) (parent w : ℕ) (r : Result V) → Keeps (apply_next f parent w r)
  apply_next-Keeps f parent w (ok v) t k =
      Inv-jobs k (deliver w (f.body (ok v)) f.captured ∷ release w ∷ release parent ∷ [])
        (tt, (tt, (tt, tt)))
  apply_next-Keeps f parent w (err e) t k = set_exception-Keeps w e _ (
      Inv-jobs k (release w ∷ release parent ∷ release_option f.captured)
        (tt, (tt, release_option_fine t.states t.fresh f.captured)))

  apply_option-Keeps : (o : Option (Action V)) (w : ℕ) → Keeps (apply_option o w)
  unfolding apply
  apply_option-Keeps none w s h = h
  apply_option-Keeps (some (then_action f parent)) w s h =
      bind-Keeps (result_of parent) _ (result_of-Keeps parent)
        (λ r t k.
          Inv-jobs k (release parent ∷ deliver w (f.body r) f.captured ∷ release w ∷ [])
            (tt, (tt, (tt, tt))))
        s h
  apply_option-Keeps (some (next_action f parent)) w s h =
      bind-Keeps (result_of parent) (apply_next f parent w) (result_of-Keeps parent)
        (apply_next-Keeps f parent w) s h
  apply_option-Keeps (some (promise_action f parent)) w s h =
      Inv-jobs h (release w ∷ interrupt w f parent ∷ []) (tt, (tt, tt))

  run_state-Keeps : (o : Option ℕ) → Keeps (run_state {V = V} o)
  run_state-Keeps none s h = h
  run_state-Keeps (some w) s h = deref-Holds w _ s h λ b e.
      apply_option-Keeps (frame_action b.frame) w _
        (same-Keeps s w b (record b { frame = clean_action b.frame }) e refl refl h)

  pub run_weak-Keeps : (w : ℕ) → Keeps (run_weak {V = V} w)
  unfolding run_weak
  run_weak-Keeps w = bind-Keeps (lock w) run_state (lock-Keeps w) run_state-Keeps

  pub set_state_value-Keeps : (w : ℕ) (x : Outcome V) (o : Option ℕ) → Keeps (set_state_value w x o)
  unfolding set_state_value
  set_state_value-Keeps w (returns v) o s h =
      emplace-Keeps w v _ (Inv-jobs h (release_option o) (release_option_fine s.states s.fresh o))
  set_state_value-Keeps w (throws e) o s h =
      set_exception-Keeps w e _
        (Inv-jobs h (release_option o) (release_option_fine s.states s.fresh o))
  set_state_value-Keeps w gives o s h =
      unwrap-Keeps w o _ (Inv-jobs h (release_option o) (release_option_fine s.states s.fresh o))

  abandon_state-Keeps : (o : Option ℕ) → Keeps (abandon_state {V = V} o)
  abandon_state-Keeps none s h = h
  abandon_state-Keeps (some w) s h =
      abandon-Keeps w _ (Inv-jobs h (clean w ∷ release w ∷ []) (tt, (tt, tt)))

  pub abandon_weak-Keeps : (w : ℕ) → Keeps (abandon_weak {V = V} w)
  unfolding abandon_weak
  abandon_weak-Keeps w = bind-Keeps (lock w) abandon_state (lock-Keeps w) abandon_state-Keeps

  pub clean_state-Keeps : (w : ℕ) → Keeps (clean_state {V = V} w)
  unfolding clean_state
  clean_state-Keeps w s h = deref-Holds w _ s h λ b e.
      Inv-jobs (same-Keeps s w b (record b { frame = clean_action b.frame }) e refl refl h)
        (frame_parts b.frame) (frame_parts_fine _ s.fresh b.frame)

  -- Packaged tasks.
  pub find_state-Keeps : (t : PackagedTask) → Keeps (PackagedTask.find_state {V = V} t)
  unfolding PackagedTask.find_state
  find_state-Keeps empty s h = h
  find_state-Keeps (owning p) s h = bind-Keeps (share p) _ (share-Keeps p) (λ _ t k. k) s h
  find_state-Keeps (awaited p) s h = lock-Keeps p s h

  pub abandon_task-Keeps : (o : Option ℕ) → Keeps (abandon_task {V = V} o)
  abandon_task-Keeps none s h = h
  abandon_task-Keeps (some p) s h = deref-Holds p _ s h λ b e.
      Inv-jobs (same-Keeps s p b (record b { frame = clean_action b.frame }) e refl refl h)
        (frame_parts b.frame ++ give_up p ∷ release p ∷ [])
        (jobs-append _ s.fresh (frame_parts b.frame) (give_up p ∷ release p ∷ [])
          (frame_parts_fine _ s.fresh b.frame) (tt, (tt, tt)))

  pub task_parts-Keeps : (t : PackagedTask) → Keeps (begin {V = V} (task_parts t))
  task_parts-Keeps empty s h = h
  task_parts-Keeps (awaited p) s h = h
  task_parts-Keeps (owning p) s h = Inv-jobs h (release p ∷ []) (tt, tt)

  pub destroy_task-Keeps : (t : PackagedTask) → Keeps (PackagedTask.destroy {V = V} t)
  unfolding PackagedTask.destroy
  destroy_task-Keeps t s h =
      bind-Keeps (PackagedTask.find_state t) abandon_task (find_state-Keeps t) abandon_task-Keeps _
        (task_parts-Keeps t s h)
