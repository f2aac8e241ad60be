-- ===== src/Machine/Owned/Steps.antt =====
-- What the functions behind a job do with pointers.
use portable_concurrency.Prelude.{ℕ, ◌+◌, ◌≡◌, refl, Option, none, some, [], ◌∷◌, arith}
use portable_concurrency.Store.{
  ◌>>◌, Result, ok, err, release, run, deliver, clean, applied, Outcome, returns, throws, gives,
  Function, Action, then_action, next_action, promise_action, interrupt, Executor, inplace, queue,
  Frame, plain, cancellable, continuation, task,
}
use portable_concurrency.Owners.{begin, lock, release_option, frame_parts}
use portable_concurrency.SharedState.{outcome, emplace, set_exception, unwrap}
use portable_concurrency.SharedState
use portable_concurrency.Then.{
  apply_next, schedule_weak, schedule_state, run_weak, run_state, apply, apply_option, result_of,
  set_state_value, abandon_weak, abandon_state, clean_state, post_option, frame_action,
  frame_executor, clean_executor,
}
use portable_concurrency.Machine.Owned.Refs.{pointer, option_refs, action_refs, frame_refs}
use portable_concurrency.Machine.Owned.Parts.{
  release_option-refs, frame_parts-refs, release_option-Backed, frame_parts-Backed,
}
use portable_concurrency.Machine.Owned.Moves.{
  Moves, nothing-Kept, then-Moves, bind-Moves, deref-After, same_owners-Kept,
}
use portable_concurrency.Machine.Owned.Operations.{
  begin-Moves, lock-Moves, emplace-Moves, set_exception-Moves, abandon-Moves, unwrap-Moves,
}
use portable_concurrency.Machine.Owned.Blocks.{
  begin_then, begin_all, log_then, result_of-Moves, clean-Kept,
}

module _ {V : Type 0} (v : ℕ) where
  pub post_option-Moves :
      (o : Option Executor) (w k : ℕ) → Moves v k (λ _. k) (post_option {V = V} o w)
  post_option-Moves none w k s h n = tt
  post_option-Moves (some inplace) w k s h n =
      begin-Moves v (run w ∷ []) k k (ground arith) (omega arith) s h n
  post_option-Moves (some (queue x)) w k s h n = record {
    low = h;
    sound = n;
    balance = omega arith;
  }

  clean_executor-refs : (f : Frame V) → frame_refs v (clean_executor f) ≡ frame_refs v f
  clean_executor-refs plain = refl
  clean_executor-refs (cancellable a) = refl
  clean_executor-refs (continuation x a) = refl
  clean_executor-refs (task none) = refl
  clean_executor-refs (task (some f)) = refl

  schedule_state-Moves :
      (o : Option ℕ) → Moves v (option_refs v o) (λ _. 0) (schedule_state {V = V} o)
  schedule_state-Moves none s h n = nothing-Kept v 0 s h n
  schedule_state-Moves (some w) s h n =
      deref-After v (pointer v w) (λ _. 0) w _ s
        λ b g.
          let x =
            same_owners-Kept v s w b (record b { frame = clean_executor b.frame }) (pointer v w)
              (pointer v w) g h n refl (omega (arith, clean_executor-refs b.frame)) in
          then-Moves v s _ (pointer v w) (pointer v w) (λ _. 0)
            (post_option (frame_executor b.frame) w >> begin (release w ∷ [])) x
            (bind-Moves v (pointer v w) (λ _. pointer v w) (λ _. 0)
              (post_option (frame_executor b.frame) w) (λ _. begin (release w ∷ []))
              (post_option-Moves (frame_executor b.frame) w (pointer v w))
              (λ _. begin_all v (release w ∷ []) (pointer v w) (ground arith) (omega arith)))

  pub schedule_weak-Moves : (w : ℕ) → Moves v 0 (λ _. 0) (schedule_weak {V = V} w)
  unfolding schedule_weak
  schedule_weak-Moves w =
      bind-Moves v 0 (option_refs v) (λ _. 0) (lock w) schedule_state (lock-Moves v w)
        schedule_state-Moves

  apply_next-Moves :
      (f : Function V) (parent w : ℕ) (r : Result V)
      → Moves v
          (pointer v parent + option_refs v f.captured + pointer v w)
          (λ _. 0)
          (apply_next f parent w r)
  apply_next-Moves f parent w (ok x) =
      log_then v (applied w) (pointer v parent + option_refs v f.captured + pointer v w) (λ _. 0)
        (begin (deliver w (f.body (ok x)) f.captured ∷ release w ∷ release parent ∷ []))
        (begin_all v (deliver w (f.body (ok x)) f.captured ∷ release w ∷ release parent ∷ [])
          (pointer v parent + option_refs v f.captured + pointer v w) (ground arith) (omega arith))
  apply_next-Moves f parent w (err e) =
      begin_then v (release w ∷ release parent ∷ release_option f.captured)
        (pointer v parent + option_refs v f.captured + pointer v w) (λ _. 0) (set_exception w e)
        (ground (arith, release_option-Backed V v f.captured))
        (omega (arith, release_option-refs V v f.captured)) (set_exception-Moves v w e)

  apply_option-Moves :
      (o : Option (Action V)) (w : ℕ)
      → Moves v (action_refs v o + pointer v w) (λ _. 0) (apply_option o w)
  unfolding apply
  apply_option-Moves none w s h n = tt
  apply_option-Moves (some (then_action f parent)) w s h n =
      bind-Moves v (pointer v parent + option_refs v f.captured + pointer v w)
        (λ _. pointer v parent + option_refs v f.captured + pointer v w) (λ _. 0) (result_of parent)
        _ (result_of-Moves v (pointer v parent + option_refs v f.captured + pointer v w) parent)
        (λ r.
          log_then v (applied w) (pointer v parent + option_refs v f.captured + pointer v w)
            (λ _. 0) (begin (release parent ∷ deliver w (f.body r) f.captured ∷ release w ∷ []))
            (begin_all v (release parent ∷ deliver w (f.body r) f.captured ∷ release w ∷ [])
              (pointer v parent + option_refs v f.captured + pointer v w) (ground arith)
              (omega arith)))
        s h n
  apply_option-Moves (some (next_action f parent)) w s h n =
      bind-Moves v (pointer v parent + option_refs v f.captured + pointer v w)
        (λ _. pointer v parent + option_refs v f.captured + pointer v w) (λ _. 0) (result_of parent)
        (apply_next f parent w)
        (result_of-Moves v (pointer v parent + option_refs v f.captured + pointer v w) parent)
        (apply_next-Moves f parent w) s h n
  apply_option-Moves (some (promise_action f parent)) w s h n =
      begin_all v (release w ∷ interrupt w f parent ∷ [])
        (pointer v parent + option_refs v f.captured + pointer v w) (ground arith) (omega arith) s h
        n

  -- The action of a frame, with all that the frame had; there is none to call in the others.
  frame_action-Moves :
      (f : Frame V) (w : ℕ)
      → Moves v (frame_refs v f + pointer v w) (λ _. 0) (apply_option (frame_action f) w)
  frame_action-Moves (continuation x a) w s h n = apply_option-Moves a w s h n
  frame_action-Moves plain w s h n = tt
  frame_action-Moves (cancellable a) w s h n = tt
  frame_action-Moves (task f) w s h n = tt

  run_state-Moves : (o : Option ℕ) → Moves v (option_refs v o) (λ _. 0) (run_state {V = V} o)
  run_state-Moves none s h n = nothing-Kept v 0 s h n
  run_state-Moves (some w) s h n =
      deref-After v (pointer v w) (λ _. 0) w _ s
        λ b g.
          then-Moves v s _ (pointer v w) (frame_refs v b.frame + pointer v w) (λ _. 0)
            (apply_option (frame_action b.frame) w)
            (clean-Kept v s w (pointer v w) (frame_refs v b.frame + pointer v w) b g refl h n)
            (frame_action-Moves b.frame w)

  pub run_weak-Moves : (w : ℕ) → Moves v 0 (λ _. 0) (run_weak {V = V} w)
  unfolding run_weak
  run_weak-Moves w =
      bind-Moves v 0 (option_refs v) (λ _. 0) (lock w) run_state (lock-Moves v w) run_state-Moves

  pub set_state_value-Moves :
      (w : ℕ) (x : Outcome V) (o : Option ℕ)
      → Moves v (option_refs v o) (λ _. 0) (set_state_value w x o)
  unfolding set_state_value
  set_state_value-Moves w (returns x) o =
      begin_then v (release_option o) (option_refs v o) (λ _. 0) (emplace w x)
        (release_option-Backed V v o) (release_option-refs V v o) (emplace-Moves v w x)
  set_state_value-Moves w (throws e) o =
      begin_then v (release_option o) (option_refs v o) (λ _. 0) (set_exception w e)
        (release_option-Backed V v o) (release_option-refs V v o) (set_exception-Moves v w e)
  set_state_value-Moves w gives o =
      begin_then v (release_option o) (option_refs v o) (λ _. 0) (unwrap w o)
        (release_option-Backed V v o) (release_option-refs V v o) (unwrap-Moves v w o)

  abandon_state-Moves :
      (o : Option ℕ) → Moves v (option_refs v o) (λ _. 0) (abandon_state {V = V} o)
  abandon_state-Moves none s h n = nothing-Kept v 0 s h n
  abandon_state-Moves (some w) s h n =
      begin_then v (clean w ∷ release w ∷ []) (pointer v w) (λ _. 0) (SharedState.abandon w)
        (ground arith) (omega arith) (abandon-Moves v w) s h n

  pub abandon_weak-Moves : (w : ℕ) → Moves v 0 (λ _. 0) (abandon_weak {V = V} w)
  unfolding abandon_weak
  abandon_weak-Moves w =
      bind-Moves v 0 (option_refs v) (λ _. 0) (lock w) abandon_state (lock-Moves v w)
        abandon_state-Moves

  pub clean_state-Moves : (w : ℕ) → Moves v 0 (λ _. 0) (clean_state {V = V} w)
  unfolding clean_state
  clean_state-Moves w s h n =
      deref-After v 0 (λ _. 0) w _ s
        λ b g.
          then-Moves v s _ 0 (frame_refs v b.frame) (λ _. 0) (begin (frame_parts b.frame))
            (clean-Kept v s w 0 (frame_refs v b.frame) b g (omega arith) h n)
            (begin_all v (frame_parts b.frame) (frame_refs v b.frame)
              (frame_parts-Backed V v b.frame) (frame_parts-refs V v b.frame))
