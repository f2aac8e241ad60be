-- ===== src/Machine/Safe/Steps.antt =====
-- What a job uses.
use portable_concurrency.Prelude.{ℕ, suc, refl, ◌≤◌, ◌≡◌, Option, none, some, List, [], ◌∷◌, arith}
use portable_concurrency.Store.{
  ◌>>◌, Result, ok, err, Job, release, run, deliver, clean, Seen, applied, Outcome, returns, throws,
  gives, Function, Action, then_action, next_action, promise_action, interrupt, Executor, inplace,
  queue, plain, cancellable, continuation, task, State, Store, Frame,
}
use portable_concurrency.Owners.{write, begin, log, lock, release_option, frame_parts}
use portable_concurrency.Then.{
  apply_next, schedule_weak, schedule_state, run_weak, run_state, apply, apply_option, result_of,
  set_state_value, abandon_weak, abandon_state, clean_state, post_option, frame_action,
  frame_executor, clean_action, clean_executor,
}
use portable_concurrency.Machine.Owned.Refs.{pointer, option_refs, owners}
use portable_concurrency.Machine.Safe.Ends.{
  Intact, Grown, Good, action_parent, frame_parent, state-Links, read_result-Good, same-Grown,
  then-Grown, then-Good, bind-Good, deref-Good, write-Grown, begin-Grown, log-Grown,
}
use portable_concurrency.Machine.Safe.Operations.{
  lock-Good, emplace-Good, set_exception-Good, abandon-Good, unwrap-Good,
}

module _ {V : Type 0} (v : ℕ) where
  pub begin-Good : (js : List (Job V)) (s : Store V) → Intact v s → Good v s (λ _. 0) (begin js s)
  begin-Good js s h = (begin-Grown v s js h, omega arith)

  pub log-begin-Good :
      (x : Seen) (js : List (Job V)) (s : Store V)
      → Intact v s
      → Good v s (λ _. 0) ((log x >> begin js) s)
  log-begin-Good x js s h =
      let g = log-Grown v s x h in (then-Grown v s _ _ g (begin-Grown v _ js g.low), omega arith)

  -- A frame that is changed.
  pub frame-Grown :
      (s : Store V) (p : ℕ) (b : State V) (f : Frame V)
      → s.states p ≡ some b
      → Intact v s
      → frame_parent v f ≤ owners v s
      → Grown v s (write p (record b { frame = f }) s).1
  frame-Grown s p b f e h i =
      write-Grown v s p b (record b { frame = f }) e h (omega arith)
        ((state-Links v s p b h e).0, i)

  -- Frames that have the same parent, or none.
  clean_executor-parent : (f : Frame V) → frame_parent v (clean_executor f) ≡ frame_parent v f
  clean_executor-parent plain = refl
  clean_executor-parent (cancellable m) = refl
  clean_executor-parent (continuation x a) = refl
  clean_executor-parent (task f) = refl

  pub clean_action-parent : (f : Frame V) → frame_parent v (clean_action f) ≡ 0
  clean_action-parent plain = refl
  clean_action-parent (cancellable m) = refl
  clean_action-parent (continuation x a) = refl
  clean_action-parent (task f) = refl

  frame_action-parent : (f : Frame V) → action_parent v (frame_action f) ≡ frame_parent v f
  frame_action-parent plain = refl
  frame_action-parent (cancellable m) = refl
  frame_action-parent (continuation x a) = refl
  frame_action-parent (task f) = refl

  pub result_of-Good :
      (p : ℕ) (s : Store V)
      → Intact v s
      → pointer v p ≤ owners v s
      → Good v s (λ _. 0) (result_of p s)
  result_of-Good p s h u = read_result-Good v (suc s.fresh) p s h u

  post_option-Good :
      (o : Option Executor) (w : ℕ) (s : Store V)
      → Intact v s
      → Good v s (λ _. 0) (post_option o w s)
  post_option-Good none w s h = tt
  post_option-Good (some inplace) w s h = begin-Good (run w ∷ []) s h
  post_option-Good (some (queue k)) w s h = (record { low = h; grown = omega arith }, omega arith)

  schedule_state-Good :
      (o : Option ℕ) (s : Store V)
      → Intact v s
      → option_refs v o ≤ owners v s
      → Good v s (λ _. 0) (schedule_state o s)
  schedule_state-Good none s h u = (same-Grown v s h, omega arith)
  schedule_state-Good (some w) s h u =
      deref-Good v w (λ _. 0) _ s u
        λ b e.
          let g =
            frame-Grown s w b (clean_executor b.frame) e h
              (omega (arith, clean_executor-parent b.frame, (state-Links v s w b h e).1)) in
          then-Good v s _ (λ _. 0) _ g
            (bind-Good v _ (λ _. 0) (λ _. 0) (post_option (frame_executor b.frame) w)
              (λ _. begin (release w ∷ [])) (post_option-Good (frame_executor b.frame) w _ g.low)
              (λ _ t k i. begin-Good (release w ∷ []) t k.low))

  pub schedule_weak-Good :
      (w : ℕ) (s : Store V) → Intact v s → Good v s (λ _. 0) (schedule_weak w s)
  unfolding schedule_weak
  schedule_weak-Good w s h =
      bind-Good v s (option_refs v) (λ _. 0) (lock w) schedule_state (lock-Good v w s h)
        (λ o t g u. schedule_state-Good o t g.low u)

  apply_next-Good :
      (f : Function V) (parent w : ℕ) (r : Result V) (s : Store V)
      → Intact v s
      → pointer v w ≤ owners v s
      → Good v s (λ _. 0) (apply_next f parent w r s)
  apply_next-Good f parent w (ok x) s h u =
      log-begin-Good (applied w)
        (deliver w (f.body (ok x)) f.captured ∷ release w ∷ release parent ∷ []) s h
  apply_next-Good f parent w (err e) s h u =
      let js = release w ∷ release parent ∷ release_option f.captured in
      let g = begin-Grown v s js h in
      then-Good v s _ (λ _. 0) _ g
        (set_exception-Good v w e (begin js s).1 g.low (omega (arith, u, g.grown)))

  apply_option-Good :
      (o : Option (Action V)) (w : ℕ) (s : Store V)
      → Intact v s
      → pointer v w ≤ owners v s
      → action_parent v o ≤ owners v s
      → Good v s (λ _. 0) (apply_option o w s)
  unfolding apply
  apply_option-Good none w s h u i = tt
  apply_option-Good (some (then_action f parent)) w s h u i =
      bind-Good v s (λ _. 0) (λ _. 0) (result_of parent) _ (result_of-Good parent s h i)
        (λ r t g k.
          log-begin-Good (applied w)
            (release parent ∷ deliver w (f.body r) f.captured ∷ release w ∷ []) t g.low)
  apply_option-Good (some (next_action f parent)) w s h u i =
      bind-Good v s (λ _. 0) (λ _. 0) (result_of parent) (apply_next f parent w)
        (result_of-Good parent s h i)
        (λ r t g k. apply_next-Good f parent w r t g.low (omega (arith, u, g.grown)))
  apply_option-Good (some (promise_action f parent)) w s h u i =
      begin-Good (release w ∷ interrupt w f parent ∷ []) s h

  run_state-Good :
      (o : Option ℕ) (s : Store V)
      → Intact v s
      → option_refs v o ≤ owners v s
      → Good v s (λ _. 0) (run_state o s)
  run_state-Good none s h u = (same-Grown v s h, omega arith)
  run_state-Good (some w) s h u =
      deref-Good v w (λ _. 0) _ s u
        λ b e.
          let g =
            frame-Grown s w b (clean_action b.frame) e h
              (omega (arith, clean_action-parent b.frame)) in
          then-Good v s _ (λ _. 0) _ g
            (apply_option-Good (frame_action b.frame) w _ g.low (omega (arith, u, g.grown))
              (omega (arith, frame_action-parent b.frame, (state-Links v s w b h e).1, g.grown)))

  pub run_weak-Good : (w : ℕ) (s : Store V) → Intact v s → Good v s (λ _. 0) (run_weak w s)
  unfolding run_weak
  run_weak-Good w s h =
      bind-Good v s (option_refs v) (λ _. 0) (lock w) run_state (lock-Good v w s h)
        (λ o t g u. run_state-Good o t g.low u)

  pub set_state_value-Good :
      (w : ℕ) (x : Outcome V) (o : Option ℕ) (s : Store V)
      → Intact v s
      → pointer v w ≤ owners v s
      → option_refs v o ≤ owners v s
      → Good v s (λ _. 0) (set_state_value w x o s)
  unfolding set_state_value
  set_state_value-Good w (returns x) o s h u i =
      let g = begin-Grown v s (release_option o) h in
      then-Good v s _ (λ _. 0) _ g
        (emplace-Good v w x (begin (release_option o) s).1 g.low (omega (arith, u, g.grown)))
  set_state_value-Good w (throws e) o s h u i =
      let g = begin-Grown v s (release_option o) h in
      then-Good v s _ (λ _. 0) _ g
        (set_exception-Good v w e (begin (release_option o) s).1 g.low (omega (arith, u, g.grown)))
  set_state_value-Good w gives o s h u i =
      let g = begin-Grown v s (release_option o) h in
      then-Good v s _ (λ _. 0) _ g
        (unwrap-Good v w o (begin (release_option o) s).1 g.low (omega (arith, u, g.grown))
          (omega (arith, i, g.grown)))

  abandon_state-Good :
      (o : Option ℕ) (s : Store V)
      → Intact v s
      → option_refs v o ≤ owners v s
      → Good v s (λ _. 0) (abandon_state o s)
  abandon_state-Good none s h u = (same-Grown v s h, omega arith)
  abandon_state-Good (some w) s h u =
      let g = begin-Grown v s (clean w ∷ release w ∷ []) h in
      then-Good v s _ (λ _. 0) _ g
        (abandon-Good v w (begin (clean w ∷ release w ∷ []) s).1 g.low (omega (arith, u, g.grown)))

  pub abandon_weak-Good : (w : ℕ) (s : Store V) → Intact v s → Good v s (λ _. 0) (abandon_weak w s)
  unfolding abandon_weak
  abandon_weak-Good w s h =
      bind-Good v s (option_refs v) (λ _. 0) (lock w) abandon_state (lock-Good v w s h)
        (λ o t g u. abandon_state-Good o t g.low u)

  pub clean_state-Good :
      (w : ℕ) (s : Store V)
      → Intact v s
      → pointer v w ≤ owners v s
      → Good v s (λ _. 0) (clean_state w s)
  unfolding clean_state
  clean_state-Good w s h u =
      deref-Good v w (λ _. 0) _ s u
        λ b e.
          let g =
            frame-Grown s w b (clean_action b.frame) e h
              (omega (arith, clean_action-parent b.frame)) in
          (then-Grown v s _ _ g (begin-Grown v _ (frame_parts b.frame) g.low), omega arith)
