-- ===== src/Machine/Once/Steps.antt =====
-- What the functions behind a job cost: at most the job's own token.
use portable_concurrency.Prelude.{
  ℕ, suc, ◌+◌, ◌≡◌, ◌==◌, refl, Option, none, some, List, [], ◌∷◌, ◌++◌, one_if, Option-cases, inl,
  inr, arith,
}
use portable_concurrency.Store.{
  Code, pure, ◌>>=◌, ◌>>◌, Result, ok, err, Job, release, run, deliver, clean, give_up, Seen,
  applied, scheduled, Outcome, returns, throws, gives, Function, Action, then_action, next_action,
  promise_action, interrupt, Executor, inplace, queue, Store,
}
use portable_concurrency.Owners.{
  begin, log, lock, lock-none, lock-some, share, release_option, frame_parts,
}
use portable_concurrency.SharedState.{read_result-ends, execute, emplace, set_exception, unwrap}
use portable_concurrency.SharedState
use portable_concurrency.Then.{
  apply_next, schedule_weak, schedule_state, run_weak, run_state, apply, apply_option, result_of,
  set_state_value, abandon_weak, abandon_state, clean_state, post_option, frame_action,
  frame_executor, clean_action, clean_executor,
}
use portable_concurrency.PackagedTask.{
  PackagedTask, empty, owning, awaited, abandon_task, task_parts,
}
use portable_concurrency.PackagedTask
use portable_concurrency.Machine.Once.Tokens.{
  sum, sum-append, in_job, in_posted, in_seen, frame_parts-tokens, release_option-tokens,
}
use portable_concurrency.Machine.Once.Prices.{
  Low, Adds, Costs, nothing-Adds, then-Adds, less-Adds, bind-Costs, free-then, free-bind,
  deref-Adds, same_list-Adds, begin-Adds,
}
use portable_concurrency.Machine.Once.Operations.{
  share-Costs, lock-Costs, emplace-Costs, set_exception-Costs, abandon-Costs, unwrap-Costs,
}

module _ {V : Type 0} (v : ℕ) where
  -- What follows something free.
  pub after_free :
      {A B : Type 0} (k : ℕ) (m : Code (Store V) A) (f : A → Code (Store V) B)
      → Costs v 0 m
      → ((a : A) → Costs v k (f a))
      → Costs v k (m >>= f)
  after_free k m f cm cf s h =
      less-Adds v s _ (0 + k) k (bind-Costs v 0 k m f cm cf s h) (omega arith)

  pub log-Adds : (s : Store V) (e : Seen) → Low v s → Adds v (in_seen v e) s (log e s).1
  log-Adds s e h = record { low = h; fresh = omega arith; tokens = omega arith }

  post_option-Costs :
      (o : Option Executor) (w : ℕ) → Costs v (one_if (w == v)) (post_option {V = V} o w)
  post_option-Costs none w s h = nothing-Adds v (one_if (w == v)) s h
  post_option-Costs (some inplace) w s h =
      begin-Adds v s (run w ∷ []) (one_if (w == v)) h (omega arith)
  post_option-Costs (some (queue k)) w s h = record {
    low = h;
    fresh = omega arith;
    tokens = omega (arith, sum-append (in_posted v) s.posted ((k, scheduled w) ∷ []));
  }

  -- What follows a lock.
  pub lock-then :
      {B : Type 0} (k w : ℕ) (f : Option ℕ → Code (Store V) B)
      → Costs v k (f none)
      → Costs v k (f (some w))
      → Costs v k (lock w >>= f)
  lock-then k w f cn cs s h = elim (Option-cases (s.states w)) [
    | inl e ↦ rw (lock-none w s e) (cn s h)
    | inr (b, e) ↦ rw (lock-some w s b e) (
        let a = same_list-Adds v s w b (record b { owners = suc b.owners }) e h refl in
        less-Adds v s _ (0 + k) k (then-Adds v s _ _ 0 k a (cs _ a.low)) (omega arith))
  ]

  pub nothing-Costs : {A : Type 0} (k : ℕ) (a : A) → Costs v k (pure {S = Store V} a)
  nothing-Costs k a s h = nothing-Adds v k s h

  pub release-Costs : (js : List (Job V)) → sum (in_job v) js ≡ 0 → Costs v 0 (begin js)
  release-Costs js e s h = begin-Adds v s js 0 h e

  schedule_state-Costs : (w : ℕ) → Costs v (one_if (w == v)) (schedule_state {V = V} (some w))
  schedule_state-Costs w s h = deref-Adds v (one_if (w == v)) w _ s h λ b e.
      let a = same_list-Adds v s w b (record b { frame = clean_executor b.frame }) e h refl in
      let c =
        bind-Costs v (one_if (w == v)) 0 (post_option (frame_executor b.frame) w)
          (λ _. begin (release w ∷ [])) (post_option-Costs (frame_executor b.frame) w)
          (λ _. release-Costs (release w ∷ []) refl) _ a.low in
      less-Adds v s _ (0 + (one_if (w == v) + 0)) (one_if (w == v))
        (then-Adds v s _ _ 0 (one_if (w == v) + 0) a c) (omega arith)

  pub schedule_weak-Costs : (w : ℕ) → Costs v (one_if (w == v)) (schedule_weak {V = V} w)
  unfolding schedule_weak
  schedule_weak-Costs w =
      lock-then (one_if (w == v)) w schedule_state (nothing-Costs (one_if (w == v)) tt)
        (schedule_state-Costs w)

  pub result_of-Costs : (p : ℕ) → Costs v 0 (result_of {V = V} p)
  result_of-Costs p s h =
      let n = nothing-Adds v 0 s h in
      read_result-ends (λ x. Adds v 0 s x.1) s (suc s.fresh) p (λ r. n) n (λ q. n)

  -- A call of a function, and free jobs.
  pub call-Costs :
      (w : ℕ) (js : List (Job V))
      → sum (in_job v) js ≡ 0
      → Costs v (one_if (w == v)) (log (applied w) >> begin js)
  call-Costs w js e s h =
      let a = log-Adds s (applied w) h in
      less-Adds v s _ (one_if (w == v) + 0) (one_if (w == v))
        (then-Adds v s _ _ (one_if (w == v)) 0 a (release-Costs js e _ a.low)) (omega arith)

  apply_next-Costs :
      (f : Function V) (parent w : ℕ) (r : Result V)
      → Costs v (one_if (w == v)) (apply_next f parent w r)
  apply_next-Costs f parent w (ok x) s h =
      call-Costs w (deliver w (f.body (ok x)) f.captured ∷ release w ∷ release parent ∷ []) refl s h
  apply_next-Costs f parent w (err e) s h =
      less-Adds v s _ 0 (one_if (w == v))
        (free-bind v (begin (release w ∷ release parent ∷ release_option f.captured))
          (λ _. set_exception w e)
          (release-Costs (release w ∷ release parent ∷ release_option f.captured)
            (omega (arith, release_option-tokens V v f.captured)))
          (λ _. set_exception-Costs v w e) s h)
        (omega arith)

  apply_option-Costs :
      (o : Option (Action V)) (w : ℕ) → Costs v (one_if (w == v)) (apply_option o w)
  unfolding apply
  apply_option-Costs none w s h = nothing-Adds v (one_if (w == v)) s h
  apply_option-Costs (some (then_action f parent)) w s h =
      after_free (one_if (w == v)) (result_of parent) _ (result_of-Costs parent)
        (λ r. call-Costs w (release parent ∷ deliver w (f.body r) f.captured ∷ release w ∷ []) refl)
        s h
  apply_option-Costs (some (next_action f parent)) w s h =
      after_free (one_if (w == v)) (result_of parent) (apply_next f parent w)
        (result_of-Costs parent) (apply_next-Costs f parent w) s h
  apply_option-Costs (some (promise_action f parent)) w s h =
      begin-Adds v s (release w ∷ interrupt w f parent ∷ []) (one_if (w == v)) h (omega arith)

  run_state-Costs : (w : ℕ) → Costs v (one_if (w == v)) (run_state {V = V} (some w))
  run_state-Costs w s h = deref-Adds v (one_if (w == v)) w _ s h λ b e.
      let a = same_list-Adds v s w b (record b { frame = clean_action b.frame }) e h refl in
      less-Adds v s _ (0 + one_if (w == v)) (one_if (w == v))
        (then-Adds v s _ _ 0 (one_if (w == v)) a
          (apply_option-Costs (frame_action b.frame) w _ a.low))
        (omega arith)

  pub run_weak-Costs : (w : ℕ) → Costs v (one_if (w == v)) (run_weak {V = V} w)
  unfolding run_weak
  run_weak-Costs w =
      lock-then (one_if (w == v)) w run_state (nothing-Costs (one_if (w == v)) tt)
        (run_state-Costs w)

  pub set_state_value-Costs :
      (w : ℕ) (x : Outcome V) (o : Option ℕ) → Costs v 0 (set_state_value w x o)
  unfolding set_state_value
  set_state_value-Costs w (returns x) o =
      free-bind v (begin (release_option o)) (λ _. emplace w x)
        (release-Costs (release_option o) (release_option-tokens V v o)) (λ _. emplace-Costs v w x)
  set_state_value-Costs w (throws e) o =
      free-bind v (begin (release_option o)) (λ _. set_exception w e)
        (release-Costs (release_option o) (release_option-tokens V v o))
        (λ _. set_exception-Costs v w e)
  set_state_value-Costs w gives o =
      free-bind v (begin (release_option o)) (λ _. unwrap w o)
        (release-Costs (release_option o) (release_option-tokens V v o)) (λ _. unwrap-Costs v w o)

  abandon_state-Costs : (w : ℕ) → Costs v 0 (abandon_state {V = V} (some w))
  abandon_state-Costs w =
      free-bind v (begin (clean w ∷ release w ∷ [])) (λ _. SharedState.abandon w)
        (release-Costs (clean w ∷ release w ∷ []) refl) (λ _. abandon-Costs v w)

  pub abandon_weak-Costs : (w : ℕ) → Costs v 0 (abandon_weak {V = V} w)
  unfolding abandon_weak
  abandon_weak-Costs w = lock-then 0 w abandon_state (nothing-Costs 0 tt) (abandon_state-Costs w)

  pub clean_state-Costs : (w : ℕ) → Costs v 0 (clean_state {V = V} w)
  unfolding clean_state
  clean_state-Costs w s h = deref-Adds v 0 w _ s h λ b e.
      let a = same_list-Adds v s w b (record b { frame = clean_action b.frame }) e h refl in
      free-then v s _ _ a
        (release-Costs (frame_parts b.frame) (frame_parts-tokens V v b.frame) _ a.low)

  pub find_state-Costs : (t : PackagedTask) → Costs v 0 (PackagedTask.find_state {V = V} t)
  unfolding PackagedTask.find_state
  find_state-Costs empty s h = nothing-Adds v 0 s h
  find_state-Costs (owning p) s h =
      free-bind v (share p) (λ _. pure (some p)) (share-Costs v p) (λ _. nothing-Costs 0 (some p)) s
        h
  find_state-Costs (awaited p) s h = lock-Costs v p s h

  pub abandon_task-Costs : (o : Option ℕ) → Costs v 0 (abandon_task {V = V} o)
  abandon_task-Costs none s h = nothing-Adds v 0 s h
  abandon_task-Costs (some p) s h = deref-Adds v 0 p _ s h λ b e.
      let a = same_list-Adds v s p b (record b { frame = clean_action b.frame }) e h refl in
      free-then v s _ _ a (
        release-Costs (frame_parts b.frame ++ give_up p ∷ release p ∷ [])
          (omega (
            arith,
            sum-append (in_job {V = V} v) (frame_parts b.frame) (give_up p ∷ release p ∷ []),
            frame_parts-tokens V v b.frame,
          ))
          _ a.low)

  pub task_parts-Costs : (t : PackagedTask) → Costs v 0 (begin {V = V} (task_parts t))
  task_parts-Costs empty = release-Costs [] refl
  task_parts-Costs (awaited p) = release-Costs [] refl
  task_parts-Costs (owning p) = release-Costs (release p ∷ []) refl

  pub destroy_task-Costs : (t : PackagedTask) → Costs v 0 (PackagedTask.destroy {V = V} t)
  unfolding PackagedTask.destroy
  destroy_task-Costs t =
      free-bind v (begin (task_parts t)) (λ _. PackagedTask.find_state t >>= abandon_task)
        (task_parts-Costs t)
        (λ _.
          free-bind v (PackagedTask.find_state t) abandon_task (find_state-Costs t)
            abandon_task-Costs)
