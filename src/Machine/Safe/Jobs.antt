-- ===== src/Machine/Safe/Jobs.antt =====
-- Each job uses a state that is there.
use portable_concurrency.Prelude.{
  ℕ, ◌+◌, ◌≤◌, ◌≡◌, ◌≢◌, refl, ap, subst, sym, ◌∙◌, Option, none, some, List, [], ◌∷◌, ◌++◌, zero,
  suc, Option-cases, inl, inr, arith,
}
use portable_concurrency.Store.{
  Code, done, thrown, undefined, dangling, Ends, and_then, Result, ok, err, Continuation, notify,
  notify_on, inplace, queue, forward, schedule, hold, Job, call, destroy, release, run, deliver,
  clean, give_up, end_task, interrupt, settle, end_promise, Handler, State, Store, applied, Posted,
  scheduled, packaged, notification,
}
use portable_concurrency.Owners.{
  begin, lock, deref-none, deref-some, drop, drop_owner, release_option,
}
use portable_concurrency.Promise
use portable_concurrency.Then.{result_of}
use portable_concurrency.Interrupt.{handling_jobs, interrupt_state, settle_promise}
use portable_concurrency.PackagedTask.{awaited}
use portable_concurrency.Machine.{
  step_jobs, invoke, discard, perform, forward_state, call_action, drop_action, take_from, take_out,
  run_posted, drop_posted,
}
use portable_concurrency.Machine.Owned.Refs.{
  pointer, option_refs, job_refs, job_uses, owner_count, owners,
}
use portable_concurrency.Machine.Safe.Ends.{
  Intact, Good, same-Grown, then-Good, bind-Good, begin-Grown, log-Grown,
}
use portable_concurrency.Machine.Safe.Operations.{lock-Good, execute-Good, abandon-Good}
use portable_concurrency.Machine.Safe.Steps.{
  begin-Good, log-begin-Good, result_of-Good, schedule_weak-Good, run_weak-Good,
  set_state_value-Good, clean_state-Good, abandon_weak-Good,
}
use portable_concurrency.Machine.Safe.Promises.{
  set_value-Good, promise_exception-Good, destroy-Good,
}
use portable_concurrency.Machine.Safe.Tasks.{destroy_task-Good, call_posted-Good}

module _ {V : Type 0} (v : ℕ) where
  abbrev pub Spares : {A : Type 0} → Ends A × Store V → Type 0
  Spares r = r.0 ≢ dangling v

  pub Good-Spares :
      {A : Type 0} (s : Store V) (uses : A → ℕ) (r : Ends A × Store V) → Good v s uses r → Spares r
  Good-Spares s uses (done a, t) x e = ground (arith, e)
  Good-Spares s uses (thrown w, t) x e = ground (arith, e)
  Good-Spares s uses (undefined, t) x e = ground (arith, e)
  Good-Spares s uses (dangling p, t) x e = ground (arith, e, x)

  interrupt_state-Good :
      (w : ℕ) (f : Handler V) (parent : ℕ) (s : Store V)
      → Intact v s
      → pointer v parent ≤ owners v s
      → Good v s (λ _. 0) (interrupt_state w f parent s)
  unfolding interrupt_state
  interrupt_state-Good w f parent s h u =
      bind-Good v s (λ _. 0) (λ _. 0) (result_of parent) _ (result_of-Good v parent s h u)
        (λ r t g k.
          log-begin-Good v (applied w)
            (handling_jobs w (f.body r) ++ release parent ∷ release_option f.captured) t g.low)

  settle_promise-Good :
      (w : ℕ) (r : Result V) (s : Store V) → Intact v s → Good v s (λ _. 0) (settle_promise w r s)
  unfolding settle_promise
  settle_promise-Good w (ok x) s h = set_value-Good v (Promise.awaited w) x s h (omega arith)
  settle_promise-Good w (err e) s h =
      promise_exception-Good v (Promise.awaited w) e s h (omega arith)

  forward_state-Good :
      (o : Option ℕ) (s : Store V)
      → Intact v s
      → option_refs v o ≤ owners v s
      → Good v s (λ _. 0) (forward_state o s)
  forward_state-Good none s h u = (same-Grown v s h, omega arith)
  forward_state-Good (some w) s h u =
      let g = begin-Grown v s (release w ∷ []) h in
      then-Good v s _ (λ _. 0) _ g
        (execute-Good v w (begin (release w ∷ []) s).1 g.low (omega (arith, u, g.grown)))

  invoke-Good : (c : Continuation) (s : Store V) → Intact v s → Good v s (λ _. 0) (invoke c s)
  unfolding invoke
  invoke-Good (notify m) s h = (log-Grown v s _ h, omega arith)
  invoke-Good (notify_on inplace m) s h = (log-Grown v s _ h, omega arith)
  invoke-Good (notify_on (queue k) m) s h = (record { low = h; grown = omega arith }, omega arith)
  invoke-Good (forward w) s h =
      bind-Good v s (option_refs v) (λ _. 0) (lock w) forward_state (lock-Good v w s h)
        (λ o t g u. forward_state-Good o t g.low u)
  invoke-Good (schedule w) s h = schedule_weak-Good v w s h
  invoke-Good (hold p) s h = (same-Grown v s h, omega arith)

  discard-Good : (c : Continuation) (s : Store V) → Intact v s → Good v s (λ _. 0) (discard c s)
  unfolding discard
  discard-Good (notify_on x m) s h = (same-Grown v s h, omega arith)
  discard-Good (notify m) s h = (same-Grown v s h, omega arith)
  discard-Good (forward w) s h = (same-Grown v s h, omega arith)
  discard-Good (schedule w) s h = (same-Grown v s h, omega arith)
  discard-Good (hold p) s h = begin-Good v (release p ∷ []) s h

  drop_owner-Spares : (p : ℕ) (b : State V) (n : ℕ) (s : Store V) → Spares (drop_owner p b n s)
  unfolding drop_owner
  drop_owner-Spares p b zero s e = ground (arith, e)
  drop_owner-Spares p b (suc zero) s e = ground (arith, e)
  drop_owner-Spares p b (suc (suc n)) s e = ground (arith, e)

  is_owned : (p : ℕ) (s : Store V) → pointer v p ≤ owners v s → s.states p ≡ none → p ≢ v
  is_owned p s u e same = ground (arith, u, ap owner_count (ap s.states (sym same) ∙ e), same)

  -- The pointer that ends is one.
  drop-Spares : (p : ℕ) (s : Store V) → pointer v p ≤ owners v s → Spares (drop p s)
  unfolding drop
  drop-Spares p s u = elim (Option-cases (s.states p)) [
    | inl e ↦
        subst (λ r. Spares (and_then r (λ b. drop_owner p b b.owners))) (sym (deref-none p s e))
          (λ same. ground (arith, same, is_owned p s u e))
    | inr (b, e) ↦
        subst (λ r. Spares (and_then r (λ b. drop_owner p b b.owners))) (sym (deref-some p s b e))
          (drop_owner-Spares p b b.owners s)
  ]

  perform-Spares :
      (j : Job V) (s : Store V)
      → Intact v s
      → job_refs v j ≤ owners v s
      → job_uses v j ≤ owners v s
      → Spares (perform j s)
  unfolding perform
  perform-Spares (call c) s h u w = Good-Spares s (λ _. 0) _ (invoke-Good c s h)
  perform-Spares (destroy c) s h u w = Good-Spares s (λ _. 0) _ (discard-Good c s h)
  perform-Spares (release p) s h u w = drop-Spares p s u
  perform-Spares (run x) s h u w = Good-Spares s (λ _. 0) _ (run_weak-Good v x s h)
  perform-Spares (deliver x y o) s h u w =
      Good-Spares s (λ _. 0) _ (set_state_value-Good v x y o s h w u)
  perform-Spares (clean x) s h u w = Good-Spares s (λ _. 0) _ (clean_state-Good v x s h w)
  perform-Spares (give_up x) s h u w = Good-Spares s (λ _. 0) _ (abandon-Good v x s h w)
  perform-Spares (end_task x) s h u w =
      Good-Spares s (λ _. 0) _ (destroy_task-Good v (awaited x) s h (omega arith))
  perform-Spares (interrupt x f p) s h u w =
      Good-Spares s (λ _. 0) _ (interrupt_state-Good x f p s h (omega (arith, u)))
  perform-Spares (settle x r) s h u w = Good-Spares s (λ _. 0) _ (settle_promise-Good x r s h)
  perform-Spares (end_promise x) s h u w =
      Good-Spares s (λ _. 0) _ (destroy-Good v (Promise.awaited x) s h)

  pub step_jobs-Spares :
      (s : Store V) (js : List (Job V))
      → Intact v s
      → ((j : Job V) (ks : List (Job V)) → js ≡ j ∷ ks → job_refs v j + job_uses v j ≤ owners v s)
      → Spares (step_jobs s js)
  step_jobs-Spares s [] h u e = ground (arith, e)
  step_jobs-Spares s (j ∷ js) h u e =
      perform-Spares j (record s { jobs = js }) h (omega (arith, u j js refl))
        (omega (arith, u j js refl)) e

  posted-Good :
      (f : Posted → Code (Store V) (Unit {0}))
      → ((a : Posted) (s : Store V) → Intact v s → Good v s (λ _. 0) (f a s))
      → (s : Store V) (o : Option (Posted × List (ℕ × Posted))) → Intact v s
      → Good v s (λ _. 0) (take_from f s o)
  posted-Good f c s none h = (same-Grown v s h, omega arith)
  posted-Good f c s (some (a, rest)) h =
      then-Good v s (record s { posted = rest }) (λ _. 0) (f a (record s { posted = rest }))
        (record { low = h; grown = omega arith }) (c a (record s { posted = rest }) h)

  call_action-Good : (a : Posted) (s : Store V) → Intact v s → Good v s (λ _. 0) (call_action a s)
  call_action-Good (scheduled w) s h = run_weak-Good v w s h
  call_action-Good (packaged p) s h = call_posted-Good v p s h
  call_action-Good (notification m) s h = (log-Grown v s _ h, omega arith)

  drop_action-Good : (a : Posted) (s : Store V) → Intact v s → Good v s (λ _. 0) (drop_action a s)
  drop_action-Good (scheduled w) s h = abandon_weak-Good v w s h
  drop_action-Good (packaged p) s h = destroy_task-Good v (awaited p) s h (omega arith)
  drop_action-Good (notification m) s h = (same-Grown v s h, omega arith)

  pub run_posted-Good : (i : ℕ) (s : Store V) → Intact v s → Good v s (λ _. 0) (run_posted i s)
  unfolding run_posted
  run_posted-Good i s h = posted-Good call_action call_action-Good s (take_out i s.posted) h

  pub drop_posted-Good : (i : ℕ) (s : Store V) → Intact v s → Good v s (λ _. 0) (drop_posted i s)
  unfolding drop_posted
  drop_posted-Good i s h = posted-Good drop_action drop_action-Good s (take_out i s.posted) h
