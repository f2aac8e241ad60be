-- ===== src/Machine/Owned.antt =====
-- Every state is owned by the pointers to it, and by nothing else.
pub mod Refs
mod Parts
pub mod Moves
mod Operations
mod Blocks
mod Steps
pub mod Promises
pub mod Futures
pub mod Continuations
pub mod Tasks
mod Jobs
mod Whole
pub mod Runs
mod Requests
mod Serves
use portable_concurrency.Prelude.{
  [], ◌++◌, ℕ, ◌+◌, ◌≤◌, ◌≡◌, ◌≢◌, refl, sym, ap, ◌∙◌, subst, Bool, true, false, Option, some,
  Bool-cases, List, ◌∷◌, arith,
}
use portable_concurrency.Store.{
  release, clean, call, destroy, run, deliver, give_up, end_task, interrupt, settle, end_promise,
  Code, done, thrown, Ends, Error, Job, Store,
}
use portable_concurrency.Machine.{step}
use portable_concurrency.Machine.System.{
  Request, serve, init, unwind, Interleaved, no_thread, next_job, unwound, next_request, new_thread,
  turn,
}
use portable_concurrency.Machine.Once.Tokens.{sum, sum-append}
use portable_concurrency.Machine.Once.Prices.{Low}
use portable_concurrency.Machine.Owned.Refs.{job_refs, job_uses, Backed, refs, owners}
use portable_concurrency.Machine.Owned.Moves.{Sound, Kept, After}
use portable_concurrency.Machine.Owned.Jobs.{step-Moves}
use portable_concurrency.Machine.Owned.Whole.{Returned}
use portable_concurrency.Machine.Owned.Runs.{
  Pointers, takes, answer, is_whole, Run, begun, went_on, threw, forked, switched, returned,
  refused,
}
use portable_concurrency.Machine.Owned.Requests.{answer-Both}
use portable_concurrency.Machine.Owned.Serves.{answer_serves}

module _ {V : Type 0} (v : ℕ) where
  -- The pointers of the threads that wait, and that each has what it uses.
  abbrev pub waiting_refs : List (List (Job V)) → ℕ
  waiting_refs ts = sum (λ js. sum (job_refs v) js) ts

  abbrev AllBacked : List (List (Job V)) → Type 0
  AllBacked [] = Unit {0}
  AllBacked (js ∷ ts) = Backed v js × AllBacked ts

  waiting-append :
      (ts : List (List (Job V))) (js : List (Job V)) (us : List (List (Job V)))
      → waiting_refs (ts ++ js ∷ us) ≡ waiting_refs ts + sum (job_refs v) js + waiting_refs us
  waiting-append ts js us =
      omega (arith, sum-append (λ js. sum (job_refs {V = V} v) js) ts (js ∷ us))

  -- A thread takes the place of another.
  AllBacked-swap :
      (ts : List (List (Job V))) (js ks : List (Job V)) (us : List (List (Job V)))
      → AllBacked (ts ++ js ∷ us)
      → Backed v ks
      → Backed v js × AllBacked (ts ++ ks ∷ us)
  AllBacked-swap [] js ks us x b = (x.0, (b, x.1))
  AllBacked-swap (t ∷ ts) js ks us x b =
      let y = AllBacked-swap ts js ks us x.1 b in (y.0, (x.0, y.1))

  -- What an exception skips has no pointer.
  unwind-refs : (js : List (Job V)) → sum (job_refs v) (unwind js) ≡ sum (job_refs v) js
  unwind-refs [] = refl
  unwind-refs (release p ∷ js) = omega (arith, unwind-refs js)
  unwind-refs (clean w ∷ js) = omega arith
  unwind-refs (call c ∷ js) = refl
  unwind-refs (destroy c ∷ js) = refl
  unwind-refs (run w ∷ js) = refl
  unwind-refs (deliver w x o ∷ js) = refl
  unwind-refs (give_up w ∷ js) = refl
  unwind-refs (end_task w ∷ js) = refl
  unwind-refs (interrupt w f p ∷ js) = refl
  unwind-refs (settle w r ∷ js) = refl
  unwind-refs (end_promise w ∷ js) = refl

  unwind-Backed : (js : List (Job V)) → Backed v js → Backed v (unwind js)
  unwind-Backed [] b = tt
  unwind-Backed (release p ∷ js) b = (omega arith, unwind-Backed js b.1)
  unwind-Backed (clean w ∷ js) b = b.1
  unwind-Backed (call c ∷ js) b = b
  unwind-Backed (destroy c ∷ js) b = b
  unwind-Backed (run w ∷ js) b = b
  unwind-Backed (deliver w x o ∷ js) b = b
  unwind-Backed (give_up w ∷ js) b = b
  unwind-Backed (end_task w ∷ js) b = b
  unwind-Backed (interrupt w f p ∷ js) b = b
  unwind-Backed (settle w r ∷ js) b = b
  unwind-Backed (end_promise w ∷ js) b = b

  -- The client holds `k` pointers to `v`.
  pub record Exact (k : ℕ) (s : Store V) (ts : List (List (Job V))) : Type 0 where
    pub low : Low v s
    pub sound : Sound v s
    pub others : AllBacked ts
    pub balance : owners v s ≡ refs v s + waiting_refs ts + k

  Kept-Exact :
      (s t : Store V) (ts : List (List (Job V))) (h k l rest : ℕ)
      → Exact h s ts
      → h ≡ k + rest
      → Kept v s k t l
      → (m : ℕ) → m ≡ l + rest
      → Exact m t ts
  Kept-Exact s t ts h k l rest x e y m d = record {
    low = y.low;
    sound = y.sound;
    others = x.others;
    balance = omega (arith, x.balance, y.balance, e, d);
  }

  pub Run-Exact :
      {h : Pointers} {s : Store V} {ts : List (List (Job V))} → Run h s ts → Exact (h v) s ts
  Run-Exact begun = record {
    low = λ p l. refl;
    sound = (λ p b g. ground (arith, g), tt);
    others = tt;
    balance = omega arith;
  }
  Run-Exact (went_on {h} {s} {t} {ts} r e) =
      let x = Run-Exact r in
      Kept-Exact s t ts (h v) 0 0 (h v) x (omega arith)
        (subst (After v s 0 (λ _. 0)) e (step-Moves v s x.low x.sound)) (h v) (omega arith)
  Run-Exact (threw {h} {s} {t} {ts} c r e) =
      let x = Run-Exact r in
      let y =
        Kept-Exact s t ts (h v) 0 0 (h v) x (omega arith)
          (subst (After v s 0 (λ _. 0)) e (step-Moves v s x.low x.sound)) (h v) (omega arith) in
      record {
        low = y.low;
        sound = (y.sound.0, unwind-Backed t.jobs y.sound.1);
        others = y.others;
        balance = omega (arith, y.balance, unwind-refs t.jobs);
      }
  Run-Exact (returned {h} {s} {t} {ts} q rest given r e a) =
      let x = Run-Exact r in
      Kept-Exact s t ts (h v) (takes q v) (given v) (rest v) x (e v)
        (subst (Returned v s (takes q v) (λ p. p v)) a ((answer-Both v q).0 s x.low x.sound))
        (given v + rest v) refl
  Run-Exact (refused {h} {s} {t} {ts} q rest w r e b a) =
      let x = Run-Exact r in
      Kept-Exact s t ts (h v) (takes q v) 0 (rest v) x (e v)
        (subst (After v s (takes q v) (λ p. p v)) a ((answer-Both v q).1 b s x.low x.sound))
        (rest v) (omega arith)
  Run-Exact (forked {h} {s} {ts} r) =
      let x = Run-Exact r in
      record {
        low = x.low;
        sound = (x.sound.0, tt);
        others = (x.sound.1, x.others);
        balance = omega (arith, x.balance);
      }
  Run-Exact (switched {h} {s} ts js us r) =
      let x = Run-Exact r in
      let b = AllBacked-swap ts js s.jobs us x.others x.sound.1 in
      record {
        low = x.low;
        sound = (x.sound.0, b.0);
        others = b.1;
        balance = omega (arith, x.balance, waiting-append ts js us, waiting-append ts s.jobs us);
      }

  -- What a job has and uses is counted.
  pub jobs_counted :
      (k : ℕ) (s : Store V) (ts : List (List (Job V))) (j : Job V) (js : List (Job V))
      → Exact k s ts
      → s.jobs ≡ j ∷ js
      → job_refs v j + job_uses v j ≤ owners v s
  jobs_counted k s ts j js x e =
      let b = subst (Backed {V = V} v) e x.sound.1 in
      omega (arith, x.balance, b.0, ap (sum (job_refs {V = V} v)) e)

module _ {V : Type 0} where
  -- The states of such a run are those that the threads reach.
  pub Run-Interleaved :
      {h : Pointers} {s : Store V} {ts : List (List (Job V))} → Run h s ts → Interleaved s ts
  Run-Interleaved begun = no_thread
  Run-Interleaved (went_on {h} {s} {t} {ts} r e) =
      subst (λ u. Interleaved u ts) (ap (λ x. x.1) e) (next_job (Run-Interleaved r))
  Run-Interleaved (threw c r e) = unwound c (Run-Interleaved r) e
  Run-Interleaved (returned {h} {s} {t} {ts} q rest given r e a) =
      subst (λ u. Interleaved u ts) (sym (answer_serves q s) ∙ ap (λ x. x.1) a)
        (next_request q (Run-Interleaved r))
  Run-Interleaved (refused {h} {s} {t} {ts} q rest w r e b a) =
      subst (λ u. Interleaved u ts) (sym (answer_serves q s) ∙ ap (λ x. x.1) a)
        (next_request q (Run-Interleaved r))
  Run-Interleaved (forked r) = new_thread (Run-Interleaved r)
  Run-Interleaved (switched ts js us r) = turn ts js us (Run-Interleaved r)
