-- ===== src/Machine/Once.antt =====
-- A continuation's function is called at most once.
pub mod Tokens
pub mod Prices
mod Operations
mod Steps
mod Promises
mod Jobs
mod Futures
mod Tasks
mod Requests
use portable_concurrency.Prelude.{
  subst, List, [], ◌∷◌, ◌++◌, ℕ, suc, ◌+◌, ◌≤◌, ◌≡◌, refl, ltb, leb, none, one_if, total, arith,
}
use portable_concurrency.Store.{
  Store, Job, release, clean, call, destroy, run, deliver, give_up, end_task, interrupt, settle,
  end_promise,
}
use portable_concurrency.Machine.{step}
use portable_concurrency.Machine.System.{
  Request, serve, init, unwind, Interleaved, no_thread, next_job, unwound, next_request, new_thread,
  turn,
}
use portable_concurrency.Machine.Once.Tokens.{
  sum, sum-append, in_job, in_seen, in_state, tokens, news,
}
use portable_concurrency.Machine.Once.Prices.{Low, Adds}
use portable_concurrency.Machine.Once.Jobs.{step-Costs}
use portable_concurrency.Machine.Once.Requests.{serve-Costs}

module _ {V : Type 0} (v : ℕ) where
  -- The tokens of the threads that wait.
  abbrev waiting_tokens : List (List (Job V)) → ℕ
  waiting_tokens ts = sum (λ js. sum (in_job v) js) ts

  waiting-append :
      (ts : List (List (Job V))) (js : List (Job V)) (us : List (List (Job V)))
      → waiting_tokens (ts ++ js ∷ us) ≡ waiting_tokens ts + sum (in_job v) js + waiting_tokens us
  waiting-append ts js us = omega (arith, sum-append (λ js. sum (in_job {V = V} v) js) ts (js ∷ us))

  unwind-tokens : (js : List (Job V)) → sum (in_job v) (unwind js) ≤ sum (in_job v) js
  unwind-tokens [] = omega arith
  unwind-tokens (release p ∷ js) = omega (arith, unwind-tokens js)
  unwind-tokens (clean w ∷ js) = omega arith
  unwind-tokens (call c ∷ js) = omega arith
  unwind-tokens (destroy c ∷ js) = omega arith
  unwind-tokens (run w ∷ js) = omega arith
  unwind-tokens (deliver w x o ∷ js) = omega arith
  unwind-tokens (give_up w ∷ js) = omega arith
  unwind-tokens (end_task w ∷ js) = omega arith
  unwind-tokens (interrupt w f p ∷ js) = omega arith
  unwind-tokens (settle w r ∷ js) = omega arith
  unwind-tokens (end_promise w ∷ js) = omega arith

  -- An address that is in use has one token at most, any other has none.
  record Single (s : Store V) (ts : List (List (Job V))) : Type 0 where
    low : Low v s
    tokens : tokens v s + waiting_tokens ts ≤ one_if (ltb v s.fresh)

  Adds-Single :
      (s t : Store V) (ts : List (List (Job V))) → Single s ts → Adds v 0 s t → Single t ts
  Adds-Single s t ts h a = record {
    low = a.low;
    tokens = ground (arith, a.tokens, h.tokens, a.fresh);
  }

  Interleaved-Single : {s : Store V} {ts : List (List (Job V))} → Interleaved s ts → Single s ts
  Interleaved-Single no_thread = record { low = λ p h. refl; tokens = omega arith }
  Interleaved-Single (next_job {s} {ts} r) =
      let h = Interleaved-Single r in Adds-Single s (step s).1 ts h (step-Costs v s h.low)
  Interleaved-Single (unwound {s} {t} {ts} e r x) =
      let h = Interleaved-Single r in
      let k = Adds-Single s t ts h (subst (λ y. Adds v 0 s y.1) x (step-Costs v s h.low)) in
      record { low = k.low; tokens = omega (arith, k.tokens, unwind-tokens t.jobs) }
  Interleaved-Single (next_request {s} {ts} q r) =
      let h = Interleaved-Single r in Adds-Single s (serve q s).1 ts h (serve-Costs v q s h.low)
  Interleaved-Single (new_thread {s} {ts} r) =
      let h = Interleaved-Single r in record { low = h.low; tokens = omega (arith, h.tokens) }
  Interleaved-Single (turn {s} ts js us r) =
      let h = Interleaved-Single r in
      record {
        low = h.low;
        tokens = omega (arith, h.tokens, waiting-append ts js us, waiting-append ts s.jobs us);
      }

  -- In a store that any number of threads have led to, whose calls and jobs, the innermost of a
  -- thread first, come in any order, and with executors that take their actions in any order, the function of the continuation whose
  -- result is the state `v` has been called at most once.
  pub applied_at_most_once :
      {s : Store V} {ts : List (List (Job V))} → Interleaved s ts → sum (in_seen v) s.seen ≤ 1
  applied_at_most_once {s} {ts} r = ground (arith, (Interleaved-Single r).tokens)
