-- ===== src/Machine/HandledTests.antt =====
-- An interruptible continuation that answers with twice the value it is given.
use portable_concurrency.Prelude.{ℕ, ◌≡◌, ◌*◌, false, none, some, [], ◌∷◌}
use portable_concurrency.Store.{
  done, Result, ok, err, broken_promise, applied, Handling, fulfils, leaves, keeps,
}
use portable_concurrency.Machine.{run_jobs}
use portable_concurrency.Machine.Chain.{Fate, sets, drops, fuel, summary}
use portable_concurrency.Machine.Interruptible.{
  handler, interruptible_started, kept_then, kept_canceled, interruptible_settles,
  kept_promise_settles,
}

abbrev answer : Result ℕ → Handling ℕ
answer (ok n) = fulfils (ok (n * 2))
answer (err e) = leaves

abbrev six : Fate ℕ
six = sets 6

interruptible_settles_example :
    summary (run_jobs fuel (interruptible_started (handler answer) six))
    ≡ (done tt, [], some (ok 12), applied 1 ∷ [])
interruptible_settles_example = interruptible_settles answer six

kept_promise_settles_example :
    let r = kept_canceled (handler (λ _. keeps)) six in
    (summary (kept_then (handler (λ _. keeps)) six drops)
      ≡ (done tt, [], some (err broken_promise), applied 1 ∷ []))
    × (r.0 ≡ done false)
    × (r.1.jobs ≡ [])
    × (r.1.states 1 ≡ none)
kept_promise_settles_example = kept_promise_settles six drops
