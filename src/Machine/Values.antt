-- ===== src/Machine/Values.antt =====
-- What is put into a promise comes out of its futures.
use portable_concurrency.Prelude.{◌≡◌, refl, some, ℕ_discrete}
use portable_concurrency.Store.{
  ◌>>=◌, ◌>>◌, done, thrown, Ends, Result, ok, err, Store, plain, promise_already_satisfied,
}
use portable_concurrency.Owners.{make_shared, share, lock, drop, drop_owner, cancel}
use portable_concurrency.SharedState.{execute, satisfy, emplace, set_exception, abandon, outcome}
use portable_concurrency.Promise.{Promise, get_state, awaited}
use portable_concurrency.Promise
use portable_concurrency.Future
use portable_concurrency.Machine.{run_jobs, step, perform}
use portable_concurrency.Machine.System.{init}
use portable_concurrency.Machine.Chain.{fuel, Fate, sets, fails, drops, meet, fate_result}

module _ {V : Type 0} where
  abbrev pub get_ends : Result V → Ends V
  get_ends (ok v) = done v
  get_ends (err e) = thrown e

  -- `make_promise`, the fate of the promise, and all that follows.
  pub met : Fate V → Store V
  unfolding Promise.make_promise make_shared Promise.set_value Promise.set_exception Promise.destroy
      Promise.abandon abandon run_jobs step perform drop drop_owner lock share get_state emplace
      satisfy execute set_exception cancel ℕ_discrete
  met fate = ((Promise.make_promise plain >>= λ (r, p). meet r fate >> run_jobs fuel) init).1

  -- `get` returns the value that was set, or throws the exception that was set, or that of a broken
  -- promise if the promise was destroyed. A shared future does so as often as it is asked.
  pub get_returns_set :
      (fate : Fate V)
      → ((Future.get (some 0) (met fate)).0 ≡ get_ends (fate_result fate))
        × ((Future.get_shared (some 0) (met fate)).0 ≡ get_ends (fate_result fate))
        × ((Future.get_shared (some 0) (Future.get_shared (some 0) (met fate)).1).0
            ≡ get_ends (fate_result fate))
  unfolding met Future.get Future.get_shared outcome
  get_returns_set (sets v) = (refl, refl, refl)
  get_returns_set (fails e) = (refl, refl, refl)
  get_returns_set drops = (refl, refl, refl)

  -- How what a promise meets the second time ends.
  abbrev pub refused : Fate V → Ends (Unit {0})
  refused (sets v) = thrown promise_already_satisfied
  refused (fails e) = thrown promise_already_satisfied
  refused drops = done tt

  -- Whatever a promise has met, a second value or exception is refused by an exception, its
  -- destruction does nothing, and none of them changes what the future gives.
  pub set_once :
      (fate next : Fate V)
      → let r = meet (awaited 0) next (met fate) in
        (r.0 ≡ refused next) × ((Future.get_shared (some 0) r.1).0 ≡ get_ends (fate_result fate))
  unfolding met Future.get_shared outcome
  set_once (sets w) (sets v) = (refl, refl)
  set_once (fails e) (sets v) = (refl, refl)
  set_once drops (sets v) = (refl, refl)
  set_once (sets w) (fails v) = (refl, refl)
  set_once (fails e) (fails v) = (refl, refl)
  set_once drops (fails v) = (refl, refl)
  set_once (sets w) drops = (refl, refl)
  set_once (fails e) drops = (refl, refl)
  set_once drops drops = (refl, refl)
