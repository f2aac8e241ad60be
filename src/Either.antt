-- ===== src/Either.antt =====
-- bits/either.h: `either<monostate, T...>`, an index and storage for one object.
pub mod Content
mod Tests
use portable_concurrency.Prelude.{
  ℕ, zero, suc, ◌==◌, if◌then◌else◌, Option, none, some, Bool, true, false,
}
use portable_concurrency.Store.{
  Code, pure, fault, done, thrown, undefined, ◌>>=◌, ◌>>◌, Ends, Result, ok, err,
}

-- The object that is alive in `storage_`, with the number of its type, and how many have been
-- constructed and destroyed there.
pub record Either (A : Type 0) : Type 0 where
  pub state : ℕ
  pub storage : Option (ℕ × A)
  pub created : ℕ
  pub destroyed : ℕ

-- What a visitor is called with. `invalid` is a reference to an object that is not there.
pub data Visited (A : Type 0) : Type 0 where
  monostate : Visited A
  object : ℕ → A → Visited A
  invalid : Visited A

module _ {A : Type 0} where
  abbrev pub cast_to : ℕ → Option (ℕ × A) → Visited A
  cast_to i none = invalid
  cast_to i (some (j, v)) = if i == j then object i v else invalid

  unfoldable pub visit_backward : ℕ → Either A → Visited A
  visit_backward zero e = monostate
  visit_backward (suc i) e =
      let rest = visit_backward i e in if e.state == suc i then cast_to (suc i) e.storage else rest

  -- `visit(destroy{})`, and the reset of `state_`.
  abbrev pub destroy_visited : Visited A → Code (Either A) (Unit {0})
  destroy_visited monostate e = (done tt, record e { state = 0 })
  destroy_visited (object i v) e =
      (done tt, record e { state = 0; storage = none; destroyed = suc e.destroyed })
  destroy_visited invalid e = (undefined, e)

  -- `n` is `sizeof...(T)`.
  unfoldable pub clean : ℕ → Code (Either A) (Unit {0})
  clean n e = destroy_visited (visit_backward n e) e

  -- Placement new, whose constructor may throw, and then the new `state_`.
  abbrev pub construct : ℕ → Result A → Code (Either A) (Unit {0})
  construct i (ok v) e =
      (done tt, record e { state = i; storage = some (i, v); created = suc e.created })
  construct i (err x) e = (thrown x, e)

  unfoldable pub emplace : ℕ → ℕ → Result A → Code (Either A) (Unit {0})
  emplace n i r = do clean n; construct i r

  -- Two objects, the target and the source of a move.
  abbrev pub in_target : Code (Either A) (Unit {0}) → Code (Either A × Either A) (Unit {0})
  in_target f (d, s) = ((f d).0, ((f d).1, s))

  abbrev pub in_source : Code (Either A) (Unit {0}) → Code (Either A × Either A) (Unit {0})
  in_source f (d, s) = ((f s).0, (d, (f s).1))

  -- `std::move(reinterpret_cast<T &>(src.storage_))` leaves `moved v` in place of `v`.
  abbrev pub move_object : (A → A) → ℕ → ℕ → Visited A → Code (Either A × Either A) (Unit {0})
  move_object moved n i (object j v) (d, s) =
      in_target (emplace n i (ok v)) (d, record s { storage = some (j, moved v) })
  move_object moved n i _ st = (undefined, st)

  -- An element of the list in `move_from`.
  abbrev pub move_turn : (A → A) → ℕ → ℕ → Code (Either A × Either A) (Unit {0})
  move_turn moved n i (d, s) =
      if s.state == i then move_object moved n i (cast_to i s.storage) (d, s) else (done tt, (d, s))

  pub move_turns : (A → A) → ℕ → ℕ → Code (Either A × Either A) (Unit {0})
  move_turns moved n zero = pure tt
  move_turns moved n (suc i) = do move_turns moved n i; move_turn moved n (suc i)

  pub move_from : (A → A) → ℕ → Code (Either A × Either A) (Unit {0})
  move_from moved n = do move_turns moved n n; in_source (clean n)

  -- `operator=(either &&)` between two different objects.
  pub move_assign : (A → A) → ℕ → Code (Either A × Either A) (Unit {0})
  move_assign moved n = do in_target (clean n); move_from moved n
