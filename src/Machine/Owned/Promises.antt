-- ===== src/Machine/Owned/Promises.antt =====
-- What the functions of bits/promise.h do with pointers.
use portable_concurrency.Prelude.{ℕ, ◌+◌, ◌≡◌, refl, Option, none, some, [], ◌∷◌, arith}
use portable_concurrency.Store.{Code, pure, ◌>>=◌, ◌>>◌, Error, Frame, release, Store}
use portable_concurrency.Owners.{begin, share, lock, make_shared}
use portable_concurrency.SharedState.{emplace}
use portable_concurrency.SharedState
use portable_concurrency.Promise.{Promise, promise_parts, with_state, get_state}
use portable_concurrency.Promise
use portable_concurrency.Machine.Once.Tokens.{sum}
use portable_concurrency.Machine.Owned.Refs.{pointer, option_refs, frame_refs, job_refs, Backed}
use portable_concurrency.Machine.Owned.Moves.{
  Moves, nothing-Kept, bind-Moves, pure-Moves, make-Kept,
}
use portable_concurrency.Machine.Owned.Operations.{
  begin-Moves, share-Moves, lock-Moves, emplace-Moves, set_exception-Moves, abandon-Moves,
}
use portable_concurrency.Machine.Owned.Blocks.{begin_then, shared-Moves}

abbrev pub promise_refs : ℕ → Promise → ℕ
promise_refs v (Promise.owning p) = pointer v p
promise_refs v _ = 0

module _ (V : Type 0) (v : ℕ) where
  promise_parts-refs : (r : Promise) → sum (job_refs {V = V} v) (promise_parts r) ≡ promise_refs v r
  promise_parts-refs Promise.empty = refl
  promise_parts-refs (Promise.awaited p) = refl
  promise_parts-refs (Promise.owning p) = omega arith

  promise_parts-Backed : (r : Promise) → Backed {V = V} v (promise_parts r)
  promise_parts-Backed Promise.empty = tt
  promise_parts-Backed (Promise.awaited p) = tt
  promise_parts-Backed (Promise.owning p) = ground arith

module _ {V : Type 0} (v : ℕ) where
  get_state-Moves : (r : Promise) → Moves v 0 (option_refs v) (get_state {V = V} r)
  unfolding get_state
  get_state-Moves Promise.empty s h n = nothing-Kept v 0 s h n
  get_state-Moves (Promise.owning p) s h n = shared-Moves v p (option_refs v) (some p) refl s h n
  get_state-Moves (Promise.awaited p) s h n = lock-Moves v p s h n

  with_state-Moves :
      (o : Option ℕ) (f : ℕ → Code (Store V) (Unit {0}))
      → ((p : ℕ) → Moves v 0 (λ _. 0) (f p))
      → Moves v (option_refs v o) (λ _. 0) (with_state o f)
  with_state-Moves none f c s h n = nothing-Kept v 0 s h n
  with_state-Moves (some p) f c s h n =
      begin_then v (release p ∷ []) (pointer v p) (λ _. 0) (f p) (ground arith) (omega arith) (c p)
        s h n

  pub set_value-Moves : (r : Promise) (x : V) → Moves v 0 (λ _. 0) (Promise.set_value r x)
  unfolding Promise.set_value
  set_value-Moves r x =
      bind-Moves v 0 (option_refs v) (λ _. 0) (get_state r) (λ o. with_state o (λ p. emplace p x))
        (get_state-Moves r) (λ o. with_state-Moves o (λ p. emplace p x) (λ p. emplace-Moves v p x))

  pub promise_exception-Moves :
      (r : Promise) (e : Error) → Moves v 0 (λ _. 0) (Promise.set_exception {V = V} r e)
  unfolding Promise.set_exception
  promise_exception-Moves r e =
      bind-Moves v 0 (option_refs v) (λ _. 0) (get_state r)
        (λ o. with_state o (λ p. SharedState.set_exception p e)) (get_state-Moves r)
        (λ o.
          with_state-Moves o (λ p. SharedState.set_exception p e) (λ p. set_exception-Moves v p e))

  -- A pointer in hand that is copied and then released.
  pub handed-Moves :
      {A : Type 0} (p : ℕ) (out : A → ℕ) (a : A)
      → out a ≡ pointer v p
      → Moves v (pointer v p) out (share {V = V} p >>= λ _. begin (release p ∷ []) >> pure a)
  handed-Moves p out a e =
      bind-Moves v (pointer v p) (λ _. pointer v p + pointer v p) out (share p)
        (λ _. begin (release p ∷ []) >> pure a)
        (share-Moves v p (pointer v p) (pointer v p + pointer v p) refl)
        (λ _.
          bind-Moves v (pointer v p + pointer v p) (λ _. pointer v p) out (begin (release p ∷ []))
            (λ _. pure a)
            (begin-Moves v (release p ∷ []) (pointer v p + pointer v p) (pointer v p) (ground arith)
              (omega arith))
            (λ _. pure-Moves v (pointer v p) out a (omega (arith, e))))

  pub get_future-Moves :
      (r : Promise)
      → Moves v
          (promise_refs v r)
          (λ y. pointer v y.0 + promise_refs v y.1)
          (Promise.get_future {V = V} r)
  unfolding Promise.get_future
  get_future-Moves Promise.empty s h n = nothing-Kept v 0 s h n
  get_future-Moves (Promise.awaited p) s h n = nothing-Kept v 0 s h n
  get_future-Moves (Promise.owning p) s h n =
      handed-Moves p (λ y. pointer v y.0 + promise_refs v y.1) (p, Promise.awaited p) (omega arith)
        s h n

  promise_abandon-Moves : (r : Promise) → Moves v 0 (λ _. 0) (Promise.abandon {V = V} r)
  unfolding Promise.abandon
  promise_abandon-Moves Promise.empty s h n = nothing-Kept v 0 s h n
  promise_abandon-Moves (Promise.owning p) s h n = nothing-Kept v 0 s h n
  promise_abandon-Moves (Promise.awaited p) s h n =
      bind-Moves v 0 (option_refs v) (λ _. 0) (lock p) (λ o. with_state o SharedState.abandon)
        (lock-Moves v p) (λ o. with_state-Moves o SharedState.abandon (abandon-Moves v)) s h n

  pub destroy-Moves :
      (r : Promise) → Moves v (promise_refs v r) (λ _. 0) (Promise.destroy {V = V} r)
  unfolding Promise.destroy
  destroy-Moves r =
      begin_then v (promise_parts r) (promise_refs v r) (λ _. 0) (Promise.abandon r)
        (promise_parts-Backed V v r) (promise_parts-refs V v r) (promise_abandon-Moves r)

  pub assign-Moves :
      (r q : Promise) → Moves v (promise_refs v r) (λ _. 0) (Promise.assign {V = V} r q)
  unfolding Promise.assign
  assign-Moves r q =
      begin_then v (promise_parts r) (promise_refs v r) (λ _. 0)
        (Promise.abandon r >> pure (q, Promise.empty)) (promise_parts-Backed V v r)
        (promise_parts-refs V v r)
        (bind-Moves v 0 (λ _. 0) (λ _. 0) (Promise.abandon r) (λ _. pure (q, Promise.empty))
          (promise_abandon-Moves r)
          (λ _. pure-Moves v {A = Promise × Promise} 0 (λ _. 0) (q, Promise.empty) refl))

  -- A state that is made owns nothing but what its frame does, and has one owner.
  pub made-Moves :
      {A : Type 0} (f : Frame V) (g : ℕ → A) (out : A → ℕ)
      → ((p : ℕ) → out (g p) ≡ pointer v p)
      → Moves v (frame_refs v f) out (make_shared f >>= λ p. pure (g p))
  unfolding make_shared
  made-Moves f g out e s h n =
      make-Kept v f s (frame_refs v f) (out (g s.fresh)) h n (omega (arith, e s.fresh))

  pub make_promise-Moves :
      (f : Frame V)
      → Moves v (frame_refs v f) (λ y. promise_refs v y.0 + pointer v y.1) (Promise.make_promise f)
  unfolding Promise.make_promise
  make_promise-Moves f =
      made-Moves f (λ p. (Promise.awaited p, p)) (λ y. promise_refs v y.0 + pointer v y.1)
        (λ p. omega arith)

  pub make-Moves : (f : Frame V) → Moves v (frame_refs v f) (promise_refs v) (Promise.make f)
  unfolding Promise.make
  make-Moves f = made-Moves f Promise.owning (promise_refs v) (λ p. refl)
