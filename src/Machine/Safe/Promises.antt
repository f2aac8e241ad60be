-- ===== src/Machine/Safe/Promises.antt =====
-- What the functions of bits/promise.h use.
use portable_concurrency.Prelude.{ℕ, ◌+◌, ◌≤◌, ◌≡◌, refl, Option, none, some, [], ◌∷◌, arith}
use portable_concurrency.Store.{Code, pure, ◌>>=◌, ◌>>◌, Error, Frame, release, Store}
use portable_concurrency.Owners.{begin, share, lock, make_shared}
use portable_concurrency.SharedState.{emplace}
use portable_concurrency.SharedState
use portable_concurrency.Promise.{Promise, promise_parts, with_state, get_state}
use portable_concurrency.Promise
use portable_concurrency.Machine.Owned.Refs.{pointer, option_refs, owners}
use portable_concurrency.Machine.Owned.Promises.{promise_refs}
use portable_concurrency.Machine.Safe.Ends.{
  Intact, Good, frame_parent, same-Grown, then-Good, bind-Good, pure-Good, begin-Grown,
}
use portable_concurrency.Machine.Safe.Operations.{
  share-Good, lock-Good, make_shared-Good, emplace-Good, set_exception-Good, abandon-Good,
}

module _ {V : Type 0} (v : ℕ) where
  -- A pointer that is copied.
  pub shared-Good :
      {A : Type 0} (p : ℕ) (uses : A → ℕ) (a : A) (s : Store V)
      → Intact v s
      → pointer v p ≤ owners v s
      → uses a ≡ pointer v p
      → Good v s uses ((share p >>= λ _. pure a) s)
  shared-Good p uses a s h u e =
      bind-Good v s (λ _. pointer v p) uses (share p) (λ _. pure a) (share-Good v p s h u)
        (λ _ t g k. pure-Good v t uses a g.low (omega (arith, e, k)))

  get_state-Good :
      (r : Promise) (s : Store V)
      → Intact v s
      → promise_refs v r ≤ owners v s
      → Good v s (option_refs v) (get_state r s)
  unfolding get_state
  get_state-Good Promise.empty s h u = tt
  get_state-Good (Promise.owning p) s h u = shared-Good p (option_refs v) (some p) s h u refl
  get_state-Good (Promise.awaited p) s h u = lock-Good v p s h

  with_state-Good :
      (o : Option ℕ) (f : ℕ → Code (Store V) (Unit {0}))
      → ((p : ℕ) (s : Store V) → Intact v s → pointer v p ≤ owners v s → Good v s (λ _. 0) (f p s))
      → (s : Store V) → Intact v s
      → option_refs v o ≤ owners v s
      → Good v s (λ _. 0) (with_state o f s)
  with_state-Good none f c s h u = (same-Grown v s h, omega arith)
  with_state-Good (some p) f c s h u =
      let g = begin-Grown v s (release p ∷ []) h in
      then-Good v s _ (λ _. 0) _ g
        (c p (begin (release p ∷ []) s).1 g.low (omega (arith, u, g.grown)))

  pub set_value-Good :
      (r : Promise) (x : V) (s : Store V)
      → Intact v s
      → promise_refs v r ≤ owners v s
      → Good v s (λ _. 0) (Promise.set_value r x s)
  unfolding Promise.set_value
  set_value-Good r x s h u =
      bind-Good v s (option_refs v) (λ _. 0) (get_state r) _ (get_state-Good r s h u)
        (λ o t g k. with_state-Good o (λ p. emplace p x) (λ p. emplace-Good v p x) t g.low k)

  pub promise_exception-Good :
      (r : Promise) (e : Error) (s : Store V)
      → Intact v s
      → promise_refs v r ≤ owners v s
      → Good v s (λ _. 0) (Promise.set_exception r e s)
  unfolding Promise.set_exception
  promise_exception-Good r e s h u =
      bind-Good v s (option_refs v) (λ _. 0) (get_state r) _ (get_state-Good r s h u)
        (λ o t g k.
          with_state-Good o (λ p. SharedState.set_exception p e) (λ p. set_exception-Good v p e) t
            g.low k)

  -- A pointer that is copied, and one that is released later.
  pub handed-Good :
      {A : Type 0} (p : ℕ) (uses : A → ℕ) (a : A) (s : Store V)
      → Intact v s
      → pointer v p ≤ owners v s
      → uses a ≡ pointer v p
      → Good v s uses ((share p >>= λ _. begin (release p ∷ []) >> pure a) s)
  handed-Good p uses a s h u e =
      bind-Good v s (λ _. pointer v p) uses (share p) (λ _. begin (release p ∷ []) >> pure a)
        (share-Good v p s h u)
        (λ _ t g k. (begin-Grown v t (release p ∷ []) g.low, omega (arith, e, k)))

  pub get_future-Good :
      (r : Promise) (s : Store V)
      → Intact v s
      → promise_refs v r ≤ owners v s
      → Good v s (λ y. pointer v y.0 + promise_refs v y.1) (Promise.get_future r s)
  unfolding Promise.get_future
  get_future-Good Promise.empty s h u = tt
  get_future-Good (Promise.awaited p) s h u = tt
  get_future-Good (Promise.owning p) s h u =
      handed-Good p (λ y. pointer v y.0 + promise_refs v y.1) (p, Promise.awaited p) s h u
        (omega arith)

  promise_abandon-Good :
      (r : Promise) (s : Store V) → Intact v s → Good v s (λ _. 0) (Promise.abandon r s)
  unfolding Promise.abandon
  promise_abandon-Good Promise.empty s h = (same-Grown v s h, omega arith)
  promise_abandon-Good (Promise.owning p) s h = (same-Grown v s h, omega arith)
  promise_abandon-Good (Promise.awaited p) s h =
      bind-Good v s (option_refs v) (λ _. 0) (lock p) _ (lock-Good v p s h)
        (λ o t g k. with_state-Good o SharedState.abandon (abandon-Good v) t g.low k)

  pub destroy-Good :
      (r : Promise) (s : Store V) → Intact v s → Good v s (λ _. 0) (Promise.destroy r s)
  unfolding Promise.destroy
  destroy-Good r s h =
      let g = begin-Grown v s (promise_parts r) h in
      then-Good v s _ (λ _. 0) _ g (promise_abandon-Good r (begin (promise_parts r) s).1 g.low)

  pub assign-Good :
      (r q : Promise) (s : Store V) → Intact v s → Good v s (λ _. 0) (Promise.assign r q s)
  unfolding Promise.assign
  assign-Good r q s h =
      let g = begin-Grown v s (promise_parts r) h in
      then-Good v s _ (λ _. 0) _ g
        (bind-Good v _ (λ _. 0) (λ _. 0) (Promise.abandon r) (λ _. pure (q, Promise.empty))
          (promise_abandon-Good r (begin (promise_parts r) s).1 g.low)
          (λ _ t k i. (same-Grown v t k.low, omega arith)))

  -- The state that is made has an owner.
  pub made-Good :
      {A : Type 0} (f : Frame V) (g : ℕ → A) (uses : A → ℕ) (s : Store V)
      → Intact v s
      → frame_parent v f ≤ owners v s
      → ((p : ℕ) → uses (g p) ≤ pointer v p)
      → Good v s uses ((make_shared f >>= λ p. pure (g p)) s)
  made-Good f g uses s h l e =
      bind-Good v s (pointer v) uses (make_shared f) (λ p. pure (g p)) (make_shared-Good v f s h l)
        (λ p t k i. (same-Grown v t k.low, omega (arith, e p, i)))
