-- ===== src/ClosableQueue/Contents.antt =====
-- What each function of the queue does to its items and to `closed_`.
use portable_concurrency.Prelude.{
  ℕ, ◌≡◌, refl, sym, zero, suc, true, List, [], ◌∷◌, ◌++◌, if◌then◌else◌, arith,
}
use portable_concurrency.ClosableQueue.{
  Queue, Popped, gives, fails, push, pop, resume_pop, take, resume_with,
}

module _ {ℓ} {A : Type ℓ} where
  abbrev pub given : Popped A → List A
  given (gives v) = v ∷ []
  given _ = []

  -- A result of `pop`: what it gives was the oldest item, and it fails when the queue is closed and
  -- has none.
  pub record IsTake (q q' : Queue A) (x : Popped A) : Type ℓ where
    pub items : given x ++ q'.items ≡ q.items
    pub closed : q'.closed ≡ q.closed
    pub failed : x ≡ fails → (q.closed ≡ true) × (q.items ≡ [])

  take-IsTake : (q : Queue A) (vs : List A) → q.items ≡ vs → IsTake q (take q vs).0 (take q vs).1
  take-IsTake q [] e = record {
    items = ground (arith, e);
    closed = ground arith;
    failed = λ f. ground (arith, e, f);
  }
  take-IsTake q (v ∷ vs) e = record { items = sym e; closed = refl; failed = λ f. absurd (cc) }

  pub pop-IsTake : (q : Queue A) → IsTake q (pop q).0 (pop q).1
  unfolding pop
  pop-IsTake q = take-IsTake q q.items refl

  woken-IsTake :
      (q : Queue A) (n : ℕ) → q.woken ≡ n → IsTake q (resume_with q n).0 (resume_with q n).1
  woken-IsTake q zero e = record { items = refl; closed = refl; failed = λ f. absurd (cc) }
  woken-IsTake q (suc k) e =
      let t = pop-IsTake (record q { woken = k }) in
      record { items = t.items; closed = t.closed; failed = t.failed }

  pub resume_pop-IsTake : (q : Queue A) → IsTake q (resume_pop q).0 (resume_pop q).1
  unfolding resume_pop
  resume_pop-IsTake q = woken-IsTake q q.woken refl

  pub push-items :
      (v : A) (q : Queue A) → (push v q).items ≡ (if q.closed then q.items else q.items ++ v ∷ [])
  unfolding push
  push-items v q = ground arith

  pub push-closed : (v : A) (q : Queue A) → (push v q).closed ≡ q.closed
  unfolding push
  push-closed v q = ground arith
