-- ===== src/ClosableQueue/Wakeups.antt =====
-- No wake-up is lost: while an item is there, some call that was asleep is on its way to it.
use portable_concurrency.Prelude.{
  ◌≤◌, ◌≡◌, refl, ◌⊎◌, inl, false, [], ◌∷◌, length, length-append, arith,
}
use portable_concurrency.ClosableQueue.{Queue, push, close, pop, resume_pop, wake_spuriously}

module _ {ℓ} {A : Type ℓ} where
  -- Nobody sleeps, or the queue is open and each item has a woken call.
  abbrev pub IsServed : Queue A → Type 0
  IsServed q = (q.sleeping ≡ 0) ⊎ ((q.closed ≡ false) × (length q.items ≤ q.woken))

  pub push-IsServed : (v : A) (q : Queue A) → IsServed q → IsServed (push v q)
  unfolding push
  push-IsServed v q h = ground (arith, length-append q.items (v ∷ []), h)

  pub close-IsServed : (q : Queue A) → IsServed (close q)
  unfolding close
  close-IsServed q = inl refl

  pub pop-IsServed : (q : Queue A) → IsServed q → IsServed (pop q).0
  unfolding pop
  pop-IsServed q h = ground (arith, h)

  pub resume_pop-IsServed : (q : Queue A) → IsServed q → IsServed (resume_pop q).0
  unfolding resume_pop pop
  resume_pop-IsServed q h = ground (arith, h)

  pub wake_spuriously-IsServed : (q : Queue A) → IsServed q → IsServed (wake_spuriously q)
  unfolding wake_spuriously
  wake_spuriously-IsServed q h = ground (arith, h)
