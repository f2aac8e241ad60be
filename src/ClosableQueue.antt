-- ===== src/ClosableQueue.antt =====
-- bits/closable_queue.h and bits/closable_queue.hpp: a queue under a mutex. Each function is what
-- happens while the mutex is held; a call of `pop` that waits on `cv_` gives it up.
pub mod Contents
pub mod Wakeups
use portable_concurrency.Prelude.{
  ℕ, zero, suc, ◌+◌, ◌-◌, Bool, true, false, not, ◌&&◌, ◌||◌, if◌then◌else◌, List, [], ◌∷◌, ◌++◌,
}

-- `sleeping` calls of `pop` wait on `cv_`; `woken` ones are notified and have not locked the mutex
-- again yet.
pub record Queue {ℓ} (A : Type ℓ) : Type ℓ where
  pub items : List A
  pub closed : Bool
  pub sleeping : ℕ
  pub woken : ℕ

-- What `pop` comes to: it waits, or returns true with an item, or returns false.
pub data Popped {ℓ} (A : Type ℓ) : Type ℓ where
  waits : Popped A
  gives : A → Popped A
  fails : Popped A

module _ {ℓ} {A : Type ℓ} where
  abbrev pub notify_one : Queue A → Queue A
  notify_one q = elim q.sleeping [
    | zero ↦ q
    | suc k ↦ record q { sleeping = k; woken = suc q.woken }
  ]

  abbrev pub notify_all : Queue A → Queue A
  notify_all q = record q { sleeping = 0; woken = q.woken + q.sleeping }

  unfoldable pub push : A → Queue A → Queue A
  push v q = if q.closed then q else notify_one (record q { items = q.items ++ v ∷ [] })

  unfoldable pub close : Queue A → Queue A
  close q = notify_all (record q { closed = true })

  -- From the test of `cv_.wait` on: with no item, the test is `closed_`, and so is what returns
  -- false.
  abbrev pub take : Queue A → List A → Queue A × Popped A
  take q [] = if q.closed then (q, fails) else (record q { sleeping = suc q.sleeping }, waits)
  take q (v ∷ rest) = (record q { items = rest }, gives v)

  unfoldable pub pop : Queue A → Queue A × Popped A
  pop q = take q q.items

  -- A notified call has locked the mutex again. With none there is nothing to do.
  abbrev pub resume_with : Queue A → ℕ → Queue A × Popped A
  resume_with q zero = (q, waits)
  resume_with q (suc k) = pop (record q { woken = k })

  unfoldable pub resume_pop : Queue A → Queue A × Popped A
  resume_pop q = resume_with q q.woken

  -- The standard allows `cv_.wait` to wake with no notification.
  unfoldable pub wake_spuriously : Queue A → Queue A
  wake_spuriously q = notify_one q
