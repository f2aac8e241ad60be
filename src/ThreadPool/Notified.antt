-- ===== src/ThreadPool/Notified.antt =====
-- The wake-ups of the threads in `attach` that wait for `attached_threads_` to be zero.
use portable_concurrency.Prelude.{
  ℕ, zero, suc, ◌-◌, ◌≡◌, ◌≢◌, ◌⊎◌, inl, inr, refl, ap, ◌∙◌, Bool, true, false, if◌then◌else◌,
  update, update-here, update-there, ℕ_discrete, arith,
}
use portable_concurrency.ClosableQueue.{Queue, Popped, waits, gives, fails, pop, resume_pop}
use portable_concurrency.ThreadPool.{
  Pool, Worker, outside, checking, popping, asleep, running, leaving, parked, awake, notifying,
  returned, work, after_pop, attach_step, post_task, close_queue, begin_stop, test_attached,
  begin_wait, join_thread, wake_thread, woken,
}
use portable_concurrency.ThreadPool.System.{
  Reach, start, attaches, posts, closes, begins_wait, joins, rouses, stops, wakes,
}

module _ {ℓ} {A : Type ℓ} where
  -- A thread is about to notify, or none sleeps on `cv_`.
  abbrev Roused : (ℕ → Worker A) → Type ℓ
  Roused f = ((j : ℕ) × (f j ≡ notifying)) ⊎ ((j : ℕ) → f j ≢ parked)

  abbrev RousedAtZero : Pool A → Type ℓ
  RousedAtZero s = s.attached ≡ 0 → Roused s.workers

  update-Roused :
      (f : ℕ → Worker A) (i : ℕ) (w : Worker A)
      → f i ≢ notifying
      → w ≢ parked
      → Roused f
      → Roused (update f i w)
  update-Roused f i w n p (inl (j, e)) = inl (j, update-there f i w j (λ d. n (ap f d ∙ e)) ∙ e)
  update-Roused f i w n p (inr h) = inr (λ j. elim (ℕ_discrete i j) [
    | yes here ↦ rw (update-here f i w j here) p
    | no other ↦ rw (update-there f i w j other) (h j)
  ])

  after_pop-Roused :
      (s : Pool A) (i : ℕ) (r : Queue A × Popped A)
      → s.workers i ≢ notifying
      → RousedAtZero s
      → RousedAtZero (after_pop s i r)
  after_pop-Roused s i (q, waits) n h z =
      update-Roused s.workers i asleep n (λ e. absurd (cc (e))) (h z)
  after_pop-Roused s i (q, gives t) n h z =
      update-Roused s.workers i (running t) n (λ e. absurd (cc (e))) (h z)
  after_pop-Roused s i (q, fails) n h z =
      update-Roused s.workers i leaving n (λ e. absurd (cc (e))) (h z)

  abbrev the_parked : Worker A
  the_parked = parked

  test_stopped-not_parked : (b : Bool) → (if b then leaving else popping) ≢ the_parked
  test_stopped-not_parked true e = absurd (cc (e))
  test_stopped-not_parked false e = absurd (cc (e))

  -- The thread that finds zero is the one that notifies.
  test_attached-Roused :
      (s : Pool A) (i k : ℕ) → RousedAtZero (test_attached (record s { attached = k }) i k)
  test_attached-Roused s i zero z = inl (i, update-here s.workers i notifying i refl)
  test_attached-Roused s i (suc k) z = absurd (omega (arith, z))

  woken-not_parked : (w : Worker A) → woken w ≢ parked
  woken-not_parked outside e = absurd (cc (e))
  woken-not_parked checking e = absurd (cc (e))
  woken-not_parked popping e = absurd (cc (e))
  woken-not_parked asleep e = absurd (cc (e))
  woken-not_parked (running t) e = absurd (cc (e))
  woken-not_parked leaving e = absurd (cc (e))
  woken-not_parked parked e = absurd (cc (e))
  woken-not_parked awake e = absurd (cc (e))
  woken-not_parked notifying e = absurd (cc (e))
  woken-not_parked returned e = absurd (cc (e))

  work-Roused :
      (s : Pool A) (i : ℕ) (w : Worker A)
      → s.workers i ≡ w
      → RousedAtZero s
      → RousedAtZero (work s i w)
  work-Roused s i outside e h z = absurd (omega (arith, z))
  work-Roused s i checking e h z =
      update-Roused s.workers i (if s.stopped then leaving else popping) (λ f. absurd (cc (e, f)))
        (test_stopped-not_parked s.stopped) (h z)
  work-Roused s i popping e h z = after_pop-Roused s i (pop s.queue) (λ f. absurd (cc (e, f))) h z
  work-Roused s i asleep e h z =
      after_pop-Roused s i (resume_pop s.queue) (λ f. absurd (cc (e, f))) h z
  work-Roused s i (running t) e h z =
      update-Roused s.workers i checking (λ f. absurd (cc (e, f))) (λ f. absurd (cc (f))) (h z)
  work-Roused s i leaving e h z = test_attached-Roused s i (s.attached - 1) z
  work-Roused s i parked e h z = h z
  work-Roused s i awake e h z = test_attached-Roused s i s.attached z
  work-Roused s i notifying e h z = inr (λ j. elim (ℕ_discrete i j) [
    | yes here ↦
        rw (update-here (λ k. woken (s.workers k)) i returned j here) (λ f. absurd (cc (f)))
    | no other ↦
        rw (update-there (λ k. woken (s.workers k)) i returned j other)
          (woken-not_parked (s.workers j))
  ])
  work-Roused s i returned e h z = h z

  wake-Roused :
      (s : Pool A) (i : ℕ) → Roused s.workers → Roused (update s.workers i (woken (s.workers i)))
  wake-Roused s i (inl (j, e)) = inl (j, ground (arith, e))
  wake-Roused s i (inr h) = inr (λ j. elim (ℕ_discrete i j) [
    | yes here ↦
        rw (update-here s.workers i (woken (s.workers i)) j here) (woken-not_parked (s.workers i))
    | no other ↦ rw (update-there s.workers i (woken (s.workers i)) j other) (h j)
  ])

  join_thread-same :
      (s : Pool A) → ((join_thread s).workers ≡ s.workers) × ((join_thread s).attached ≡ s.attached)
  unfolding join_thread
  join_thread-same s = ground arith

  Reach-Roused : {s : Pool A} → Reach s → RousedAtZero s
  unfolding attach_step close_queue post_task begin_stop begin_wait wake_thread
  Reach-Roused (start n) = λ z. inr (λ j e. absurd (cc (e)))
  Reach-Roused (attaches {s} i r) = work-Roused s i (s.workers i) refl (Reach-Roused r)
  Reach-Roused (posts {s} t r) = Reach-Roused r
  Reach-Roused (closes {s} r) = Reach-Roused r
  Reach-Roused (begins_wait {s} r) = Reach-Roused r
  Reach-Roused (joins {s} r) = let e = join_thread-same s in rw (e.0, e.1) (Reach-Roused r)
  Reach-Roused (rouses {s} i r) = λ z. wake-Roused s i (Reach-Roused r z)
  Reach-Roused (stops {s} r) = Reach-Roused r
  Reach-Roused (wakes {s} r) = Reach-Roused r

  -- No wake-up of `attach` is lost: when no thread is attached any more, one of them is about to
  -- notify the others, or none sleeps on the condition variable of the pool.
  pub zero_roused :
      {s : Pool A}
      → Reach s
      → s.attached ≡ 0
      → ((j : ℕ) × (s.workers j ≡ notifying)) ⊎ ((j : ℕ) → s.workers j ≢ parked)
  zero_roused r z = Reach-Roused r z
