-- ===== src/ThreadPool/Attached.antt =====
-- What `attached_threads_` counts, and the wake-ups of those that wait for it to be zero.
use portable_concurrency.Prelude.{
  ℕ, zero, suc, ◌-◌, ◌+◌, ◌≡◌, ◌≤◌, refl, sym, ap, ◌∙◌, Bool, true, false, if◌then◌else◌, one_if,
  count, count-update, count-none, count-all_false, ℕ_discrete, arith,
}
use portable_concurrency.ClosableQueue.{Queue, Popped, waits, gives, fails, pop, resume_pop}
use portable_concurrency.ThreadPool.{
  Pool, Worker, outside, checking, popping, asleep, running, leaving, parked, awake, notifying,
  returned, work, after_pop, attach_step, post_task, close_queue, begin_stop, test_attached, moved,
  begin_wait, join_thread, wake_thread, woken, notify_all,
}
use portable_concurrency.ThreadPool.System.{
  Reach, start, attaches, posts, closes, begins_wait, joins, rouses, stops, wakes,
}

module _ {ℓ} {A : Type ℓ} where
  -- Between the increment and the decrement.
  abbrev pub is_attached : Worker A → Bool
  is_attached outside = false
  is_attached parked = false
  is_attached awake = false
  is_attached notifying = false
  is_attached returned = false
  is_attached _ = true

  -- All threads but the first `n` are outside.
  abbrev Counted : ℕ → Pool A → Type 0
  Counted n s = (m : ℕ) → n ≤ m → count is_attached m s.workers ≡ s.attached

  moved-Counted :
      (n : ℕ) (s : Pool A) (i k : ℕ) (w : Worker A)
      → Counted n s
      → k + one_if (is_attached (s.workers i)) ≡ s.attached + one_if (is_attached w)
      → Counted (n + suc i) (moved (record s { attached = k }) i w)
  moved-Counted n s i k w h e m l = omega (
    arith,
    count-update is_attached m s.workers i w (omega (arith, l)),
    h m (omega (arith, l)),
    e,
  )

  count-same :
      (n : ℕ) (f g : ℕ → Worker A)
      → ((i : ℕ) → is_attached (f i) ≡ is_attached (g i))
      → count is_attached n f ≡ count is_attached n g
  count-same zero f g h = refl
  count-same (suc n) f g h = omega (arith, ap one_if (h n), count-same n f g h)

  is_attached-woken : (w : Worker A) → is_attached (woken w) ≡ is_attached w
  is_attached-woken w = ground arith

  notify_all-Counted : (n : ℕ) (s : Pool A) → Counted n s → Counted n (notify_all s)
  notify_all-Counted n s h m l =
      count-same m (λ j. woken (s.workers j)) s.workers (λ j. is_attached-woken (s.workers j))
      ∙ h m l

  raised : (n k : ℕ) (s : Pool A) → Counted n s → Counted (n + k) s
  raised n k s h m l = h m (omega (arith, l))

  -- A thread that is attached is counted.
  attached-Counted :
      (n : ℕ) (s : Pool A) (i : ℕ) → Counted n s → is_attached (s.workers i) ≡ true → 1 ≤ s.attached
  attached-Counted n s i h e = elim (ℕ_discrete s.attached 0) [
    | yes z ↦ absurd (
        cc (
          e,
          count-none is_attached (n + suc i) s.workers (h (n + suc i) (omega arith) ∙ z) i
              (omega arith),
        ))
    | no d ↦ omega (arith, d)
  ]

  after_pop-Counted :
      (n : ℕ) (s : Pool A) (i : ℕ) (r : Queue A × Popped A)
      → is_attached (s.workers i) ≡ true
      → Counted n s
      → Counted (n + suc i) (after_pop s i r)
  after_pop-Counted n s i (q, waits) e h =
      moved-Counted n s i s.attached asleep h (ap (λ b. s.attached + one_if b) e)
  after_pop-Counted n s i (q, gives t) e h =
      moved-Counted n s i s.attached (running t) h (ap (λ b. s.attached + one_if b) e)
  after_pop-Counted n s i (q, fails) e h =
      moved-Counted n s i s.attached leaving h (ap (λ b. s.attached + one_if b) e)

  test_attached-Counted :
      (n : ℕ) (s : Pool A) (i k : ℕ) (j : ℕ)
      → Counted n s
      → k + one_if (is_attached (s.workers i)) ≡ s.attached
      → Counted (n + suc i) (test_attached (record s { attached = k }) i j)
  test_attached-Counted n s i k zero h e = moved-Counted n s i k notifying h (omega (arith, e))
  test_attached-Counted n s i k (suc j) h e = moved-Counted n s i k parked h (omega (arith, e))

  work-Counted :
      (n : ℕ) (s : Pool A) (i : ℕ) (w : Worker A)
      → s.workers i ≡ w
      → Counted n s
      → Counted (n + suc i) (work s i w)
  work-Counted n s i outside e h =
      moved-Counted n s i (suc s.attached) checking h
        (omega (arith, ap (λ x. one_if (is_attached x)) e))
  work-Counted n s i checking e h =
      moved-Counted n s i s.attached (if s.stopped then leaving else popping) h
        (ground (arith, ap is_attached e))
  work-Counted n s i popping e h = after_pop-Counted n s i (pop s.queue) (ap is_attached e) h
  work-Counted n s i asleep e h = after_pop-Counted n s i (resume_pop s.queue) (ap is_attached e) h
  work-Counted n s i (running t) e h =
      moved-Counted n s i s.attached checking h (omega (arith, ap (λ x. one_if (is_attached x)) e))
  work-Counted n s i leaving e h = test_attached-Counted n s i (s.attached - 1) (s.attached - 1) h (
      omega
        (arith, ap (λ x. one_if (is_attached x)) e, attached-Counted n s i h (ap is_attached e)))
  work-Counted n s i parked e h = raised n (suc i) s h
  work-Counted n s i awake e h =
      test_attached-Counted n s i s.attached s.attached h
        (omega (arith, ap (λ x. one_if (is_attached x)) e))
  work-Counted n s i notifying e h =
      moved-Counted n (notify_all s) i s.attached returned (notify_all-Counted n s h)
        (omega (arith, ap (λ x. one_if (is_attached (woken x))) e))
  work-Counted n s i returned e h = raised n (suc i) s h

  join_thread-Counted : (n : ℕ) (s : Pool A) → Counted n s → Counted n (join_thread s)
  unfolding join_thread
  join_thread-Counted n s h m l = ground (arith, h m l)

  Reach-Counted : {s : Pool A} → Reach s → (n : ℕ) × Counted n s
  unfolding attach_step close_queue post_task begin_stop begin_wait wake_thread
  Reach-Counted (start k) = (0, λ m l. count-all_false is_attached m (λ _. outside) (λ i q. refl))
  Reach-Counted (attaches {s} i r) =
      let h = Reach-Counted r in (h.0 + suc i, work-Counted h.0 s i (s.workers i) refl h.1)
  Reach-Counted (posts {s} t r) = Reach-Counted r
  Reach-Counted (closes {s} r) = Reach-Counted r
  Reach-Counted (begins_wait {s} r) = Reach-Counted r
  Reach-Counted (joins {s} r) = let h = Reach-Counted r in (h.0, join_thread-Counted h.0 s h.1)
  Reach-Counted (rouses {s} i r) =
      let h = Reach-Counted r in
      (
        h.0 + suc i,
        moved-Counted h.0 s i s.attached (woken (s.workers i)) h.1
            (ap (λ b. s.attached + one_if b) (sym (is_attached-woken (s.workers i)))),
      )
  Reach-Counted (stops {s} r) = Reach-Counted r
  Reach-Counted (wakes {s} r) = Reach-Counted r

  -- `attached_threads_` is not zero while a thread is between its increment and its decrement, so
  -- that the decrement does not wrap around; and it is zero when none is.
  pub attached_counts :
      {s : Pool A}
      → Reach s
      → ((i : ℕ) → is_attached (s.workers i) ≡ true → 1 ≤ s.attached)
        × (((i : ℕ) → is_attached (s.workers i) ≡ false) → s.attached ≡ 0)
  attached_counts {s} r =
      let h = Reach-Counted r in
      (
        λ i e. attached-Counted h.0 s i h.1 e,
        λ f. sym (h.1 h.0 (omega arith)) ∙ count-all_false is_attached h.0 s.workers (λ i l. f i),
      )
