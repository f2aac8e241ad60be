-- ===== src/ThreadPool/Join.antt =====
-- When `wait` has joined the pool's threads.
use portable_concurrency.Prelude.{
  ℕ, ◌≡◌, ◌≢◌, ◌<◌, ◌≤◌, refl, ap, ◌∙◌, ◌&&◌, Bool-cases, inl, inr, ℕ_discrete, true, false, ltb,
  arith,
}
use portable_concurrency.ClosableQueue.{Queue, Popped, waits, gives, fails, pop, resume_pop}
use portable_concurrency.ThreadPool.{
  Pool, Worker, outside, checking, popping, asleep, running, leaving, parked, awake, notifying,
  returned, work, after_pop, attach_step, post_task, close_queue, begin_stop, begin_wait,
  join_thread, join_returned, wake_thread,
}
use portable_concurrency.ThreadPool.Drain.{is_over, over_started_all}
use portable_concurrency.ThreadPool.System.{
  Reach, start, attaches, posts, closes, begins_wait, joins, rouses, stops, wakes,
}

module _ {ℓ} {A : Type ℓ} where
  -- A thread that has returned from `attach` does nothing more.
  after_pop-returned :
      (s : Pool A) (i j : ℕ) (r : Queue A × Popped A)
      → s.workers i ≢ returned
      → s.workers j ≡ returned
      → (after_pop s i r).workers j ≡ returned
  after_pop-returned s i j r n h = ground (arith, n, h)

  work-returned :
      (s : Pool A) (i j : ℕ) (w : Worker A)
      → s.workers i ≡ w
      → s.workers j ≡ returned
      → (work s i w).workers j ≡ returned
  work-returned s i j outside e h = ground (arith, e, h)
  work-returned s i j checking e h = ground (arith, e, h)
  work-returned s i j popping e h =
      after_pop-returned s i j (pop s.queue) (λ f. absurd (cc (e, f))) h
  work-returned s i j asleep e h =
      after_pop-returned s i j (resume_pop s.queue) (λ f. absurd (cc (e, f))) h
  work-returned s i j (running t) e h = ground (arith, e, h)
  work-returned s i j leaving e h = ground (arith, e, h)
  work-returned s i j parked e h = h
  work-returned s i j awake e h = ground (arith, e, h)
  work-returned s i j notifying e h = ground (arith, e, h)
  work-returned s i j returned e h = h

  -- What `wait` has joined.
  abbrev Joined : Pool A → Type ℓ
  Joined s = ((j : ℕ) → j < s.joined → s.workers j ≡ returned) × (s.joined ≤ s.threads)

  after_pop-joined :
      (s : Pool A) (i : ℕ) (r : Queue A × Popped A)
      → ((after_pop s i r).joined ≡ s.joined) × ((after_pop s i r).threads ≡ s.threads)
  after_pop-joined s i (q, waits) = (refl, refl)
  after_pop-joined s i (q, gives t) = (refl, refl)
  after_pop-joined s i (q, fails) = (refl, refl)

  work-joined :
      (s : Pool A) (i : ℕ) (w : Worker A)
      → ((work s i w).joined ≡ s.joined) × ((work s i w).threads ≡ s.threads)
  work-joined s i outside = (refl, refl)
  work-joined s i checking = (refl, refl)
  work-joined s i popping = after_pop-joined s i (pop s.queue)
  work-joined s i asleep = after_pop-joined s i (resume_pop s.queue)
  work-joined s i (running t) = (refl, refl)
  work-joined s i leaving = ground arith
  work-joined s i parked = (refl, refl)
  work-joined s i awake = ground arith
  work-joined s i notifying = (refl, refl)
  work-joined s i returned = (refl, refl)

  work-Joined : (s : Pool A) (i : ℕ) → Joined s → Joined (work s i (s.workers i))
  work-Joined s i h =
      let e = work-joined s i (s.workers i) in
      (
        λ j l. work-returned s i j (s.workers i) refl (h.0 j (omega (arith, l, e.0))),
        omega (arith, e.0, e.1, h.1),
      )

  join_returned-Joined :
      (s : Pool A) (w : Worker A)
      → s.workers s.joined ≡ w
      → s.joined < s.threads
      → Joined s
      → Joined (join_returned s w)
  join_returned-Joined s returned e l h = (
    λ j k. elim (ℕ_discrete j s.joined) [
      | yes here ↦ ap s.workers here ∙ e
      | no other ↦ h.0 j (omega (arith, k, other))
    ],
    omega (arith, l),
  )
  join_returned-Joined s outside e l h = h
  join_returned-Joined s checking e l h = h
  join_returned-Joined s popping e l h = h
  join_returned-Joined s asleep e l h = h
  join_returned-Joined s (running t) e l h = h
  join_returned-Joined s leaving e l h = h
  join_returned-Joined s parked e l h = h
  join_returned-Joined s awake e l h = h
  join_returned-Joined s notifying e l h = h

  join_thread-Joined : (s : Pool A) → Joined s → Joined (join_thread s)
  unfolding join_thread
  join_thread-Joined s h = elim (Bool-cases (s.waiting && ltb s.joined s.threads)) [
    | inl e ↦ rw e (join_returned-Joined s (s.workers s.joined) refl (ground (arith, e)) h)
    | inr e ↦ rw e h
  ]

  Reach-Joined : {s : Pool A} → Reach s → Joined s
  unfolding attach_step close_queue post_task begin_stop begin_wait wake_thread
  Reach-Joined (start n) = (λ j l. absurd (omega (arith, l)), omega arith)
  Reach-Joined (attaches {s} i r) = work-Joined s i (Reach-Joined r)
  Reach-Joined (posts {s} t r) = Reach-Joined r
  Reach-Joined (closes {s} r) = Reach-Joined r
  Reach-Joined (begins_wait {s} r) = Reach-Joined r
  Reach-Joined (joins {s} r) = join_thread-Joined s (Reach-Joined r)
  Reach-Joined (rouses {s} i r) = let h = Reach-Joined r in (λ j l. ground (arith, h.0 j l), h.1)
  Reach-Joined (stops r) = Reach-Joined r
  Reach-Joined (wakes {s} r) = Reach-Joined r

  -- When `wait` has joined all threads of a pool that has one, each of them has returned from
  -- `attach`; and if the pool has not been stopped, the queue is closed and every task that it has
  -- taken in has been started.
  pub wait_drains :
      {s : Pool A}
      → Reach s
      → s.joined ≡ s.threads
      → 1 ≤ s.threads
      → ((j : ℕ) → j < s.threads → s.workers j ≡ returned)
        × (s.stopped ≡ false → (s.queue.closed ≡ true) × (s.started ≡ s.accepted))
  wait_drains {s} r e l =
      let h = (Reach-Joined r).0 in
      (
        λ j k. h j (omega (arith, e, k)),
        λ n. over_started_all 0 r (ap is_over (h 0 (omega (arith, e, l)))) n,
      )
