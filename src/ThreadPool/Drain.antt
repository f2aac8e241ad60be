-- ===== src/ThreadPool/Drain.antt =====
-- A worker that ends while the pool is not stopped leaves nothing undone.
use portable_concurrency.Prelude.{
  ℕ, zero, suc, ◌-◌, ◌≡◌, refl, sym, ap, ◌∙◌, Bool, true, false, if◌then◌else◌, [], ◌∷◌, ◌++◌,
  if_pos, if_neg, ℕ_discrete, arith,
}
use portable_concurrency.ClosableQueue.{
  Queue, Popped, waits, gives, fails, pop, resume_pop, push, close, wake_spuriously,
}
use portable_concurrency.ClosableQueue.Contents.{IsTake, pop-IsTake, resume_pop-IsTake}
use portable_concurrency.ThreadPool.{
  Pool, Worker, outside, checking, popping, asleep, running, leaving, parked, awake, notifying,
  returned, work, begin_wait, join_thread, join_returned, wake_thread, woken, notify_all, after_pop,
  attach_step, post_task, close_queue, begin_stop, test_attached, moved,
}
use portable_concurrency.ThreadPool.Order.{started_in_order}
use portable_concurrency.ThreadPool.System.{
  Reach, start, attaches, posts, closes, begins_wait, joins, rouses, stops, wakes,
}
use mathlib.Core.List.{append-nil}

module _ {ℓ} {A : Type ℓ} where
  abbrev pub is_over : Worker A → Bool
  is_over leaving = true
  is_over parked = true
  is_over awake = true
  is_over notifying = true
  is_over returned = true
  is_over _ = false

  abbrev IsDrained : Queue A → Type ℓ
  IsDrained q = (q.closed ≡ true) × (q.items ≡ [])

  abbrev Drains : Bool → Queue A → Worker A → Type ℓ
  Drains stopped q w = is_over w ≡ true → stopped ≡ false → IsDrained q

  abbrev AllDrain : Pool A → Type ℓ
  AllDrain s = (j : ℕ) → Drains s.stopped s.queue (s.workers j)

  moved-AllDrain :
      (s : Pool A) (i : ℕ) (w : Worker A)
      → AllDrain s
      → Drains s.stopped s.queue w
      → AllDrain (moved s i w)
  moved-AllDrain s i w h new j = elim (ℕ_discrete i j) [
    | yes e ↦ rw (if_pos _ e) new
    | no n ↦ rw (if_neg _ n) (h j)
  ]

  take-IsDrained : (q q' : Queue A) (x : Popped A) → IsTake q q' x → IsDrained q → IsDrained q'
  take-IsDrained q q' waits t h = (t.closed ∙ h.0, t.items ∙ h.1)
  take-IsDrained q q' (gives v) t h = absurd (cc (t.items, h.1))
  take-IsDrained q q' fails t h = (t.closed ∙ h.0, t.items ∙ h.1)

  requeued-AllDrain :
      (s : Pool A) (q : Queue A)
      → (IsDrained s.queue → IsDrained q)
      → AllDrain s
      → AllDrain (record s { queue = q })
  requeued-AllDrain s q f h j o n = f (h j o n)

  after_pop-AllDrain :
      (s : Pool A) (i : ℕ) (r : Queue A × Popped A)
      → IsTake s.queue r.0 r.1
      → AllDrain s
      → AllDrain (after_pop s i r)
  after_pop-AllDrain s i (q, waits) t h =
      moved-AllDrain (record s { queue = q }) i asleep
        (requeued-AllDrain s q (take-IsDrained s.queue q waits t) h) (λ o n. absurd (cc))
  after_pop-AllDrain s i (q, gives v) t h =
      moved-AllDrain (record s { queue = q; started = s.started ++ v ∷ [] }) i (running v)
        (requeued-AllDrain s q (take-IsDrained s.queue q (gives v) t) h) (λ o n. absurd (cc))
  after_pop-AllDrain s i (q, fails) t h =
      moved-AllDrain (record s { queue = q }) i leaving
        (requeued-AllDrain s q (take-IsDrained s.queue q fails t) h)
        (λ o n. take-IsDrained s.queue q fails t (t.failed refl))

  test_stopped-Drains : (b : Bool) (q : Queue A) → Drains b q (if b then leaving else popping)
  test_stopped-Drains true q o n = absurd (cc)
  test_stopped-Drains false q o n = absurd (cc)

  test_attached-AllDrain :
      (s : Pool A) (i n : ℕ)
      → is_over (s.workers i) ≡ true
      → AllDrain s
      → AllDrain (test_attached s i n)
  test_attached-AllDrain s i zero e h = moved-AllDrain s i notifying h (λ o. h i e)
  test_attached-AllDrain s i (suc k) e h = moved-AllDrain s i parked h (λ o. h i e)

  is_over-woken : (w : Worker A) → is_over (woken w) ≡ is_over w
  is_over-woken w = ground arith

  notify_all-AllDrain : (s : Pool A) → AllDrain s → AllDrain (notify_all s)
  notify_all-AllDrain s h j o = h j (sym (is_over-woken (s.workers j)) ∙ o)

  work-AllDrain :
      (s : Pool A) (i : ℕ) (w : Worker A) → s.workers i ≡ w → AllDrain s → AllDrain (work s i w)
  work-AllDrain s i outside e h =
      moved-AllDrain (record s { attached = suc s.attached }) i checking h (λ o n. absurd (cc))
  work-AllDrain s i checking e h =
      moved-AllDrain s i (if s.stopped then leaving else popping) h
        (test_stopped-Drains s.stopped s.queue)
  work-AllDrain s i popping e h = after_pop-AllDrain s i (pop s.queue) (pop-IsTake s.queue) h
  work-AllDrain s i asleep e h =
      after_pop-AllDrain s i (resume_pop s.queue) (resume_pop-IsTake s.queue) h
  work-AllDrain s i (running t) e h = moved-AllDrain s i checking h (λ o n. absurd (cc))
  work-AllDrain s i leaving e h =
      test_attached-AllDrain (record s { attached = s.attached - 1 }) i (s.attached - 1)
        (ap is_over e) h
  work-AllDrain s i parked e h = h
  work-AllDrain s i awake e h = test_attached-AllDrain s i s.attached (ap is_over e) h
  work-AllDrain s i notifying e h =
      moved-AllDrain (notify_all s) i returned (notify_all-AllDrain s h) (λ o. h i (ap is_over e))
  work-AllDrain s i returned e h = h

  push-IsDrained : (v : A) (q : Queue A) → IsDrained q → IsDrained (push v q)
  unfolding push
  push-IsDrained v q h = ground (arith, h)

  join_returned-AllDrain : (s : Pool A) (w : Worker A) → AllDrain s → AllDrain (join_returned s w)
  join_returned-AllDrain s w h = ground (arith, h)

  join_thread-AllDrain : (s : Pool A) → AllDrain s → AllDrain (join_thread s)
  unfolding join_thread
  join_thread-AllDrain s h j o n = ground (arith, h j)

  Reach-AllDrain : {s : Pool A} → Reach s → AllDrain s
  unfolding attach_step close_queue close post_task begin_stop wake_spuriously begin_wait
      wake_thread
  Reach-AllDrain (start n) = λ j o n. absurd (cc)
  Reach-AllDrain (attaches {s} i r) = work-AllDrain s i (s.workers i) refl (Reach-AllDrain r)
  Reach-AllDrain (posts {s} t r) =
      requeued-AllDrain s (push t s.queue) (push-IsDrained t s.queue) (Reach-AllDrain r)
  Reach-AllDrain (closes {s} r) =
      requeued-AllDrain s (close s.queue) (λ d. (refl, d.1)) (Reach-AllDrain r)
  Reach-AllDrain (begins_wait {s} r) =
      requeued-AllDrain s (close s.queue) (λ d. (refl, d.1)) (Reach-AllDrain r)
  Reach-AllDrain (joins {s} r) = join_thread-AllDrain s (Reach-AllDrain r)
  Reach-AllDrain (rouses {s} i r) =
      let h = Reach-AllDrain r in
      moved-AllDrain s i (woken (s.workers i)) h (λ o. h i (sym (is_over-woken (s.workers i)) ∙ o))
  Reach-AllDrain (stops r) = λ j o n. absurd (cc)
  Reach-AllDrain (wakes {s} r) =
      requeued-AllDrain s (wake_spuriously s.queue) (λ d. ground (arith, d)) (Reach-AllDrain r)

  -- When a worker has left its loop and the pool is not stopped, the queue is closed, and every
  -- task that it has taken in has been started.
  pub over_started_all :
      {s : Pool A} (i : ℕ)
      → Reach s
      → is_over (s.workers i) ≡ true
      → s.stopped ≡ false
      → (s.queue.closed ≡ true) × (s.started ≡ s.accepted)
  over_started_all {s} i r o n =
      let d = Reach-AllDrain r i o n in
      (d.0, sym (append-nil s.started) ∙ ap (λ vs. s.started ++ vs) (sym d.1) ∙ started_in_order r)
