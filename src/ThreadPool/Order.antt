-- ===== src/ThreadPool/Order.antt =====
-- The workers together start what was posted, in its order, and do not sleep over it.
use portable_concurrency.Prelude.{
  ℕ, zero, suc, ◌-◌, ◌≡◌, refl, sym, ap, ◌∙◌, inl, Bool, true, false, if◌then◌else◌, List, [], ◌∷◌,
  ◌++◌, arith,
}
use portable_concurrency.ClosableQueue.{
  Queue, Popped, waits, gives, fails, pop, resume_pop, close, wake_spuriously,
}
use portable_concurrency.ClosableQueue.Contents.{IsTake, pop-IsTake, resume_pop-IsTake, push-items}
use portable_concurrency.ClosableQueue.Wakeups.{
  IsServed, push-IsServed, close-IsServed, pop-IsServed, resume_pop-IsServed,
  wake_spuriously-IsServed,
}
use portable_concurrency.ThreadPool.{
  Pool, Worker, outside, checking, popping, asleep, running, leaving, parked, awake, notifying,
  returned, work, begin_wait, join_thread, join_returned, wake_thread, after_pop, attach_step,
  post_task, close_queue, begin_stop, test_attached,
}
use portable_concurrency.ThreadPool.System.{
  Reach, start, attaches, posts, closes, begins_wait, joins, rouses, stops, wakes,
}
use mathlib.Core.List.{append_assoc}

module _ {ℓ} {A : Type ℓ} where
  abbrev InOrder : Pool A → Type ℓ
  InOrder s = s.started ++ s.queue.items ≡ s.accepted

  after_pop-InOrder :
      (s : Pool A) (i : ℕ) (r : Queue A × Popped A)
      → IsTake s.queue r.0 r.1
      → InOrder s
      → InOrder (after_pop s i r)
  after_pop-InOrder s i (q, waits) t h = ap (λ vs. s.started ++ vs) t.items ∙ h
  after_pop-InOrder s i (q, gives v) t h =
      append_assoc s.started (v ∷ []) q.items ∙ ap (λ vs. s.started ++ vs) t.items ∙ h
  after_pop-InOrder s i (q, fails) t h = ap (λ vs. s.started ++ vs) t.items ∙ h

  test_attached-InOrder : (s : Pool A) (i n : ℕ) → InOrder s → InOrder (test_attached s i n)
  test_attached-InOrder s i zero h = h
  test_attached-InOrder s i (suc k) h = h

  work-InOrder : (s : Pool A) (i : ℕ) (w : Worker A) → InOrder s → InOrder (work s i w)
  work-InOrder s i outside h = h
  work-InOrder s i checking h = h
  work-InOrder s i popping h = after_pop-InOrder s i (pop s.queue) (pop-IsTake s.queue) h
  work-InOrder s i asleep h =
      after_pop-InOrder s i (resume_pop s.queue) (resume_pop-IsTake s.queue) h
  work-InOrder s i (running t) h = h
  work-InOrder s i leaving h =
      test_attached-InOrder (record s { attached = s.attached - 1 }) i (s.attached - 1) h
  work-InOrder s i parked h = h
  work-InOrder s i awake h = test_attached-InOrder s i s.attached h
  work-InOrder s i notifying h = h
  work-InOrder s i returned h = h

  both_grow :
      (c : Bool) (xs ys zs : List A) (t : A)
      → xs ++ ys ≡ zs
      → xs ++ (if c then ys else ys ++ t ∷ []) ≡ (if c then zs else zs ++ t ∷ [])
  both_grow true xs ys zs t h = h
  both_grow false xs ys zs t h = sym (append_assoc xs ys (t ∷ [])) ∙ ap (λ vs. vs ++ t ∷ []) h

  post_task-InOrder : (s : Pool A) (t : A) → InOrder s → InOrder (post_task t s)
  unfolding post_task
  post_task-InOrder s t h =
      ap (λ vs. s.started ++ vs) (push-items t s.queue)
      ∙ both_grow s.queue.closed s.started s.queue.items s.accepted t h

  join_returned-InOrder : (s : Pool A) (w : Worker A) → InOrder s → InOrder (join_returned s w)
  join_returned-InOrder s w h = ground (arith, h)

  join_thread-InOrder : (s : Pool A) → InOrder s → InOrder (join_thread s)
  unfolding join_thread
  join_thread-InOrder s h = ground (arith, h)

  join_thread-queue : (s : Pool A) → (join_thread s).queue ≡ s.queue
  unfolding join_thread
  join_thread-queue s = ground arith

  -- The tasks that workers have started, and then those in the queue, are the tasks that the queue
  -- has taken in, each once and in the order of the calls of `post`.
  pub started_in_order : {s : Pool A} → Reach s → s.started ++ s.queue.items ≡ s.accepted
  unfolding attach_step close_queue close begin_stop wake_spuriously begin_wait wake_thread
  started_in_order (start n) = refl
  started_in_order (attaches {s} i r) = work-InOrder s i (s.workers i) (started_in_order r)
  started_in_order (posts {s} t r) = post_task-InOrder s t (started_in_order r)
  started_in_order (closes {s} r) = started_in_order r
  started_in_order (begins_wait {s} r) = started_in_order r
  started_in_order (joins {s} r) = join_thread-InOrder s (started_in_order r)
  started_in_order (rouses {s} i r) = started_in_order r
  started_in_order (stops r) = started_in_order r
  started_in_order (wakes {s} r) = ground (arith, started_in_order r)

  after_pop-IsServed :
      (s : Pool A) (i : ℕ) (r : Queue A × Popped A)
      → IsServed r.0
      → IsServed (after_pop s i r).queue
  after_pop-IsServed s i (q, waits) h = h
  after_pop-IsServed s i (q, gives v) h = h
  after_pop-IsServed s i (q, fails) h = h

  test_attached-IsServed :
      (s : Pool A) (i n : ℕ) → IsServed s.queue → IsServed (test_attached s i n).queue
  test_attached-IsServed s i zero h = h
  test_attached-IsServed s i (suc k) h = h

  work-IsServed :
      (s : Pool A) (i : ℕ) (w : Worker A) → IsServed s.queue → IsServed (work s i w).queue
  work-IsServed s i outside h = h
  work-IsServed s i checking h = h
  work-IsServed s i popping h = after_pop-IsServed s i (pop s.queue) (pop-IsServed s.queue h)
  work-IsServed s i asleep h =
      after_pop-IsServed s i (resume_pop s.queue) (resume_pop-IsServed s.queue h)
  work-IsServed s i (running t) h = h
  work-IsServed s i leaving h =
      test_attached-IsServed (record s { attached = s.attached - 1 }) i (s.attached - 1) h
  work-IsServed s i parked h = h
  work-IsServed s i awake h = test_attached-IsServed s i s.attached h
  work-IsServed s i notifying h = h
  work-IsServed s i returned h = h

  -- No wake-up is lost: in every state that is reached, either no call of `pop` sleeps, or the
  -- queue is open and for each item in it a call has been woken.
  pub Reach-IsServed : {s : Pool A} → Reach s → IsServed s.queue
  unfolding attach_step close_queue post_task begin_stop begin_wait wake_thread
  Reach-IsServed (start n) = inl refl
  Reach-IsServed (attaches {s} i r) = work-IsServed s i (s.workers i) (Reach-IsServed r)
  Reach-IsServed (posts {s} t r) = push-IsServed t s.queue (Reach-IsServed r)
  Reach-IsServed (closes {s} r) = close-IsServed s.queue
  Reach-IsServed (begins_wait {s} r) = close-IsServed s.queue
  Reach-IsServed (joins {s} r) = rw (join_thread-queue s) (Reach-IsServed r)
  Reach-IsServed (rouses {s} i r) = Reach-IsServed r
  Reach-IsServed (stops r) = Reach-IsServed r
  Reach-IsServed (wakes {s} r) = wake_spuriously-IsServed s.queue (Reach-IsServed r)
