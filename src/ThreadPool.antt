-- ===== src/ThreadPool.antt =====
-- bits/thread_pool.h, and `static_thread_pool` with `process_queue` in
-- bits/portable_concurrency.cpp: worker threads between their steps.
pub mod System
pub mod Order
pub mod Drain
pub mod Attached
pub mod Join
pub mod Notified
mod Tests
mod WaitTests
use portable_concurrency.Prelude.{
  ℕ, zero, suc, ◌-◌, ◌&&◌, ltb, Bool, true, if◌then◌else◌, List, ◌++◌, [], ◌∷◌, update,
}
use portable_concurrency.ClosableQueue.{
  Queue, Popped, waits, gives, fails, pop, resume_pop, push, close,
}

-- A thread in `attach`, which the pool's own threads run as well.
pub data Worker {ℓ} (A : Type ℓ) : Type ℓ where
  outside : Worker A
  checking : Worker A  -- before `stopped.load`
  popping : Worker A  -- before `queue.pop`
  asleep : Worker A  -- in `queue.pop`, on its condition variable
  running : A → Worker A  -- in `task()`
  leaving : Worker A  -- `process_queue` has returned
  parked : Worker A  -- asleep on `cv_`
  awake : Worker A  -- has been woken, before it looks at `attached_threads_`
  notifying : Worker A  -- has found it to be zero, before `cv_.notify_all()`
  returned : Worker A

-- `started` and `accepted` are the tasks that workers have taken and that the queue has taken in,
-- the oldest first.
pub record Pool {ℓ} (A : Type ℓ) : Type ℓ where
  pub queue : Queue A
  pub stopped : Bool
  pub attached : ℕ
  pub threads : ℕ  -- the pool's own, whose numbers are the first ones
  pub waiting : Bool  -- `wait` has closed the queue
  pub joined : ℕ  -- how many of them `wait` has joined
  pub workers : ℕ → Worker A
  pub started : List A
  pub accepted : List A

module _ {ℓ} {A : Type ℓ} where
  abbrev pub moved : Pool A → ℕ → Worker A → Pool A
  moved s i w = record s { workers = update s.workers i w }

  -- `while (... && queue.pop(task)) task();`
  abbrev pub after_pop : Pool A → ℕ → Queue A × Popped A → Pool A
  after_pop s i (q, waits) = moved (record s { queue = q }) i asleep
  after_pop s i (q, gives t) =
      moved (record s { queue = q; started = s.started ++ t ∷ [] }) i (running t)
  after_pop s i (q, fails) = moved (record s { queue = q }) i leaving

  abbrev pub test_stopped : Pool A → ℕ → Pool A
  test_stopped s i = moved s i (if s.stopped then leaving else popping)

  -- `cv_.wait(lock, [&] { return attached_threads_ == 0; })`, from the mutex to the mutex.
  abbrev pub test_attached : Pool A → ℕ → ℕ → Pool A
  test_attached s i zero = moved s i notifying
  test_attached s i (suc k) = moved s i parked

  abbrev pub leave : Pool A → ℕ → Pool A
  leave s i = test_attached (record s { attached = s.attached - 1 }) i (s.attached - 1)

  abbrev pub woken : Worker A → Worker A
  woken parked = awake
  woken w = w

  abbrev pub notify_all : Pool A → Pool A
  notify_all s = record s { workers = λ j. woken (s.workers j) }

  abbrev pub work : Pool A → ℕ → Worker A → Pool A
  work s i outside = moved (record s { attached = suc s.attached }) i checking
  work s i checking = test_stopped s i
  work s i popping = after_pop s i (pop s.queue)
  work s i asleep = after_pop s i (resume_pop s.queue)
  work s i (running t) = moved s i checking
  work s i leaving = leave s i
  work s i parked = s
  work s i awake = test_attached s i s.attached
  work s i notifying = moved (notify_all s) i returned
  work s i returned = s

  -- The next step of the thread `i` in `attach`.
  unfoldable pub attach_step : Pool A → ℕ → Pool A
  attach_step s i = work s i (s.workers i)

  -- `post(queue_executor, fun)`
  unfoldable pub post_task : A → Pool A → Pool A
  post_task t s = record s {
    queue = push t s.queue;
    accepted = if s.queue.closed then s.accepted else s.accepted ++ t ∷ [];
  }

  -- `queue_.close()` of `stop`.
  unfoldable pub close_queue : Pool A → Pool A
  close_queue s = record s { queue = close s.queue }

  -- `wait`: the queue is closed, and then one thread after the other is joined.
  unfoldable pub begin_wait : Pool A → Pool A
  begin_wait s = record s { queue = close s.queue; waiting = true }

  abbrev pub join_returned : Pool A → Worker A → Pool A
  join_returned s returned = record s { joined = suc s.joined }
  join_returned s _ = s

  unfoldable pub join_thread : Pool A → Pool A
  join_thread s =
      if s.waiting && ltb s.joined s.threads then join_returned s (s.workers s.joined) else s

  -- A spurious wake-up on `cv_`.
  unfoldable pub wake_thread : Pool A → ℕ → Pool A
  wake_thread s i = moved s i (woken (s.workers i))

  -- `stop`, up to its `queue_.close()`.
  unfoldable pub begin_stop : Pool A → Pool A
  begin_stop s = record s { stopped = true }
