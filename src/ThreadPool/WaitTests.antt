-- ===== src/ThreadPool/WaitTests.antt =====
-- A pool with one thread, which runs a task; another thread has attached itself and leaves first.
use portable_concurrency.Prelude.{
  ℕ, zero, suc, ◌≡◌, ◌≢◌, ◌⊎◌, ◌≤◌, ◌<◌, true, false, [], ◌∷◌, refl, ℕ_discrete, arith,
}
use portable_concurrency.ClosableQueue.{pop, resume_pop, push, close}
use portable_concurrency.ThreadPool.{
  Pool, returned, awake, notifying, parked, attach_step, post_task, begin_wait, join_thread,
}
use portable_concurrency.ThreadPool.Attached.{is_attached, attached_counts}
use portable_concurrency.ThreadPool.Join.{wait_drains}
use portable_concurrency.ThreadPool.Notified.{zero_roused}
use portable_concurrency.ThreadPool.System.{init, Reach, start, attaches, posts, begins_wait, joins}

abbrev steps : ℕ → ℕ → Pool ℕ → Pool ℕ
steps zero i s = s
steps (suc n) i s = attach_step (steps n i s) i

steps-Reach : (n i : ℕ) (s : Pool ℕ) → Reach s → Reach (steps n i s)
steps-Reach zero i s r = r
steps-Reach (suc n) i s r = attaches i (steps-Reach n i s r)

-- Thread 0 runs the task, thread 1 is about to look for one.
abbrev busy : Pool ℕ
busy = steps 2 1 (steps 3 0 (post_task 5 (init 1)))

busy-Reach : Reach busy
busy-Reach = steps-Reach 2 1 _ (steps-Reach 3 0 _ (posts 5 (start 1)))

-- Thread 1 leaves and sleeps, thread 0 ends its task, leaves, and wakes it.
abbrev left : Pool ℕ
left = steps 5 0 (steps 2 1 (begin_wait busy))

left-Reach : Reach left
left-Reach = steps-Reach 5 0 _ (steps-Reach 2 1 _ (begins_wait busy-Reach))

abbrev joined_pool : Pool ℕ
joined_pool = join_thread left

joined-two : (busy.attached ≡ 2) × (left.attached ≡ 0) × (joined_pool.joined ≡ 1)
unfolding attach_step pop resume_pop push post_task begin_wait close join_thread ℕ_discrete
joined-two = (refl, refl, refl)

-- `wait` has joined the pool's thread while the other one is still in `attach`, with the mutex of
-- the pool to lock.
joined-awake : joined_pool.workers 1 ≡ awake
unfolding attach_step pop resume_pop push post_task begin_wait close join_thread ℕ_discrete
joined-awake = refl

attached_counts_example :
    ((i : ℕ) → is_attached (busy.workers i) ≡ true → 1 ≤ busy.attached)
    × (((i : ℕ) → is_attached (busy.workers i) ≡ false) → busy.attached ≡ 0)
attached_counts_example = attached_counts busy-Reach

zero_roused_example : ((j : ℕ) × (left.workers j ≡ notifying)) ⊎ ((j : ℕ) → left.workers j ≢ parked)
zero_roused_example = zero_roused left-Reach joined-two.1

wait_drains_example :
    ((j : ℕ) → j < 1 → joined_pool.workers j ≡ returned)
    × (joined_pool.stopped ≡ false
        → (joined_pool.queue.closed ≡ true) × (joined_pool.started ≡ 5 ∷ []))
unfolding attach_step pop resume_pop push post_task begin_wait close join_thread ℕ_discrete
wait_drains_example = wait_drains (joins left-Reach) refl (omega arith)
