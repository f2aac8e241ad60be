-- ===== src/ThreadPool/Tests.antt =====
-- A worker that sleeps, is woken by a post, runs the task and ends when the pool waits.
use portable_concurrency.Prelude.{
  ℕ, ◌≡◌, ◌≤◌, ◌⊎◌, true, false, [], ◌∷◌, ◌++◌, refl, ℕ_discrete, length,
}
use portable_concurrency.ClosableQueue.{pop, resume_pop, push, close}
use portable_concurrency.ThreadPool.{Pool, attach_step, post_task, close_queue}
use portable_concurrency.ThreadPool.Order.{started_in_order, Reach-IsServed}
use portable_concurrency.ThreadPool.Drain.{over_started_all}
use portable_concurrency.ThreadPool.System.{init, Reach, start, attaches, posts, closes}

-- Two workers sleep, and two tasks come.
abbrev two_asleep : Pool ℕ
two_asleep =
    attach_step
      (attach_step (attach_step (attach_step (attach_step (attach_step (init 1) 0) 0) 0) 1) 1) 1

abbrev posted_two : Pool ℕ
posted_two = post_task 6 (post_task 5 two_asleep)

abbrev running_one : Pool ℕ
running_one = attach_step posted_two 1

-- The pool waits; worker 1 goes on to the end.
abbrev closed_pool : Pool ℕ
closed_pool = close_queue running_one

abbrev ended : Pool ℕ
ended =
    attach_step
      (attach_step (attach_step (attach_step (attach_step (attach_step closed_pool 1) 1) 1) 1) 1) 1

two_asleep-Reach : Reach two_asleep
two_asleep-Reach =
    attaches 1 (attaches 1 (attaches 1 (attaches 0 (attaches 0 (attaches 0 (start 1))))))

running_one-Reach : Reach running_one
running_one-Reach = attaches 1 (posts 6 (posts 5 two_asleep-Reach))

ended-Reach : Reach ended
ended-Reach =
    attaches 1
      (attaches 1 (attaches 1 (attaches 1 (attaches 1 (attaches 1 (closes running_one-Reach))))))

sleepers : two_asleep.queue.sleeping ≡ 2
unfolding attach_step pop ℕ_discrete
sleepers = refl

started_in_order_example : running_one.started ++ running_one.queue.items ≡ 5 ∷ 6 ∷ []
unfolding attach_step pop resume_pop push post_task ℕ_discrete
started_in_order_example = started_in_order running_one-Reach

Reach-IsServed_example :
    (two_asleep.queue.sleeping ≡ 0)
    ⊎ ((two_asleep.queue.closed ≡ false) × (length two_asleep.queue.items ≤ two_asleep.queue.woken))
Reach-IsServed_example = Reach-IsServed two_asleep-Reach

over_started_all_example : (ended.queue.closed ≡ true) × (ended.started ≡ 5 ∷ 6 ∷ [])
unfolding attach_step pop resume_pop push post_task close_queue close ℕ_discrete
over_started_all_example = over_started_all 1 ended-Reach refl refl
