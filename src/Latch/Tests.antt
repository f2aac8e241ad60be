-- ===== src/Latch/Tests.antt =====
-- Thread 1 counts down and thread 0 waits for it, and then destroys the latch.
use portable_concurrency.Prelude.{◌≡◌, ◌≢◌, true, refl, arith, ℕ_discrete}
use portable_concurrency.Latch.{
  Latch, waiting, notifying, count_down, begin_wait, end_wait, destroy, lowered, init, Reach, start,
  counts_down, waits, wakes, destroys,
}
use portable_concurrency.Latch.Waiters.{destroyed_without_waiters, passed_at_zero}

abbrev one_waits : Latch
one_waits = begin_wait (init 1 2) 0

abbrev counted : Latch
counted = lowered one_waits 1 0

abbrev gone : Latch
gone = destroy (end_wait counted 0)

counted-Reach : Reach counted
unfolding begin_wait count_down ℕ_discrete
counted-Reach =
    counts_down 1 1 (waits 0 (start 1 2) (omega arith) refl refl) (omega arith) refl refl refl

passed-Reach : Reach (end_wait counted 0)
unfolding begin_wait count_down end_wait ℕ_discrete
passed-Reach = wakes 0 counted-Reach (omega arith) refl

gone-Reach : Reach gone
gone-Reach = destroys passed-Reach

-- The thread that counted down has still to call `cv_.notify_all()` of the latch that is gone.
late_notify : (gone.destroyed ≡ true) × (gone.callers 1 ≡ notifying)
unfolding begin_wait count_down end_wait destroy ℕ_discrete
late_notify = (refl, refl)

destroyed_without_waiters_example : gone.callers 0 ≢ waiting
unfolding begin_wait count_down end_wait destroy ℕ_discrete
destroyed_without_waiters_example = destroyed_without_waiters 0 gone-Reach refl (omega arith)

passed_at_zero_example : (end_wait counted 0).counter ≡ 0
unfolding begin_wait count_down end_wait ℕ_discrete
passed_at_zero_example = passed_at_zero 0 passed-Reach refl
