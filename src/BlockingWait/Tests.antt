-- ===== src/BlockingWait/Tests.antt =====
-- A thread that sleeps before the state is executed.
use portable_concurrency.Prelude.{◌≡◌, true, false, refl}
use portable_concurrency.BlockingWait.{
  BlockingWait, asleep, stored, over, returned, wait_step, call_step, complete, init, Reach, start,
  waits, calls, completes,
}
use portable_concurrency.BlockingWait.Returned.{run, returned_after_call, wait_returns}

abbrev sleeping : BlockingWait
sleeping = wait_step (wait_step (wait_step (init false)))

sleeping-place : (sleeping.waiter ≡ asleep) × (sleeping.call ≡ stored)
unfolding wait_step
sleeping-place = (refl, refl)

sleeping-Reach : Reach sleeping
sleeping-Reach = waits (waits (waits (start false)))

abbrev woken_up : BlockingWait
woken_up =
    wait_step
      (wait_step (call_step (call_step (call_step (call_step (call_step (complete sleeping)))))))

woken_up-Reach : Reach woken_up
woken_up-Reach = waits (waits (calls (calls (calls (calls (calls (completes sleeping-Reach)))))))

returned_after_call_example : (woken_up.executed ≡ true) × (woken_up.call ≡ over)
unfolding wait_step call_step complete
returned_after_call_example = returned_after_call woken_up-Reach refl

wait_returns_example : (run 7 (complete sleeping)).waiter ≡ returned
unfolding complete
wait_returns_example = wait_returns (completes sleeping-Reach) refl
