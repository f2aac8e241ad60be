-- ===== src/TimedWaiter/Tests.antt =====
-- Call 0 sleeps, the notification comes, and call 1 arrives between its two steps.
use portable_concurrency.Prelude.{◌≡◌, ◌≢◌, refl, ℕ_discrete}
use portable_concurrency.TimedWaiter.{
  Waiter, unsent, asleep, woken, send_step, wait_step, init, Reach, start, sends, waits,
}
use portable_concurrency.TimedWaiter.Notified.{finished_none_asleep, ready_after_notification}

abbrev two_calls : Waiter
two_calls = wait_step (send_step (wait_step init 0)) 1

abbrev over : Waiter
over = send_step two_calls

two_calls-Reach : Reach two_calls
two_calls-Reach = waits 1 (sends (waits 0 start))

first_woken : over.calls 0 ≡ woken
unfolding send_step wait_step ℕ_discrete
first_woken = refl

finished_none_asleep_example : over.calls 0 ≢ asleep
unfolding send_step wait_step ℕ_discrete
finished_none_asleep_example = finished_none_asleep 0 (sends two_calls-Reach) refl

ready_after_notification_example : two_calls.notification ≢ unsent
unfolding send_step wait_step ℕ_discrete
ready_after_notification_example = ready_after_notification 1 two_calls-Reach refl
