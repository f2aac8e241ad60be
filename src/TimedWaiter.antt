-- ===== src/TimedWaiter.antt =====
-- bits/timed_waiter.h: calls of `wait_for` or `wait_until` on one waiter, which its copies share,
-- and the notification that the constructor attaches to a future.
pub mod Notified
mod Tests
use portable_concurrency.Prelude.{ℕ, ◌≡◌, Bool, true, false, if◌then◌else◌, update}

-- The notification: before it has run, between its unlock and its `notify_all`, and after it.
pub data Notification : Type 0 where
  unsent : Notification
  marked : Notification
  finished : Notification

pub data Call : Type 0 where
  outside : Call
  asleep : Call  -- on `cv`
  woken : Call  -- before it tests `notified` again
  ready : Call  -- has returned `future_status::ready`
  timeout : Call  -- has returned `future_status::timeout`

pub record Waiter : Type 0 where
  pub notified : Bool
  pub notification : Notification
  pub calls : ℕ → Call

abbrev pub put : Waiter → ℕ → Call → Waiter
put s i c = record s { calls = update s.calls i c }

abbrev pub send_from : Waiter → Notification → Waiter
send_from s unsent = record s { notified = true; notification = marked }
send_from s marked = record s {
  notification = finished;
  calls = λ i. elim (s.calls i) [ asleep ↦ woken | c ↦ c ];
}
send_from s finished = s

-- A step of the notification: the assignment under the lock, and `notify_all`.
unfoldable pub send_step : Waiter → Waiter
send_step s = send_from s s.notification

abbrev pub wait_from : Waiter → ℕ → Call → Waiter
wait_from s i outside = put s i (if s.notified then ready else asleep)
wait_from s i woken = put s i (if s.notified then ready else asleep)
wait_from s i _ = s

-- A step of a call of `wait_for`: its test of `notified`, at the start or when it is woken.
unfoldable pub wait_step : Waiter → ℕ → Waiter
wait_step s i = wait_from s i (s.calls i)

abbrev pub expire_from : Waiter → ℕ → Call → Waiter
expire_from s i asleep = put s i (if s.notified then ready else timeout)
expire_from s i woken = put s i (if s.notified then ready else timeout)
expire_from s i _ = s

-- The time of a call is over: it returns what the test says.
unfoldable pub expire : Waiter → ℕ → Waiter
expire s i = expire_from s i (s.calls i)

abbrev pub wake_from : Waiter → ℕ → Call → Waiter
wake_from s i asleep = put s i woken
wake_from s i _ = s

-- A spurious wake-up.
unfoldable pub wake : Waiter → ℕ → Waiter
wake s i = wake_from s i (s.calls i)

abbrev pub init : Waiter
init = record { notified = false; notification = unsent; calls = λ _. outside }

-- Any interleaving.
pub data Reach : Waiter → Type 0 where
  start : Reach init
  sends : {s : Waiter} → Reach s → Reach (send_step s)
  waits : {s : Waiter} (i : ℕ) → Reach s → Reach (wait_step s i)
  expires : {s : Waiter} (i : ℕ) → Reach s → Reach (expire s i)
  wakes : {s : Waiter} (i : ℕ) → Reach s → Reach (wake s i)
