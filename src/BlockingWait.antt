-- ===== src/BlockingWait.antt =====
-- `detail::wait` of bits/portable_concurrency.cpp, which `wait` and `get` of a future call: a mutex,
-- a condition variable and a flag on the stack of the waiting thread, which the notification that
-- it pushes refers to.
pub mod Returned
mod Tests
use portable_concurrency.Prelude.{ℕ, zero, suc, Bool, true, false, not, ◌&&◌, ◌||◌, if◌then◌else◌}

-- The waiting thread. It holds the mutex while it is `testing`, and in no other place here.
pub data Waiter : Type 0 where
  pushing : Waiter  -- before `state.push`
  calling : Waiter  -- in its own call of the notification, since the state was executed
  locking : Waiter  -- before `unique_lock`
  testing : Waiter  -- in `cv.wait`, before it reads `ready`
  asleep : Waiter
  woken : Waiter  -- before `cv.wait` locks again
  returned : Waiter  -- the locals are gone

-- The call of the notification. It holds the mutex from `holding` to `notified`.
pub data Call : Type 0 where
  absent : Call
  stored : Call  -- in the continuations of the state
  entering : Call  -- before `lock_guard`
  holding : Call  -- before `ready = true`
  set : Call  -- before `cv.notify_one()`
  notified : Call  -- before the end of `guard`
  over : Call

pub record BlockingWait : Type 0 where
  pub executed : Bool  -- the continuations of the state are
  pub ready : Bool
  pub waiter : Waiter
  pub call : Call

abbrev pub holds_mutex : Call → Bool
holds_mutex holding = true
holds_mutex set = true
holds_mutex notified = true
holds_mutex _ = false

-- `state.push`: the notification is stored, or called in place.
abbrev pub push_on : BlockingWait → Bool → BlockingWait
push_on s true = record s { waiter = calling; call = entering }
push_on s false = record s { waiter = locking; call = stored }

abbrev pub after_call : BlockingWait → Call → BlockingWait
after_call s over = record s { waiter = locking }
after_call s _ = s

abbrev pub lock : BlockingWait → BlockingWait
lock s = if holds_mutex s.call then s else record s { waiter = testing }

-- `cv.wait(lk, [&] { return ready; })` with the mutex, and the end of the function where it returns.
abbrev pub test_ready : BlockingWait → Bool → BlockingWait
test_ready s true = record s { waiter = returned }
test_ready s false = record s { waiter = asleep }

abbrev pub wait_at : BlockingWait → Waiter → BlockingWait
wait_at s pushing = push_on s s.executed
wait_at s calling = after_call s s.call
wait_at s locking = lock s
wait_at s testing = test_ready s s.ready
wait_at s asleep = s
wait_at s woken = lock s
wait_at s returned = s

-- The next step of the waiting thread.
unfoldable pub wait_step : BlockingWait → BlockingWait
wait_step s = wait_at s s.waiter

abbrev pub enter : BlockingWait → Waiter → BlockingWait
enter s testing = s
enter s _ = record s { call = holding }

abbrev pub wake : Waiter → Waiter
wake asleep = woken
wake w = w

abbrev pub call_at : BlockingWait → Call → BlockingWait
call_at s absent = s
call_at s stored = if s.executed then record s { call = entering } else s
call_at s entering = enter s s.waiter
call_at s holding = record s { ready = true; call = set }
call_at s set = record s { waiter = wake s.waiter; call = notified }
call_at s notified = record s { call = over }
call_at s over = s

-- The next step of the notification, which the execution of the continuations calls.
unfoldable pub call_step : BlockingWait → BlockingWait
call_step s = call_at s s.call

unfoldable pub complete : BlockingWait → BlockingWait
complete s = record s { executed = true }

unfoldable pub wake_spuriously : BlockingWait → BlockingWait
wake_spuriously s = record s { waiter = wake s.waiter }

abbrev pub init : Bool → BlockingWait
init executed = record { executed = executed; ready = false; waiter = pushing; call = absent }

-- Any interleaving.
pub data Reach : BlockingWait → Type 0 where
  start : (executed : Bool) → Reach (init executed)
  waits : {s : BlockingWait} → Reach s → Reach (wait_step s)
  calls : {s : BlockingWait} → Reach s → Reach (call_step s)
  completes : {s : BlockingWait} → Reach s → Reach (complete s)
  rouses : {s : BlockingWait} → Reach s → Reach (wake_spuriously s)
