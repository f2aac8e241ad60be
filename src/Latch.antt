-- ===== src/Latch.antt =====
-- bits/latch.h, and `latch` in bits/portable_concurrency.cpp. Each function is what a thread does
-- while it holds the mutex.
pub mod Waiters
mod Tests
use portable_concurrency.Prelude.{
  ℕ, zero, suc, ◌-◌, ◌<◌, ◌≡◌, Bool, true, false, Option, none, some, ltb, if◌then◌else◌, update,
}

-- A thread, by the call that it is in.
pub data Caller : Type 0 where
  outside : Caller
  waiting : Caller  -- in `wait` or `count_down_and_wait`, on `cv_`
  notifying : Caller  -- in `count_down`, before the `notify_all` that follows the unlock
  passed : Caller  -- has returned from `wait` or `count_down_and_wait`

pub record Latch : Type 0 where
  pub counter : ℕ
  pub waiters : ℕ
  pub threads : ℕ
  pub callers : ℕ → Caller
  pub destroyed : Bool

abbrev pub put : Latch → ℕ → Caller → Latch
put s i c = record s { callers = update s.callers i c }

abbrev pub lowered : Latch → ℕ → ℕ → Latch
lowered s i zero = put (record s { counter = 0 }) i notifying
lowered s i (suc k) = record s { counter = suc k }

-- None where an assertion fails.
unfoldable pub count_down : ℕ → Latch → ℕ → Option Latch
count_down n s i = if ltb s.counter n then none else some (lowered s i (s.counter - n))

-- `cv_.notify_all()` after the mutex is unlocked.
unfoldable pub end_count_down : Latch → ℕ → Latch
end_count_down s i = put s i outside

-- `++waiters_`, and the wait.
unfoldable pub begin_wait : Latch → ℕ → Latch
begin_wait s i = put (record s { waiters = suc s.waiters }) i waiting

-- The last one to arrive leaves at once and wakes all.
abbrev pub arrived : Latch → ℕ → ℕ → Option Latch
arrived s i zero = none
arrived s i (suc zero) = some (put (record s { counter = 0 }) i passed)
arrived s i (suc (suc k)) =
    some (put (record s { counter = suc k; waiters = suc s.waiters }) i waiting)

unfoldable pub count_down_and_wait : Latch → ℕ → Option Latch
count_down_and_wait s i = arrived s i s.counter

-- The test of `cv_.wait`, and `--waiters_` once it holds.
abbrev pub test_counter : Latch → ℕ → ℕ → Latch
test_counter s i zero = put (record s { waiters = s.waiters - 1 }) i passed
test_counter s i (suc k) = s

unfoldable pub end_wait : Latch → ℕ → Latch
end_wait s i = test_counter s i s.counter

abbrev pub test_waiters : Latch → ℕ → Latch
test_waiters s zero = record s { destroyed = true }
test_waiters s (suc k) = s

-- `~latch`
unfoldable pub destroy : Latch → Latch
destroy s = test_waiters s s.waiters

unfoldable pub is_ready : Latch → Bool
is_ready s = if ltb 0 s.counter then false else true

abbrev pub init : ℕ → ℕ → Latch
init n threads = record {
  counter = n;
  waiters = 0;
  threads = threads;
  callers = λ _. outside;
  destroyed = false;
}

-- Any interleaving in which nobody calls a latch that is destroyed. A call that is under way goes
-- on whether it is or not.
pub data Reach : Latch → Type 0 where
  start : (n threads : ℕ) → Reach (init n threads)
  counts_down :
      {s t : Latch} (n i : ℕ)
      → Reach s
      → i < s.threads
      → s.destroyed ≡ false
      → s.callers i ≡ outside
      → count_down n s i ≡ some t
      → Reach t
  notifies :
      {s : Latch} (i : ℕ)
      → Reach s
      → i < s.threads
      → s.callers i ≡ notifying
      → Reach (end_count_down s i)
  waits :
      {s : Latch} (i : ℕ)
      → Reach s
      → i < s.threads
      → s.destroyed ≡ false
      → s.callers i ≡ outside
      → Reach (begin_wait s i)
  arrives :
      {s t : Latch} (i : ℕ)
      → Reach s
      → i < s.threads
      → s.destroyed ≡ false
      → s.callers i ≡ outside
      → count_down_and_wait s i ≡ some t
      → Reach t
  wakes :
      {s : Latch} (i : ℕ) → Reach s → i < s.threads → s.callers i ≡ waiting → Reach (end_wait s i)
  destroys : {s : Latch} → Reach s → Reach (destroy s)
