-- ===== src/WhenAll.antt =====
-- bits/when_all.h: `when_all_state`, whose inputs become ready on any threads.
mod Counting
pub mod Ready
mod Tests
use portable_concurrency.Prelude.{
  ℕ, zero, suc, ◌+◌, ◌-◌, Bool, true, false, ltb, if◌then◌else◌, update,
}

-- An input, with the call of `notify` in its continuation.
pub data Input : Type 0 where
  waiting : Input
  ready : Input  -- before its continuation is pushed, which is then called in place
  calling : Input  -- in `notify`, before `--operations_remains_`
  last : Input  -- has found zero, before `continuations_.execute()`
  over : Input

-- The call of `notify` that `make` ends with counts as an input, the one with the number `size`.
pub record WhenAll : Type 0 where
  pub size : ℕ
  pub inputs : ℕ → Input
  pub pushed : ℕ  -- how far `for_each` in `make` has come
  pub operations_remains : ℕ
  pub executions : ℕ  -- calls of `continuations_.execute()`

abbrev pub put : WhenAll → ℕ → Input → WhenAll
put s i x = record s { inputs = update s.inputs i x }

-- The future `i` becomes ready.
abbrev pub complete_input : WhenAll → ℕ → Input → WhenAll
complete_input s i waiting = put s i (if ltb i s.pushed then calling else ready)
complete_input s i _ = s

unfoldable pub complete : WhenAll → ℕ → WhenAll
complete s i = if ltb i s.size then complete_input s i (s.inputs i) else s

-- `push` on the continuations of the next future.
abbrev pub push_on : WhenAll → ℕ → Input → WhenAll
push_on s i ready = put (record s { pushed = suc i }) i calling
push_on s i _ = record s { pushed = suc i }

-- A step of `make`: the next turn of `for_each`, and after the last one `state->notify()`.
abbrev pub make_at : WhenAll → ℕ → WhenAll
make_at s i =
    if ltb i s.size
    then push_on s i (s.inputs i)
    else (if ltb s.size i then s else put (record s { pushed = suc i }) i calling)

unfoldable pub make_step : WhenAll → WhenAll
make_step s = make_at s s.pushed

abbrev pub after_decrement : WhenAll → ℕ → ℕ → WhenAll
after_decrement s i zero = put (record s { operations_remains = 0 }) i last
after_decrement s i (suc k) = put (record s { operations_remains = suc k }) i over

abbrev pub notify_input : WhenAll → ℕ → Input → WhenAll
notify_input s i calling = after_decrement s i (s.operations_remains - 1)
notify_input s i last = put (record s { executions = suc s.executions }) i over
notify_input s i _ = s

-- A step of the call of `notify` for the input `i`: the decrement, and then the execution.
unfoldable pub notify_step : WhenAll → ℕ → WhenAll
notify_step s i = notify_input s i (s.inputs i)

-- `when_all_state(Sequence&&)` with futures that are not ready; those that are become ready next.
abbrev pub init : ℕ → WhenAll
init n = record {
  size = n;
  inputs = λ _. waiting;
  pushed = 0;
  operations_remains = suc n;
  executions = 0;
}

-- Any interleaving.
pub data Reach : WhenAll → Type 0 where
  start : (n : ℕ) → Reach (init n)
  completes : {s : WhenAll} (i : ℕ) → Reach s → Reach (complete s i)
  makes : {s : WhenAll} → Reach s → Reach (make_step s)
  notifies : {s : WhenAll} (i : ℕ) → Reach s → Reach (notify_step s i)
