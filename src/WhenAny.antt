-- ===== src/WhenAny.antt =====
-- bits/when_any.h: `when_any_state`, whose inputs become ready on any threads.
mod Winner
pub mod First
mod Tests
use portable_concurrency.Prelude.{
  ℕ, zero, suc, Bool, true, false, Option, none, some, ltb, if◌then◌else◌, update,
}

-- An input, with the call of `notify` in its continuation.
pub data Input : Type 0 where
  waiting : Input
  ready : Input  -- before its continuation is pushed, which is then called in place
  calling : Input  -- in `notify`, before `ready_flag_.test_and_set()`
  setting : Input  -- has found the flag clear, before `result_.index = pos`
  executing : Input  -- before `continuations_.execute()`
  over : Input

-- No index stands for `size_t(-1)`.
pub record WhenAny : Type 0 where
  pub size : ℕ
  pub inputs : ℕ → Input
  pub pushed : ℕ  -- how far `for_each` in `make` has come
  pub ready_flag : Bool
  pub index : Option ℕ
  pub executions : ℕ  -- calls of `continuations_.execute()`

abbrev pub put : WhenAny → ℕ → Input → WhenAny
put s i x = record s { inputs = update s.inputs i x }

-- The future `i` becomes ready.
abbrev pub complete_input : WhenAny → ℕ → Input → WhenAny
complete_input s i waiting = put s i (if ltb i s.pushed then calling else ready)
complete_input s i _ = s

unfoldable pub complete : WhenAny → ℕ → WhenAny
complete s i = if ltb i s.size then complete_input s i (s.inputs i) else s

-- `push` on the continuations of the next future.
abbrev pub push_on : WhenAny → ℕ → Input → WhenAny
push_on s i ready = put (record s { pushed = suc i }) i calling
push_on s i _ = record s { pushed = suc i }

-- `if (idx == 0) state->continuations_.execute();`
abbrev pub end_make : WhenAny → ℕ → WhenAny
end_make s zero = record s { pushed = 1; executions = suc s.executions }
end_make s (suc k) = record s { pushed = suc (suc k) }

-- A step of `make`: the next turn of `for_each`, or what follows the last one.
abbrev pub make_at : WhenAny → ℕ → WhenAny
make_at s i =
    if ltb i s.size then push_on s i (s.inputs i) else (if ltb s.size i then s else end_make s i)

unfoldable pub make_step : WhenAny → WhenAny
make_step s = make_at s s.pushed

abbrev pub test_and_set : WhenAny → ℕ → Bool → WhenAny
test_and_set s i true = put s i over
test_and_set s i false = put (record s { ready_flag = true }) i setting

abbrev pub notify_input : WhenAny → ℕ → Input → WhenAny
notify_input s i calling = test_and_set s i s.ready_flag
notify_input s i setting = put (record s { index = some i }) i executing
notify_input s i executing = put (record s { executions = suc s.executions }) i over
notify_input s i _ = s

-- A step of the call of `notify` for the input `i`.
unfoldable pub notify_step : WhenAny → ℕ → WhenAny
notify_step s i = notify_input s i (s.inputs i)

abbrev pub init : ℕ → WhenAny
init n = record {
  size = n;
  inputs = λ _. waiting;
  pushed = 0;
  ready_flag = false;
  index = none;
  executions = 0;
}

-- Any interleaving.
pub data Reach : WhenAny → Type 0 where
  start : (n : ℕ) → Reach (init n)
  completes : {s : WhenAny} (i : ℕ) → Reach s → Reach (complete s i)
  makes : {s : WhenAny} → Reach s → Reach (make_step s)
  notifies : {s : WhenAny} (i : ℕ) → Reach s → Reach (notify_step s i)
