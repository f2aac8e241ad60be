-- ===== src/OnceStack/Tests.antt =====
-- Two pushes that interleave, an execution, and a push that comes too late.
use portable_concurrency.Prelude.{ℕ, ◌≡◌, List, [], ◌∷◌, reverse, refl, ℕ_discrete}
use portable_concurrency.OnceStack.{
  Event, pushed, taken, called, is_consumed, push_step, push_event, execute_step, execute_event,
  consume, rejected,
}
use portable_concurrency.OnceStack.Spec.{View, SpecRun}
use portable_concurrency.OnceStack.System.{
  System, begins_push, pushes, begins_execute, executes, Reach, start, next, init, begin_push,
  continue_push, begin_execute, continue_execute, IsOutside,
}
use portable_concurrency.OnceStack.Refinement.{
  Reach-SpecRun, execute_calls_pushed, is_draining, pushed_items, called_items,
}
use portable_concurrency.OnceStack.Progress.{push_returns_alone, run_alone}

-- Thread 0 pushes 10 from address 4 and thread 1 pushes 11 from address 7; thread 0 loads the head
-- first and thread 1 exchanges it first.
abbrev loaded : System ℕ
loaded = continue_push (continue_push (begin_push (begin_push init 0 4 10) 1 7 11) 0) 1

abbrev overtaken : System ℕ
overtaken = continue_push (continue_push loaded 1) 0

abbrev both_in : System ℕ
both_in = continue_push (continue_push overtaken 0) 0

abbrev in_consumption : System ℕ
in_consumption = begin_execute both_in

abbrev all_called : System ℕ
all_called = continue_execute (continue_execute (continue_execute in_consumption))

-- A third push begins after the consumption.
abbrev late : System ℕ
late = begin_push all_called 2 9 12

abbrev refused_late : System ℕ
refused_late = continue_push (continue_push late 2) 2

loaded-Reach : Reach [] loaded
unfolding push_step push_event ℕ_discrete
loaded-Reach =
    next
      (next (next (next start (begins_push 0 4 10 tt refl)) (begins_push 1 7 11 tt refl))
        (pushes 0))
      (pushes 1)

overtaken-Reach : Reach (pushed 11 ∷ []) overtaken
unfolding push_step push_event ℕ_discrete
overtaken-Reach = next (next loaded-Reach (pushes 1)) (pushes 0)

both_in-Reach : Reach (pushed 10 ∷ pushed 11 ∷ []) both_in
unfolding push_step push_event ℕ_discrete
both_in-Reach = next (next overtaken-Reach (pushes 0)) (pushes 0)

abbrev history : List (Event ℕ)
history = called 11 ∷ called 10 ∷ taken ∷ pushed 10 ∷ pushed 11 ∷ []

all_called-Reach : Reach (called 11 ∷ called 10 ∷ taken ∷ pushed 10 ∷ pushed 11 ∷ []) all_called
unfolding push_step push_event execute_step execute_event consume ℕ_discrete
all_called-Reach =
    next (next (next (next both_in-Reach (begins_execute refl)) executes) executes) executes

late-Reach : Reach (called 11 ∷ called 10 ∷ taken ∷ pushed 10 ∷ pushed 11 ∷ []) late
unfolding push_step push_event execute_step execute_event consume ℕ_discrete
late-Reach = next all_called-Reach (begins_push 2 9 12 tt refl)

-- The late item is not in the stack: its push hands it back, and it is called in place.
late_push : refused_late.producers 2 ≡ rejected 12
unfolding push_step execute_step consume ℕ_discrete
late_push = refl

Reach-SpecRun_example :
    (v : View ℕ) × SpecRun (pushed 10 ∷ pushed 11 ∷ []) v
    × (is_consumed both_in.mem ≡ is_draining v)
Reach-SpecRun_example = Reach-SpecRun both_in-Reach

execute_calls_pushed_example : called_items history ≡ reverse (pushed_items history)
unfolding push_step execute_step consume ℕ_discrete
execute_calls_pushed_example = execute_calls_pushed all_called-Reach refl

push_returns_alone_example : IsOutside (run_alone 4 overtaken.mem (overtaken.producers 0)).1
push_returns_alone_example = push_returns_alone 0 overtaken-Reach
