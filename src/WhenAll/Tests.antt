-- ===== src/WhenAll/Tests.antt =====
-- One future, which is ready before `make` comes to it.
use portable_concurrency.Prelude.{ℕ, zero, suc, ◌≡◌, ◌≢◌, ◌≤◌, refl, arith, ℕ_discrete}
use portable_concurrency.WhenAll.{
  WhenAll, over, complete, make_step, notify_step, init, Reach, start, completes, makes, notifies,
}
use portable_concurrency.WhenAll.Ready.{executed_all_over, all_over_executed}

abbrev executed : WhenAll
executed =
    notify_step (notify_step (notify_step (make_step (make_step (complete (init 1) 0))) 0) 1) 1

executed-Reach : Reach executed
executed-Reach = notifies 1 (notifies 1 (notifies 0 (makes (makes (completes 0 (start 1))))))

executed-one : executed.executions ≡ 1
unfolding notify_step make_step complete ℕ_discrete
executed-one = refl

executions-nonzero : executed.executions ≢ 0
executions-nonzero e = omega (arith, executed-one, e)

all_over : (i : ℕ) → i ≤ 1 → executed.inputs i ≡ over
unfolding notify_step make_step complete ℕ_discrete
all_over zero h = refl
all_over (suc zero) h = refl
all_over (suc (suc i)) h = absurd (omega (arith, h))

executed_all_over_example :
    (executed.executions ≡ 1) × ((i : ℕ) → i ≤ executed.size → executed.inputs i ≡ over)
executed_all_over_example = executed_all_over executed-Reach executions-nonzero

all_over_executed_example : executed.executions ≡ 1
unfolding notify_step make_step complete ℕ_discrete
all_over_executed_example = all_over_executed executed-Reach all_over
