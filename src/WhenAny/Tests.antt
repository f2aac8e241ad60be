-- ===== src/WhenAny/Tests.antt =====
-- Two futures; the second one is ready first, and the first one is late.
use portable_concurrency.Prelude.{
  ℕ, zero, suc, ◌≡◌, ◌≢◌, ◌<◌, ◌⊎◌, false, none, some, refl, arith, ℕ_discrete,
}
use portable_concurrency.WhenAny.{
  WhenAny, over, complete, make_step, notify_step, init, Reach, start, completes, makes, notifies,
}
use portable_concurrency.WhenAny.Winner.{is_winning}
use portable_concurrency.WhenAny.First.{executed_with_index, over_executed}

abbrev second_first : WhenAny
second_first =
    notify_step
      (notify_step
        (notify_step (complete (complete (make_step (make_step (make_step (init 2)))) 1) 0) 1) 1)
      1

abbrev both : WhenAny
both = notify_step second_first 0

second_first-Reach : Reach second_first
second_first-Reach =
    notifies 1
      (notifies 1 (notifies 1 (completes 0 (completes 1 (makes (makes (makes (start 2))))))))

second_first-one : second_first.executions ≡ 1
unfolding notify_step make_step complete ℕ_discrete
second_first-one = refl

second_first-nonzero : second_first.executions ≢ 0
second_first-nonzero e = omega (arith, second_first-one, e)

none_winning : (j : ℕ) → j < 2 → is_winning (both.inputs j) ≡ false
unfolding notify_step make_step complete ℕ_discrete
none_winning zero h = refl
none_winning (suc zero) h = refl
none_winning (suc (suc j)) h = absurd (omega (arith, h))

executed_with_index_example :
    (second_first.executions ≡ 1)
    × (((second_first.size ≡ 0) × (second_first.index ≡ none))
        ⊎ ((p : ℕ) × (p < second_first.size)
            × (second_first.index ≡ some p)
            × (second_first.inputs p ≡ over)))
executed_with_index_example = executed_with_index second_first-Reach second_first-nonzero

over_executed_example : both.executions ≡ 1
unfolding notify_step make_step complete ℕ_discrete
over_executed_example = over_executed 0 (notifies 0 second_first-Reach) refl none_winning
