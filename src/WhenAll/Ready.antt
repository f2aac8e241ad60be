-- ===== src/WhenAll/Ready.antt =====
-- The state of `when_all` is executed when its inputs are ready, and once.
use portable_concurrency.Prelude.{
  false, ◌∙◌, ℕ, zero, suc, ◌+◌, ◌≡◌, ◌≢◌, ◌≤◌, refl, ap, count-none, count-all_false, arith,
}
use portable_concurrency.WhenAll.{WhenAll, Input, over, waiting, ready, calling, last, Reach}
use portable_concurrency.WhenAll.Counting.{is_pending, is_last, zero_test, Reach-Inv}

neither_over : (x : Input) → is_pending x ≡ false → is_last x ≡ false → x ≡ over
neither_over over p q = refl
neither_over waiting p q = absurd (cc)
neither_over ready p q = absurd (cc)
neither_over calling p q = absurd (cc)
neither_over last p q = absurd (cc)

executed_counts : (e r c : ℕ) → e + c ≡ zero_test r → e ≢ 0 → (r ≡ 0) × (c ≡ 0) × (e ≡ 1)
executed_counts e zero c h n = omega (arith, h, n)
executed_counts e (suc r) c h n = absurd (omega (arith, h, n))

-- Once the state is executed, each input is ready and has called `notify`, as has `make`, and all
-- these calls are over; and it is executed once.
pub executed_all_over :
    {s : WhenAll}
    → Reach s
    → s.executions ≢ 0
    → (s.executions ≡ 1) × ((i : ℕ) → i ≤ s.size → s.inputs i ≡ over)
executed_all_over {s} r n =
    let inv = Reach-Inv r in
    let c = executed_counts s.executions s.operations_remains _ inv.executions n in
    (
      c.2,
      λ i l.
          neither_over (s.inputs i)
            (count-none is_pending (suc s.size) s.inputs (omega (arith, inv.remains, c.0)) i
              (omega (arith, l)))
            (count-none is_last (suc s.size) s.inputs c.1 i (omega (arith, l))),
    )

-- When the calls of `notify` for all inputs, and that of `make`, are over, the state is executed.
pub all_over_executed :
    {s : WhenAll} → Reach s → ((i : ℕ) → i ≤ s.size → s.inputs i ≡ over) → s.executions ≡ 1
all_over_executed {s} r h =
    let inv = Reach-Inv r in
    omega (
      arith,
      inv.executions,
      ap zero_test (
          inv.remains
          ∙ count-all_false is_pending (suc s.size) s.inputs
              (λ i l. ap is_pending (h i (omega (arith, l))))),
      count-all_false is_last (suc s.size) s.inputs (λ i l. ap is_last (h i (omega (arith, l)))),
    )
