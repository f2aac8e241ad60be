-- ===== src/BlockingWait/Returned.antt =====
-- When the wait returns, and that it does.
use portable_concurrency.Prelude.{ℕ, zero, suc, ◌≡◌, refl, ap, subst, Bool, true, false, arith}
use portable_concurrency.BlockingWait.{
  Waiter, pushing, calling, locking, testing, asleep, woken, returned, Call, absent, stored,
  entering, set, notified, over, BlockingWait, wait_step, call_step, complete, wake_spuriously,
  Reach, start, waits, calls, completes, rouses,
}

abbrev ready_by : Call → Bool
ready_by set = true
ready_by notified = true
ready_by over = true
ready_by _ = false

abbrev executed_by : Call → Bool
executed_by absent = false
executed_by stored = false
executed_by _ = true

-- Where the call may be, by the place of the waiting thread.
abbrev fits : Waiter → Call → Bool
fits pushing absent = true
fits pushing _ = false
fits calling absent = false
fits calling stored = false
fits calling _ = true
fits locking absent = false
fits locking _ = true
fits testing stored = true
fits testing entering = true
fits testing over = true
fits testing _ = false
fits asleep absent = false
fits asleep notified = false
fits asleep over = false
fits asleep _ = true
fits woken absent = false
fits woken _ = true
fits returned over = true
fits returned _ = false

record Inv (s : BlockingWait) : Type 0 where
  ready : s.ready ≡ ready_by s.call
  fits : fits s.waiter s.call ≡ true
  executed : executed_by s.call ≡ true → s.executed ≡ true

wait_step-Inv : (s : BlockingWait) → Inv s → Inv (wait_step s)
unfolding wait_step
wait_step-Inv s h = record {
  ready = ground (arith, h.ready, h.fits);
  fits = ground (arith, h.ready, h.fits);
  executed = ground (arith, h.ready, h.fits, h.executed);
}

call_step-Inv : (s : BlockingWait) → Inv s → Inv (call_step s)
unfolding call_step
call_step-Inv s h = record {
  ready = ground (arith, h.ready, h.fits);
  fits = ground (arith, h.ready, h.fits);
  executed = ground (arith, h.ready, h.fits, h.executed);
}

complete-Inv : (s : BlockingWait) → Inv s → Inv (complete s)
unfolding complete
complete-Inv s h = record { ready = h.ready; fits = h.fits; executed = λ e. refl }

wake_spuriously-Inv : (s : BlockingWait) → Inv s → Inv (wake_spuriously s)
unfolding wake_spuriously
wake_spuriously-Inv s h = record {
  ready = h.ready;
  fits = ground (arith, h.fits);
  executed = h.executed;
}

Reach-Inv : {s : BlockingWait} → Reach s → Inv s
Reach-Inv (start b) = record { ready = refl; fits = refl; executed = λ e. absurd (cc (e)) }
Reach-Inv (waits {s} r) = wait_step-Inv s (Reach-Inv r)
Reach-Inv (calls {s} r) = call_step-Inv s (Reach-Inv r)
Reach-Inv (completes {s} r) = complete-Inv s (Reach-Inv r)
Reach-Inv (rouses {s} r) = wake_spuriously-Inv s (Reach-Inv r)

fits-returned : (c : Call) → fits returned c ≡ true → c ≡ over
fits-returned c h = ground (arith, h)

-- When `wait` has returned, the continuations of the state are executed, and the call of the
-- notification is over, so that nothing refers to the locals of `wait` any more.
pub returned_after_call :
    {s : BlockingWait} → Reach s → s.waiter ≡ returned → (s.executed ≡ true) × (s.call ≡ over)
returned_after_call {s} r e =
    let h = Reach-Inv r in
    let o : s.call ≡ over = fits-returned s.call (subst (λ w. fits w s.call ≡ true) e h.fits) in
    (h.executed (ap executed_by o), o)

-- The two threads in turn, `n` times.
pub run : ℕ → BlockingWait → BlockingWait
unfolding wait_step call_step
run zero s = s
run (suc n) s = run n (wait_step (call_step s))

run_at :
    (r e : Bool) (w : Waiter) (c : Call)
    → e ≡ true
    → r ≡ ready_by c
    → fits w c ≡ true
    → (run 7 (record { executed = e; ready = r; waiter = w; call = c })).waiter ≡ returned
unfolding run
run_at r e w c h k f = ground (arith, h, k, f)

-- Once the continuations of the state are executed, `wait` returns, from wherever any interleaving
-- has brought the two threads: seven more steps of each in turn are enough. No wake-up is lost.
pub wait_returns : {s : BlockingWait} → Reach s → s.executed ≡ true → (run 7 s).waiter ≡ returned
wait_returns {s} r e =
    let h = Reach-Inv r in run_at s.ready s.executed s.waiter s.call e h.ready h.fits
