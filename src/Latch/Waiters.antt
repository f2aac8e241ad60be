-- ===== src/Latch/Waiters.antt =====
-- `waiters_` counts the threads that wait, and nobody passes before the counter is zero.
use portable_concurrency.Prelude.{
  ℕ, zero, suc, ◌+◌, ◌-◌, ◌≡◌, ◌≢◌, ◌<◌, refl, sym, ap, ◌∙◌, subst, Bool, true, false, none, some,
  ltb, if◌then◌else◌, update-here, update-there, count, count-update, count-none, count-all_false,
  one_if, ℕ_discrete, arith,
}
use mathlib.Core.Option.{some-injective}
use portable_concurrency.Latch.{
  Latch, Caller, outside, waiting, notifying, passed, put, lowered, count_down, end_count_down,
  begin_wait, arrived, count_down_and_wait, test_counter, end_wait, test_waiters, destroy, Reach,
  start, counts_down, notifies, waits, arrives, wakes, destroys,
}

abbrev pub is_waiting : Caller → Bool
is_waiting waiting = true
is_waiting _ = false

pub record Inv (s : Latch) : Type 0 where
  pub waiters : s.waiters ≡ count is_waiting s.threads s.callers
  pub passes : (i : ℕ) → s.callers i ≡ passed → s.counter ≡ 0
  pub alone : s.destroyed ≡ true → s.waiters ≡ 0

-- The thread `i` goes from `y` to `x`.
changed-Inv :
    (s : Latch) (i : ℕ) (x y : Caller) (n w : ℕ)
    → i < s.threads
    → s.callers i ≡ y
    → w + one_if (is_waiting y) ≡ s.waiters + one_if (is_waiting x)
    → (s.counter ≡ 0 → n ≡ 0)
    → (x ≡ passed → n ≡ 0)
    → (s.destroyed ≡ true → s.waiters ≡ 0 → w ≡ 0)
    → Inv s
    → Inv (put (record s { counter = n; waiters = w }) i x)
changed-Inv s i x y n w l e d z p a inv = record {
  waiters = omega (
    arith,
    count-update is_waiting s.threads s.callers i x l,
    ap (λ c. one_if (is_waiting c)) e,
    d,
    inv.waiters,
  );
  passes = λ j h. elim (ℕ_discrete i j) [
    | yes same ↦ p (sym (update-here s.callers i x j same) ∙ h)
    | no other ↦ z (inv.passes j (sym (update-there s.callers i x j other) ∙ h))
  ];
  alone = λ h. a h (inv.alone h);
}

lowered-Inv :
    (s : Latch) (n i k : ℕ)
    → i < s.threads
    → s.callers i ≡ outside
    → s.counter - n ≡ k
    → Inv s
    → Inv (lowered s i k)
lowered-Inv s n i zero l e k inv =
    changed-Inv s i notifying outside 0 s.waiters l e refl (λ _. refl) (λ h. refl) (λ _ h. h) inv
lowered-Inv s n i (suc k) l e h inv = record {
  waiters = inv.waiters;
  passes = λ j p. absurd (omega (arith, h, inv.passes j p));
  alone = inv.alone;
}

asserted-Inv :
    (s t : Latch) (n i : ℕ) (b : Bool)
    → i < s.threads
    → s.callers i ≡ outside
    → (if b then none else some (lowered s i (s.counter - n))) ≡ some t
    → Inv s
    → Inv t
asserted-Inv s t n i true l e h inv = absurd (cc h)
asserted-Inv s t n i false l e h inv =
    subst (λ o. Inv o) (some-injective _ t h) (lowered-Inv s n i (s.counter - n) l e refl inv)

arrived-Inv :
    (s t : Latch) (i k : ℕ)
    → i < s.threads
    → s.destroyed ≡ false
    → s.callers i ≡ outside
    → s.counter ≡ k
    → arrived s i k ≡ some t
    → Inv s
    → Inv t
arrived-Inv s t i zero l d e k h inv = absurd (cc h)
arrived-Inv s t i (suc zero) l d e k h inv =
    subst (λ o. Inv o) (some-injective _ t h)
      (changed-Inv s i passed outside 0 s.waiters l e refl (λ _. refl) (λ h. refl) (λ _ h. h) inv)
arrived-Inv s t i (suc (suc k)) l d e c h inv =
    subst (λ o. Inv o) (some-injective _ t h)
      (changed-Inv s i waiting outside (suc k) (suc s.waiters) l e (omega arith)
        (λ z. omega (arith, z, c)) (λ h. absurd (cc)) (λ g _. absurd (cc (g, d))) inv)

test_counter-Inv :
    (s : Latch) (i k : ℕ)
    → i < s.threads
    → s.callers i ≡ waiting
    → s.counter ≡ k
    → Inv s
    → Inv (test_counter s i k)
test_counter-Inv s i zero l e k inv =
    changed-Inv s i passed waiting s.counter (s.waiters - 1) l e
      (omega (
        arith,
        count-update is_waiting s.threads s.callers i outside l,
        ap (λ c. one_if (is_waiting c)) e,
        inv.waiters,
      ))
      (λ h. h) (λ _. k) (λ _ h. omega (arith, h)) inv
test_counter-Inv s i (suc k) l e c inv = inv

test_waiters-Inv : (s : Latch) (k : ℕ) → s.waiters ≡ k → Inv s → Inv (test_waiters s k)
test_waiters-Inv s zero h inv = record {
  waiters = inv.waiters;
  passes = inv.passes;
  alone = λ _. h;
}
test_waiters-Inv s (suc k) h inv = inv

Reach-Inv : {s : Latch} → Reach s → Inv s
unfolding count_down end_count_down begin_wait count_down_and_wait end_wait destroy
Reach-Inv (start n threads) = record {
  waiters = sym (count-all_false is_waiting threads (λ _. outside) (λ i l. refl));
  passes = λ i h. absurd (cc h);
  alone = λ h. refl;
}
Reach-Inv (counts_down {s} n i r l d e h) =
    asserted-Inv s _ n i (ltb s.counter n) l e h (Reach-Inv r)
Reach-Inv (notifies {s} i r l e) =
    changed-Inv s i outside notifying s.counter s.waiters l e refl (λ h. h) (λ h. absurd (cc h))
      (λ _ h. h) (Reach-Inv r)
Reach-Inv (waits {s} i r l d e) =
    changed-Inv s i waiting outside s.counter (suc s.waiters) l e (omega arith) (λ h. h)
      (λ h. absurd (cc h)) (λ g _. absurd (cc (g, d))) (Reach-Inv r)
Reach-Inv (arrives {s} i r l d e h) = arrived-Inv s _ i s.counter l d e refl h (Reach-Inv r)
Reach-Inv (wakes {s} i r l e) = test_counter-Inv s i s.counter l e refl (Reach-Inv r)
Reach-Inv (destroys {s} r) = test_waiters-Inv s s.waiters refl (Reach-Inv r)

waiting_is : (c : Caller) → is_waiting c ≡ false → c ≢ waiting
waiting_is c h e = absurd (cc (h, ap is_waiting e))

-- A latch that is destroyed has no thread in `wait` or `count_down_and_wait`.
pub destroyed_without_waiters :
    {s : Latch} (i : ℕ) → Reach s → s.destroyed ≡ true → i < s.threads → s.callers i ≢ waiting
destroyed_without_waiters {s} i r d l =
    let inv = Reach-Inv r in
    waiting_is (s.callers i)
      (count-none is_waiting s.threads s.callers (sym inv.waiters ∙ inv.alone d) i l)

-- A thread that has returned from `wait` or `count_down_and_wait` finds the latch at zero.
pub passed_at_zero : {s : Latch} (i : ℕ) → Reach s → s.callers i ≡ passed → s.counter ≡ 0
passed_at_zero i r h = (Reach-Inv r).passes i h
