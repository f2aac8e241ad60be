-- ===== src/Prelude/Counts.antt =====
-- Sums over the first members of a family, and how many of them pass a test.
use Prim.Native.Nat.{ℕ, zero, suc, ◌+◌, ◌<◌, ◌≤◌}
use mathlib.Core.Path.{◌≡◌, refl, ap, ◌∙◌}
use mathlib.Core.Bool.{Bool, true, false}
use native.Mathlib.Omega.{arith}
use native.Mathlib.Decide.{ℕ_discrete}
use portable_concurrency.Prelude.Family.{update, update-here, update-there}

abbrev pub one_if : Bool → ℕ
one_if true = 1
one_if false = 0

module _ {ℓ} {A : Type ℓ} (weight : A → ℕ) where
  abbrev pub total : ℕ → (ℕ → A) → ℕ
  total zero f = 0
  total (suc n) f = weight (f n) + total n f

  pub total-above : (n : ℕ) (f : ℕ → A) (i : ℕ) (a : A) → n ≤ i → total n (update f i a) ≡ total n f
  total-above zero f i a h = refl
  total-above (suc n) f i a h =
      rw (update-there f i a n (λ e. omega (arith, e, h)), total-above n f i a (omega (arith, h)))
        refl

  -- One member changes.
  pub total-update :
      (n : ℕ) (f : ℕ → A) (i : ℕ) (a : A)
      → i < n
      → total n (update f i a) + weight (f i) ≡ total n f + weight a
  total-update zero f i a h = omega (arith, h)
  total-update (suc n) f i a h = elim (ℕ_discrete i n) [
    | yes e ↦ omega (
      arith,
      ap weight (update-here f i a n e),
      ap (λ k. weight (f k)) e,
      total-above n f i a (omega (arith, e)),
    )
    | no d ↦
        omega
          (arith, ap weight (update-there f i a n d), total-update n f i a (omega (arith, h, d)))
  ]

module _ {ℓ} {A : Type ℓ} (test : A → Bool) where
  abbrev pub count : ℕ → (ℕ → A) → ℕ
  count n f = total (λ a. one_if (test a)) n f

  pub count-update :
      (n : ℕ) (f : ℕ → A) (i : ℕ) (a : A)
      → i < n
      → count n (update f i a) + one_if (test (f i)) ≡ count n f + one_if (test a)
  count-update n f i a h = total-update (λ b. one_if (test b)) n f i a h

  one_if-absent : (b : Bool) → one_if b ≡ 0 → b ≡ false
  one_if-absent true e = absurd (omega (arith, e))
  one_if-absent false e = refl

  pub count-none : (n : ℕ) (f : ℕ → A) → count n f ≡ 0 → (i : ℕ) → i < n → test (f i) ≡ false
  count-none zero f e i h = absurd (omega (arith, h))
  count-none (suc n) f e i h = elim (ℕ_discrete i n) [
    | yes same ↦ ap (λ k. test (f k)) same ∙ one_if-absent (test (f n)) (omega (arith, e))
    | no other ↦ count-none n f (omega (arith, e)) i (omega (arith, h, other))
  ]

  pub count-all_false : (n : ℕ) (f : ℕ → A) → ((i : ℕ) → i < n → test (f i) ≡ false) → count n f ≡ 0
  count-all_false zero f h = refl
  count-all_false (suc n) f h =
      rw (h n (omega arith), count-all_false n f (λ i l. h i (omega (arith, l)))) refl

  pub count-all_true : (n : ℕ) (f : ℕ → A) → ((i : ℕ) → i < n → test (f i) ≡ true) → count n f ≡ n
  count-all_true zero f h = refl
  count-all_true (suc n) f h =
      omega
        (arith, ap one_if (h n (omega arith)), count-all_true n f (λ i l. h i (omega (arith, l))))
