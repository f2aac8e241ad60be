-- ===== src/WhenAll/Counting.antt =====
-- `operations_remains_` counts the inputs that have not been through the decrement.
use portable_concurrency.Prelude.{
  below, count-all_true, count-all_false, subst, dec_le, ℕ, zero, suc, ◌+◌, ◌-◌, ◌≡◌, ◌≤◌, ◌<◌, ◌≢◌,
  refl, sym, ap, Bool, true, false, ltb, if◌then◌else◌, update, count, count-update, one_if,
  update-there, ◌∙◌, arith,
}
use portable_concurrency.WhenAll.{
  WhenAll, Input, waiting, ready, calling, last, over, put, complete, complete_input, push_on,
  make_at, make_step, after_decrement, notify_input, notify_step, init, Reach, start, completes,
  makes, notifies,
}

abbrev pub is_pending : Input → Bool
is_pending last = false
is_pending over = false
is_pending _ = true

abbrev pub is_last : Input → Bool
is_last last = true
is_last _ = false

abbrev pub zero_test : ℕ → ℕ
zero_test zero = 1
zero_test (suc _) = 0

-- What has executed or is about to is one input, if nothing remains, and else none.
pub record Inv (s : WhenAll) : Type 0 where
  pub remains : s.operations_remains ≡ count is_pending (suc s.size) s.inputs
  pub executions :
      s.executions + count is_last (suc s.size) s.inputs ≡ zero_test s.operations_remains
  pub beyond : (i : ℕ) → s.size < i → s.inputs i ≡ waiting
  pub maker : s.pushed ≤ s.size → s.inputs s.size ≡ waiting

count-put :
    (test : Input → Bool) (s : WhenAll) (i : ℕ) (x y : Input)
    → i ≤ s.size
    → s.inputs i ≡ y
    → count test (suc s.size) (update s.inputs i x) + one_if (test y)
      ≡ count test (suc s.size) s.inputs + one_if (test x)
count-put test s i x y l e = omega (
  arith,
  count-update test (suc s.size) s.inputs i x (omega (arith, l)),
  ap (λ a. one_if (test a)) e,
)

-- A change of the input `i` from `y` to `x`, and of the numbers by what this takes from the counts.
changed-Inv :
    (s : WhenAll) (i : ℕ) (x y : Input) (n k : ℕ)
    → i ≤ s.size
    → s.inputs i ≡ y
    → (s.pushed ≤ s.size → i ≢ s.size)
    → n + one_if (is_pending y) ≡ s.operations_remains + one_if (is_pending x)
    → k + one_if (is_last x) + zero_test s.operations_remains
      ≡ s.executions + one_if (is_last y) + zero_test n
    → Inv s
    → Inv (put (record s { operations_remains = n; executions = k }) i x)
changed-Inv s i x y n k l e m p q inv = record {
  remains = omega (arith, count-put is_pending s i x y l e, p, inv.remains);
  executions = omega (arith, count-put is_last s i x y l e, q, inv.executions);
  beyond = λ j g. update-there s.inputs i x j (λ same. omega (arith, same, g, l)) ∙ inv.beyond j g;
  maker = λ h. update-there s.inputs i x s.size (m h) ∙ inv.maker h;
}

pushed-Inv :
    (s : WhenAll) (n : ℕ) → (n ≤ s.size → s.pushed ≤ s.size) → Inv s → Inv (record s { pushed = n })
pushed-Inv s n f inv = record {
  remains = inv.remains;
  executions = inv.executions;
  beyond = inv.beyond;
  maker = λ h. inv.maker (f h);
}

become-Inv :
    (s : WhenAll) (i : ℕ) (b : Bool)
    → i < s.size
    → s.inputs i ≡ waiting
    → Inv s
    → Inv (put s i (if b then calling else ready))
become-Inv s i true l e inv =
    changed-Inv s i calling waiting s.operations_remains s.executions (omega (arith, l)) e
      (λ _. omega (arith, l)) refl refl inv
become-Inv s i false l e inv =
    changed-Inv s i ready waiting s.operations_remains s.executions (omega (arith, l)) e
      (λ _. omega (arith, l)) refl refl inv

complete_input-Inv :
    (s : WhenAll) (i : ℕ) (x : Input)
    → i < s.size
    → s.inputs i ≡ x
    → Inv s
    → Inv (complete_input s i x)
complete_input-Inv s i waiting l e inv = become-Inv s i (ltb i s.pushed) l e inv
complete_input-Inv s i ready l e inv = inv
complete_input-Inv s i calling l e inv = inv
complete_input-Inv s i last l e inv = inv
complete_input-Inv s i over l e inv = inv

push_on-Inv :
    (s : WhenAll) (i : ℕ) (x : Input)
    → i < s.size
    → s.pushed ≡ i
    → s.inputs i ≡ x
    → Inv s
    → Inv (push_on s i x)
push_on-Inv s i ready l h e inv =
    changed-Inv (record s { pushed = suc i }) i calling ready s.operations_remains s.executions
      (omega (arith, l)) e (λ _. omega (arith, l)) refl refl
      (pushed-Inv s (suc i) (λ _. omega (arith, l, h)) inv)
push_on-Inv s i waiting l h e inv = pushed-Inv s (suc i) (λ _. omega (arith, l, h)) inv
push_on-Inv s i calling l h e inv = pushed-Inv s (suc i) (λ _. omega (arith, l, h)) inv
push_on-Inv s i last l h e inv = pushed-Inv s (suc i) (λ _. omega (arith, l, h)) inv
push_on-Inv s i over l h e inv = pushed-Inv s (suc i) (λ _. omega (arith, l, h)) inv

-- In `notify` the input is not the one of `make` before `make` has come to it.
not_maker :
    (s : WhenAll) (i : ℕ) (x : Input)
    → Inv s
    → s.inputs i ≡ x
    → x ≢ waiting
    → s.pushed ≤ s.size
    → i ≢ s.size
not_maker s i x inv e d h same = d (sym e ∙ ap s.inputs same ∙ inv.maker h)

after_decrement-Inv :
    (s : WhenAll) (i n : ℕ)
    → i ≤ s.size
    → s.inputs i ≡ calling
    → s.operations_remains ≡ suc n
    → Inv s
    → Inv (after_decrement s i n)
after_decrement-Inv s i zero l e r inv =
    changed-Inv s i last calling 0 s.executions l e (not_maker s i calling inv e (λ c. absurd (cc)))
      (omega (arith, r)) (omega (arith, ap zero_test r)) inv
after_decrement-Inv s i (suc k) l e r inv =
    changed-Inv s i over calling (suc k) s.executions l e
      (not_maker s i calling inv e (λ c. absurd (cc))) (omega (arith, r))
      (omega (arith, ap zero_test r)) inv

-- An input that is counted leaves something to take away.
calling-remains :
    (s : WhenAll) (i : ℕ)
    → i ≤ s.size
    → s.inputs i ≡ calling
    → Inv s
    → s.operations_remains ≡ suc (s.operations_remains - 1)
calling-remains s i l e inv = omega (arith, count-put is_pending s i over calling l e, inv.remains)

notify_input-Inv :
    (s : WhenAll) (i : ℕ) (x : Input)
    → i ≤ s.size
    → s.inputs i ≡ x
    → Inv s
    → Inv (notify_input s i x)
notify_input-Inv s i calling l e inv =
    after_decrement-Inv s i (s.operations_remains - 1) l e (calling-remains s i l e inv) inv
notify_input-Inv s i last l e inv =
    changed-Inv s i over last s.operations_remains (suc s.executions) l e
      (not_maker s i last inv e (λ c. absurd (cc))) refl (omega arith) inv
notify_input-Inv s i waiting l e inv = inv
notify_input-Inv s i ready l e inv = inv
notify_input-Inv s i over l e inv = inv

init-Inv : (n : ℕ) → Inv (init n)
init-Inv n = record {
  remains = sym (count-all_true is_pending (suc n) (λ _. waiting) (λ i l. refl));
  executions = omega (arith, count-all_false is_last (suc n) (λ _. waiting) (λ i l. refl));
  beyond = λ i h. refl;
  maker = λ h. refl;
}

make_at-Inv : (s : WhenAll) (i : ℕ) → s.pushed ≡ i → Inv s → Inv (make_at s i)
make_at-Inv s i h inv =
    below Inv i s.size (push_on s i (s.inputs i))
      (if ltb s.size i then s else put (record s { pushed = suc i }) i calling)
      (λ l. push_on-Inv s i (s.inputs i) l h refl inv)
      (λ g.
        below Inv s.size i s (put (record s { pushed = suc i }) i calling) (λ _. inv)
          (λ l.
            changed-Inv (record s { pushed = suc i }) i calling waiting s.operations_remains
              s.executions l (ap s.inputs (omega (arith, l, g)) ∙ inv.maker (omega (arith, h, l)))
              (λ m. omega (arith, m, g)) refl refl
              (pushed-Inv s (suc i) (λ m. omega (arith, m, g)) inv)))

pub Reach-Inv : {s : WhenAll} → Reach s → Inv s
unfolding complete make_step notify_step
Reach-Inv (start n) = init-Inv n
Reach-Inv (completes {s} i r) =
    below Inv i s.size (complete_input s i (s.inputs i)) s
      (λ l. complete_input-Inv s i (s.inputs i) l refl (Reach-Inv r)) (λ _. Reach-Inv r)
Reach-Inv (makes {s} r) = make_at-Inv s s.pushed refl (Reach-Inv r)
Reach-Inv (notifies {s} i r) = elim (dec_le i s.size) [
  | yes l ↦ notify_input-Inv s i (s.inputs i) l refl (Reach-Inv r)
  | no g ↦
      subst (λ x. Inv (notify_input s i x)) (sym ((Reach-Inv r).beyond i (omega (arith, g))))
        (Reach-Inv r)
]
