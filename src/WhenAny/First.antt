-- ===== src/WhenAny/First.antt =====
-- The state of `when_any` is executed once, with the index of an input that is ready.
use portable_concurrency.Prelude.{
  below, ℕ, zero, suc, ◌≡◌, ◌≢◌, ◌≤◌, ◌<◌, ◌⊎◌, inl, inr, refl, sym, ap, ◌∙◌, subst, Bool, true,
  false, Option, none, some, ltb, if◌then◌else◌, dec_lt, ℕ_discrete, arith,
}
use portable_concurrency.WhenAny.{
  WhenAny, Input, waiting, ready, calling, setting, executing, over, put, complete, complete_input,
  push_on, end_make, make_at, make_step, notify_input, notify_step, init, Reach, start, completes,
  makes, notifies,
}
use portable_concurrency.WhenAny.Winner.{
  is_winning, is_before, Inv, Open, Won, quiet-Inv, test_and_set-Inv, winner-Inv,
}

notify_input-Inv :
    (s : WhenAny) (i : ℕ) (x : Input)
    → i < s.size
    → s.inputs i ≡ x
    → Inv s
    → Inv (notify_input s i x)
notify_input-Inv s i calling l e inv = test_and_set-Inv s i s.ready_flag l refl e inv
notify_input-Inv s i setting l e inv =
    winner-Inv s i setting executing (some i) s.executions l e refl (λ w. (refl, w.1)) inv
notify_input-Inv s i executing l e inv =
    winner-Inv s i executing over s.index (suc s.executions) l e refl
      (λ w. (w.0, omega (arith, w.1))) inv
notify_input-Inv s i waiting l e inv = inv
notify_input-Inv s i ready l e inv = inv
notify_input-Inv s i over l e inv = inv

become-Inv :
    (s : WhenAny) (i : ℕ) (b : Bool)
    → i < s.size
    → s.inputs i ≡ waiting
    → Inv s
    → Inv (put s i (if b then calling else ready))
become-Inv s i true l e inv = quiet-Inv s i calling l refl (ap is_before e) inv
become-Inv s i false l e inv = quiet-Inv s i ready l refl (ap is_before e) inv

complete_input-Inv :
    (s : WhenAny) (i : ℕ) (x : Input)
    → i < s.size
    → s.inputs i ≡ x
    → Inv s
    → Inv (complete_input s i x)
complete_input-Inv s i waiting l e inv = become-Inv s i (ltb i s.pushed) l e inv
complete_input-Inv s i ready l e inv = inv
complete_input-Inv s i calling l e inv = inv
complete_input-Inv s i setting l e inv = inv
complete_input-Inv s i executing l e inv = inv
complete_input-Inv s i over l e inv = inv

-- `for_each` goes on.
pushed-Inv :
    (s : WhenAny) (n k : ℕ)
    → (n ≤ s.size → s.pushed ≤ s.size)
    → (s.size ≢ 0 → k ≡ s.executions)
    → (n ≤ s.size → k ≡ s.executions)
    → (Open s → s.size ≡ 0 → k ≤ 1)
    → Inv s
    → Inv (record s { pushed = n; executions = k })
pushed-Inv s n k f g h b inv = record {
  beyond = inv.beyond;
  phase = elim inv.phase [
    | inl o ↦ inl (record {
      flag = o.flag;
      index = o.index;
      idle = o.idle;
      unmade = λ m. h m ∙ o.unmade (f m);
      empty = λ z. g z ∙ o.empty z;
      once = elim (ℕ_discrete s.size 0) [ yes z ↦ b o z | no z ↦ omega (arith, g z, o.empty z) ];
    })
    | inr (p, y, w) ↦ inr (
      p,
      y,
      record {
        inside = w.inside;
        flag = w.flag;
        at = w.at;
        won = subst (λ e. Won p y s.index e) (sym (g (λ z. omega (arith, z, w.inside)))) w.won;
        others = w.others;
      },
    )
  ];
}

turned-Inv :
    (s : WhenAny) (i : ℕ)
    → s.pushed ≡ i
    → i ≤ s.size
    → (s.size ≡ 0 → i ≡ 0 → ⊥)
    → Inv s
    → Inv (record s { pushed = suc i })
turned-Inv s i h l z inv =
    pushed-Inv s (suc i) s.executions (λ m. omega (arith, h, m)) (λ _. refl) (λ _. refl)
      (λ o e. absurd (z e (omega (arith, e, l)))) inv

push_on-Inv :
    (s : WhenAny) (i : ℕ) (x : Input)
    → i < s.size
    → s.pushed ≡ i
    → s.inputs i ≡ x
    → Inv s
    → Inv (push_on s i x)
push_on-Inv s i ready l h e inv =
    quiet-Inv (record s { pushed = suc i }) i calling l refl (ap is_before e)
      (turned-Inv s i h (omega (arith, l)) (λ z _. omega (arith, z, l)) inv)
push_on-Inv s i waiting l h e inv =
    turned-Inv s i h (omega (arith, l)) (λ z _. omega (arith, z, l)) inv
push_on-Inv s i calling l h e inv =
    turned-Inv s i h (omega (arith, l)) (λ z _. omega (arith, z, l)) inv
push_on-Inv s i setting l h e inv =
    turned-Inv s i h (omega (arith, l)) (λ z _. omega (arith, z, l)) inv
push_on-Inv s i executing l h e inv =
    turned-Inv s i h (omega (arith, l)) (λ z _. omega (arith, z, l)) inv
push_on-Inv s i over l h e inv =
    turned-Inv s i h (omega (arith, l)) (λ z _. omega (arith, z, l)) inv

end_make-Inv : (s : WhenAny) (i : ℕ) → s.pushed ≡ i → i ≡ s.size → Inv s → Inv (end_make s i)
end_make-Inv s zero h e inv =
    pushed-Inv s 1 (suc s.executions) (λ m. omega (arith, m, e)) (λ n. absurd (n (sym e)))
      (λ m. absurd (omega (arith, m, e))) (λ o z. omega (arith, o.unmade (omega (arith, h, e)))) inv
end_make-Inv s (suc k) h e inv =
    turned-Inv s (suc k) h (omega (arith, e)) (λ z _. omega (arith, z, e)) inv

make_at-Inv : (s : WhenAny) (i : ℕ) → s.pushed ≡ i → Inv s → Inv (make_at s i)
make_at-Inv s i h inv =
    below Inv i s.size (push_on s i (s.inputs i)) (if ltb s.size i then s else end_make s i)
      (λ l. push_on-Inv s i (s.inputs i) l h refl inv)
      (λ g.
        below Inv s.size i s (end_make s i) (λ _. inv)
          (λ l. end_make-Inv s i h (omega (arith, l, g)) inv))

init-Inv : (n : ℕ) → Inv (init n)
init-Inv n = record {
  beyond = λ i l. refl;
  phase = inl (record {
    flag = refl;
    index = refl;
    idle = λ i. (refl, λ e. absurd (cc));
    unmade = λ _. refl;
    empty = λ _. refl;
    once = omega arith;
  });
}

Reach-Inv : {s : WhenAny} → Reach s → Inv s
unfolding complete make_step notify_step
Reach-Inv (start n) = init-Inv n
Reach-Inv (completes {s} i r) =
    below Inv i s.size (complete_input s i (s.inputs i)) s
      (λ l. complete_input-Inv s i (s.inputs i) l refl (Reach-Inv r)) (λ _. Reach-Inv r)
Reach-Inv (makes {s} r) = make_at-Inv s s.pushed refl (Reach-Inv r)
Reach-Inv (notifies {s} i r) = elim (dec_lt i s.size) [
  | yes l ↦ notify_input-Inv s i (s.inputs i) l refl (Reach-Inv r)
  | no g ↦
      subst (λ x. Inv (notify_input s i x)) (sym ((Reach-Inv r).beyond i (omega (arith, g))))
        (Reach-Inv r)
]

executed-Won :
    (p : ℕ) (x : Input) (o : Option ℕ) (k : ℕ)
    → Won p x o k
    → k ≢ 0
    → (x ≡ over) × (o ≡ some p) × (k ≡ 1)
executed-Won p waiting o k w n = absurd w
executed-Won p ready o k w n = absurd w
executed-Won p calling o k w n = absurd w
executed-Won p setting o k w n = absurd (n w.1)
executed-Won p executing o k w n = absurd (n w.1)
executed-Won p over o k w n = (refl, w.0, w.1)

-- Once the state is executed, it is executed once, and either there are no futures and no index, or
-- the index is that of a future which is ready and whose call of `notify` is over.
pub executed_with_index :
    {s : WhenAny}
    → Reach s
    → s.executions ≢ 0
    → (s.executions ≡ 1)
      × (((s.size ≡ 0) × (s.index ≡ none))
          ⊎ ((p : ℕ) × (p < s.size) × (s.index ≡ some p) × (s.inputs p ≡ over)))
executed_with_index {s} r n = elim (Reach-Inv r).phase [
  | inl o ↦ elim (ℕ_discrete s.size 0) [
    | yes z ↦ (omega (arith, n, o.once), inl (z, o.index))
    | no z ↦ absurd (n (o.empty z))
  ]
  | inr (p, x, w) ↦
      let (e, index, once) = executed-Won p x s.index s.executions w.won n in
      (once, inr (p, w.inside, index, w.at ∙ e))
]

finished-Won :
    (p : ℕ) (x : Input) (o : Option ℕ) (k : ℕ) → Won p x o k → is_winning x ≡ false → k ≡ 1
finished-Won p waiting o k w n = absurd w
finished-Won p ready o k w n = absurd w
finished-Won p calling o k w n = absurd w
finished-Won p setting o k w n = absurd (cc)
finished-Won p executing o k w n = absurd (cc)
finished-Won p over o k w n = w.1

-- When a future has become ready and its call of `notify` is over, and no other call is between the
-- flag and its end, the state is executed.
pub over_executed :
    {s : WhenAny} (i : ℕ)
    → Reach s
    → s.inputs i ≡ over
    → ((j : ℕ) → j < s.size → is_winning (s.inputs j) ≡ false)
    → s.executions ≡ 1
over_executed {s} i r e h = elim (Reach-Inv r).phase [
  | inl o ↦ absurd ((o.idle i).1 e)
  | inr (p, x, w) ↦
      finished-Won p x s.index s.executions w.won (ap is_winning (sym w.at) ∙ h p w.inside)
]
