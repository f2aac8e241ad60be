-- ===== src/WhenAny/Winner.antt =====
-- At most one call of `notify` gets past the flag.
use portable_concurrency.Prelude.{
  ℕ, ◌≡◌, ◌≢◌, ◌≤◌, ◌<◌, ◌⊎◌, inl, inr, refl, sym, ap, ◌∙◌, subst, Bool, true, false, Option, none,
  some, update, update-here, update-there, ℕ_discrete, arith,
}
use portable_concurrency.WhenAny.{
  WhenAny, Input, waiting, ready, calling, setting, executing, over, put, test_and_set,
}

abbrev pub is_winning : Input → Bool
is_winning setting = true
is_winning executing = true
is_winning _ = false

-- Before anyone has passed the flag.
pub record Open (s : WhenAny) : Type 0 where
  pub flag : s.ready_flag ≡ false
  pub index : s.index ≡ none
  pub idle : (i : ℕ) → (is_winning (s.inputs i) ≡ false) × (s.inputs i ≢ over)
  pub unmade : s.pushed ≤ s.size → s.executions ≡ 0
  pub empty : s.size ≢ 0 → s.executions ≡ 0
  pub once : s.executions ≤ 1

-- How far the one that passed has come.
abbrev pub Won : ℕ → Input → Option ℕ → ℕ → Type 0
Won p setting index k = (index ≡ none) × (k ≡ 0)
Won p executing index k = (index ≡ some p) × (k ≡ 0)
Won p over index k = (index ≡ some p) × (k ≡ 1)
Won p _ index k = ⊥

pub record IsWinner (s : WhenAny) (p : ℕ) (x : Input) : Type 0 where
  pub inside : p < s.size
  pub flag : s.ready_flag ≡ true
  pub at : s.inputs p ≡ x
  pub won : Won p x s.index s.executions
  pub others : (i : ℕ) → p ≢ i → is_winning (s.inputs i) ≡ false

abbrev pub Phase : WhenAny → Type 0
Phase s = Open s ⊎ ((p : ℕ) × (x : Input) × IsWinner s p x)

pub record Inv (s : WhenAny) : Type 0 where
  pub phase : Phase s
  pub beyond : (i : ℕ) → s.size ≤ i → s.inputs i ≡ waiting

-- An input before the flag, which stays there.
abbrev pub is_before : Input → Bool
is_before waiting = true
is_before ready = true
is_before calling = true
is_before _ = false

before_idle : (x : Input) → is_before x ≡ true → (is_winning x ≡ false) × (x ≢ over)
before_idle waiting h = (refl, λ e. absurd (cc))
before_idle ready h = (refl, λ e. absurd (cc))
before_idle calling h = (refl, λ e. absurd (cc))
before_idle setting h = absurd (cc)
before_idle executing h = absurd (cc)
before_idle over h = absurd (cc)

before_not-Won : (p : ℕ) (x : Input) (o : Option ℕ) (k : ℕ) → is_before x ≡ true → Won p x o k → ⊥
before_not-Won p waiting o k h w = w
before_not-Won p ready o k h w = w
before_not-Won p calling o k h w = w
before_not-Won p setting o k h w = cc
before_not-Won p executing o k h w = cc
before_not-Won p over o k h w = cc

put-beyond :
    (s : WhenAny) (i : ℕ) (x : Input)
    → i < s.size
    → Inv s
    → (j : ℕ) → s.size ≤ j
    → (put s i x).inputs j ≡ waiting
put-beyond s i x l inv j g =
    update-there s.inputs i x j (λ e. omega (arith, e, g, l)) ∙ inv.beyond j g

-- What holds of all inputs, when one changes.
put-all :
    (P : ℕ → Input → Type 0) (f : ℕ → Input) (i : ℕ) (x : Input)
    → P i x
    → ((j : ℕ) → i ≢ j → P j (f j))
    → (j : ℕ) → P j (update f i x j)
put-all P f i x new old j = elim (ℕ_discrete i j) [
  | yes e ↦ rw (update-here f i x j e) (subst (λ k. P k x) e new)
  | no n ↦ rw (update-there f i x j n) (old j n)
]

-- Another input changes and does not win.
other-IsWinner :
    (s : WhenAny) (i : ℕ) (x : Input) (p : ℕ) (y : Input)
    → is_winning x ≡ false
    → is_before (s.inputs i) ≡ true
    → IsWinner s p y
    → IsWinner (put s i x) p y
other-IsWinner s i x p y n b w = record {
  inside = w.inside;
  flag = w.flag;
  at =
      update-there s.inputs i x p (λ e.
        before_not-Won p y s.index s.executions
          (subst (λ z. is_before z ≡ true) (ap s.inputs e ∙ w.at) b) w.won)
      ∙ w.at;
  won = w.won;
  others = put-all (λ j z. p ≢ j → is_winning z ≡ false) s.inputs i x (λ _. n) (λ j _. w.others j);
}

pub quiet-Inv :
    (s : WhenAny) (i : ℕ) (x : Input)
    → i < s.size
    → is_before x ≡ true
    → is_before (s.inputs i) ≡ true
    → Inv s
    → Inv (put s i x)
quiet-Inv s i x l h b inv = record {
  beyond = put-beyond s i x l inv;
  phase = elim inv.phase [
    | inl o ↦ inl (record {
      flag = o.flag;
      index = o.index;
      idle =
          put-all (λ j z. (is_winning z ≡ false) × (z ≢ over)) s.inputs i x (before_idle x h)
            (λ j _. o.idle j);
      unmade = o.unmade;
      empty = o.empty;
      once = o.once;
    })
    | inr (p, y, w) ↦ inr (p, y, other-IsWinner s i x p y (before_idle x h).0 b w)
  ];
}

pub test_and_set-Inv :
    (s : WhenAny) (i : ℕ) (b : Bool)
    → i < s.size
    → s.ready_flag ≡ b
    → s.inputs i ≡ calling
    → Inv s
    → Inv (test_and_set s i b)
test_and_set-Inv s i true l f e inv = record {
  beyond = put-beyond s i over l inv;
  phase = elim inv.phase [
    | inl o ↦ absurd (cc (f, o.flag))
    | inr (p, y, w) ↦ inr (p, y, other-IsWinner s i over p y refl (ap is_before e) w)
  ];
}
test_and_set-Inv s i false l f e inv = record {
  beyond = put-beyond s i setting l inv;
  phase = elim inv.phase [
    | inl o ↦ inr (
      i,
      setting,
      record {
        inside = l;
        flag = refl;
        at = update-here s.inputs i setting i refl;
        won = (o.index, o.empty (λ z. omega (arith, z, l)));
        others =
            put-all (λ j z. i ≢ j → is_winning z ≡ false) s.inputs i setting (λ n. absurd (n refl))
              (λ j _ _. (o.idle j).0);
      },
    )
    | inr (p, y, w) ↦ absurd (cc (f, w.flag))
  ];
}

-- An input past the flag is the one that won.
winning_one :
    (s : WhenAny) (i p : ℕ) (y : Input) → is_winning (s.inputs i) ≡ true → IsWinner s p y → p ≡ i
winning_one s i p y h w = elim (ℕ_discrete p i) [ yes e ↦ e | no n ↦ absurd (cc (h, w.others i n)) ]

-- The winner goes on: from `y` to `x`.
pub winner-Inv :
    (s : WhenAny) (i : ℕ) (y x : Input) (o : Option ℕ) (k : ℕ)
    → i < s.size
    → s.inputs i ≡ y
    → is_winning y ≡ true
    → (Won i y s.index s.executions → Won i x o k)
    → Inv s
    → Inv (put (record s { index = o; executions = k }) i x)
winner-Inv s i y x o k l e h f inv = record {
  beyond = put-beyond s i x l inv;
  phase = elim inv.phase [
    | inl q ↦ absurd (cc (h, ap is_winning e, (q.idle i).0))
    | inr (p, z, w) ↦
        let same = winning_one s i p z (ap is_winning e ∙ h) w in
        let won = subst (λ j. Won j z s.index s.executions) same w.won in
        let at = subst (λ j. s.inputs j ≡ z) same w.at in
        inr (
          i,
          x,
          record {
            inside = l;
            flag = w.flag;
            at = update-here s.inputs i x i refl;
            won = f (subst (λ a. Won i a s.index s.executions) (sym at ∙ e) won);
            others =
                put-all (λ j a. i ≢ j → is_winning a ≡ false) s.inputs i x (λ n. absurd (n refl))
                  (λ j _ n. w.others j (subst (λ m. m ≢ j) (sym same) n));
          },
        )
  ];
}
