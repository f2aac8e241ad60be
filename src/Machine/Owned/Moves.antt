-- ===== src/Machine/Owned/Moves.antt =====
-- Code takes strong pointers to the state `v` from its caller and leaves some in its result: the
-- account of the two, in which nothing is lost.
use portable_concurrency.Prelude.{
  ℕ, ◌+◌, ◌≤◌, ◌≡◌, refl, ap, ◌∙◌, Option, some, [], List, ◌++◌, update, update-here, update-there,
  ℕ_discrete, Option-cases, inl, inr, sym, subst, total-above, arith,
}
use portable_concurrency.Store.{
  Code, pure, done, thrown, undefined, dangling, Ends, ◌>>=◌, and_then, Frame, State, Store, Job,
  empty, waiting,
}
use portable_concurrency.Owners.{deref, write, begin, make_shared, deref-none, deref-some}
use portable_concurrency.Machine.Once.Tokens.{sum, sum-append}
use portable_concurrency.Machine.Once.Prices.{Low, in_use}
use portable_concurrency.Machine.Owned.Refs.{
  pointer, counted, frame_refs, state_refs, place_refs, job_refs, Backed, refs, owner_count, owners,
  owners-write, refs-write,
}

module _ {V : Type 0} (v : ℕ) where
  -- A state that is there has an owner.
  abbrev pub Alive : Store V → Type 0
  Alive s = (p : ℕ) (b : State V) → s.states p ≡ some b → 1 ≤ b.owners

  -- The same, and whatever is used in the jobs is held there.
  abbrev pub Sound : Store V → Type 0
  Sound s = Alive s × Backed v s.jobs

  -- From the store `s`, with `k` pointers in hand, to the store `t`, with `l`.
  pub record Kept (s : Store V) (k : ℕ) (t : Store V) (l : ℕ) : Type 0 where
    pub low : Low v t
    pub sound : Sound t
    pub balance : owners v t + refs v s + k ≡ owners v s + refs v t + l

  -- The same for what code makes of the store `s`. Where it throws, nothing is left in hand.
  abbrev pub After : {A : Type 0} → Store V → ℕ → (A → ℕ) → Ends A × Store V → Type 0
  After s k out (done a, t) = Kept s k t (out a)
  After s k out (thrown e, t) = Kept s k t 0
  After s k out (undefined, t) = Unit {0}
  After s k out (dangling p, t) = Unit {0}

  abbrev pub Moves : {A : Type 0} → ℕ → (A → ℕ) → Code (Store V) A → Type 0
  Moves k out m = (s : Store V) → Low v s → Sound s → After s k out (m s)

  pub nothing-Kept : (k : ℕ) (s : Store V) → Low v s → Sound s → Kept s k s k
  nothing-Kept k s h n = record { low = h; sound = n; balance = omega arith }

  pub then-Kept : (s t u : Store V) (k l m : ℕ) → Kept s k t l → Kept t l u m → Kept s k u m
  then-Kept s t u k l m x y = record {
    low = y.low;
    sound = y.sound;
    balance = omega (arith, x.balance, y.balance);
  }

  pub then-After :
      {A : Type 0} (s t : Store V) (k l : ℕ) (out : A → ℕ) (r : Ends A × Store V)
      → Kept s k t l
      → After t l out r
      → After s k out r
  then-After s t k l out (done a, u) x y = then-Kept s t u k l (out a) x y
  then-After s t k l out (thrown e, u) x y = then-Kept s t u k l 0 x y
  then-After s t k l out (undefined, u) x y = tt
  then-After s t k l out (dangling p, u) x y = tt

  pub then-Moves :
      {A : Type 0} (s t : Store V) (k l : ℕ) (out : A → ℕ) (m : Code (Store V) A)
      → Kept s k t l
      → Moves l out m
      → After s k out (m t)
  then-Moves s t k l out m x c = then-After s t k l out (m t) x (c t x.low x.sound)

  pub bind-Moves :
      {A B : Type 0} (k : ℕ) (out : A → ℕ) (end : B → ℕ) (m : Code (Store V) A)
      (f : A → Code (Store V) B)
      → Moves k out m
      → ((a : A) → Moves (out a) end (f a))
      → Moves k end (m >>= f)
  bind-Moves {A} {B} k out end m f cm cf s h n = go (m s) (cm s h n)
    where
      go : (r : Ends A × Store V) → After s k out r → After s k end (and_then r f)
      go (done a, t) x = then-Moves s t k (out a) end (f a) x (cf a)
      go (thrown e, t) x = x
      go (undefined, t) x = tt
      go (dangling p, t) x = tt

  pub pure-Moves :
      {A : Type 0} (k : ℕ) (out : A → ℕ) (a : A) → k ≡ out a → Moves k out (pure {S = Store V} a)
  pure-Moves k out a e s h n = record { low = h; sound = n; balance = omega (arith, e) }

  pub deref-After :
      {B : Type 0} (k : ℕ) (out : B → ℕ) (p : ℕ) (f : State V → Code (Store V) B) (s : Store V)
      → ((b : State V) → s.states p ≡ some b → After s k out (f b s))
      → After s k out ((deref p >>= f) s)
  deref-After k out p f s h = elim (Option-cases (s.states p)) [
    | inl e ↦ subst (λ r. After s k out (and_then r f)) (sym (deref-none p s e)) tt
    | inr (b, e) ↦ subst (λ r. After s k out (and_then r f)) (sym (deref-some p s b e)) (h b e)
  ]

  -- A write, or the end of a state.
  pub write-Kept :
      (s : Store V) (p : ℕ) (b : State V) (o : Option (State V)) (k l : ℕ)
      → s.states p ≡ some b
      → Low v s
      → Sound s
      → ((c : State V) → o ≡ some c → 1 ≤ c.owners)
      → counted v p (owner_count o) + state_refs v b + k ≡ counted v p b.owners + place_refs v o + l
      → Kept s k (record s { states = update s.states p o }) l
  write-Kept s p b o k l e h n a i = record {
    low = λ q g. ground (arith, h q g, in_use v s p b h e);
    sound = (
      λ q c g. elim (ℕ_discrete p q) [
        | yes same ↦ a c (sym (update-here s.states p o q same) ∙ g)
        | no other ↦ n.0 q c (sym (update-there s.states p o q other) ∙ g)
      ],
      n.1,
    );
    balance =
        omega (arith, owners-write v s p b o e, refs-write v s p b o e (in_use v s p b h e), i);
  }

  -- A write that leaves the count as it is.
  pub same_owners-Kept :
      (s : Store V) (p : ℕ) (b b' : State V) (k l : ℕ)
      → s.states p ≡ some b
      → Low v s
      → Sound s
      → b'.owners ≡ b.owners
      → state_refs v b + k ≡ state_refs v b' + l
      → Kept s k (write p b' s).1 l
  same_owners-Kept s p b b' k l e h n o i =
      write-Kept s p b (some b') k l e h n (λ c g. ground (arith, n.0 p b e, o, g))
        (omega (arith, ap (counted v p) o, i))

  -- Jobs that begin have the pointers that are handed to them.
  pub begin-Kept :
      (s : Store V) (js : List (Job V)) (k l : ℕ)
      → Low v s
      → Sound s
      → Backed v (js ++ s.jobs)
      → sum (job_refs v) js + l ≡ k
      → Kept s k (begin js s).1 l
  begin-Kept s js k l h n b e = record {
    low = h;
    sound = (n.0, b);
    balance = omega (arith, sum-append (job_refs v) js s.jobs, e);
  }

  abbrev pub made : Frame V → State V
  made f = record { storage = empty; continuations = waiting []; frame = f; owners = 1 }

  owners-made :
      (f : Frame V) (s : Store V)
      → Low v s
      → owner_count (update s.states s.fresh (some (made f)) v) ≡ owners v s + pointer v s.fresh
  owners-made f s h = elim (ℕ_discrete s.fresh v) [
    | yes same ↦ ground (
      arith,
      ap owner_count (update-here s.states s.fresh (some (made f)) v same),
      ap owner_count (h v (omega (arith, same))),
    )
    | no other ↦
        ground (arith, ap owner_count (update-there s.states s.fresh (some (made f)) v other))
  ]

  made-Alive : (f : Frame V) (s : Store V) → Alive s → Alive (make_shared f s).1
  unfolding make_shared
  made-Alive f s n q c g = elim (ℕ_discrete s.fresh q) [
    | yes same ↦ ground (arith, sym (update-here s.states s.fresh (some (made f)) q same) ∙ g)
    | no other ↦ n q c (sym (update-there s.states s.fresh (some (made f)) q other) ∙ g)
  ]

  pub make-Kept :
      (f : Frame V) (s : Store V) (k l : ℕ)
      → Low v s
      → Sound s
      → k + pointer v s.fresh ≡ frame_refs v f + l
      → Kept s k (make_shared f s).1 l
  unfolding make_shared
  make-Kept f s k l h n e = record {
    low = λ p g. ground (arith, h p);
    sound = (λ q c g. made-Alive f s n.0 q c g, n.1);
    balance = omega (
      arith,
      total-above (place_refs v) s.fresh s.states s.fresh (some (made f)) (omega arith),
      ap (place_refs v) (update-here s.states s.fresh (some (made f)) s.fresh refl),
      owners-made f s h,
      e,
    );
  }
