-- ===== src/Machine/Safe/Ends.antt =====
-- Code that does not use the state `v` when it is gone: it keeps the owners that `v` has, and what
-- it uses has an owner.
use portable_concurrency.Prelude.{
  ℕ, zero, suc, refl, Option, none, update, update-here, update-there, ℕ_discrete, ◌≤◌, ◌≡◌, ◌≢◌,
  ap, sym, subst, ◌∙◌, some, List, Option-cases, inl, inr, arith,
}
use portable_concurrency.Store.{
  Code, done, thrown, undefined, dangling, Ends, ◌>>=◌, and_then, Continuations, waiting, executed,
  Storage, empty, value, inner, failure, Frame, continuation, Action, then_action, next_action,
  promise_action, State, Store, Job, Seen,
}
use portable_concurrency.Owners.{deref, write, begin, log, deref-none, deref-some}
use portable_concurrency.SharedState.{visit, read_result}
use portable_concurrency.Machine.Once.Prices.{Low, in_use}
use portable_concurrency.Machine.Owned.Refs.{
  storage_refs, pointer, owner_count, owners, owners-write,
}

module _ {V : Type 0} (v : ℕ) where
  -- The parent that a continuation's action has.
  abbrev pub action_parent : Option (Action V) → ℕ
  action_parent none = 0
  action_parent (some (then_action f parent)) = pointer v parent
  action_parent (some (next_action f parent)) = pointer v parent
  action_parent (some (promise_action f parent)) = pointer v parent

  abbrev pub frame_parent : Frame V → ℕ
  frame_parent (continuation x action) = action_parent action
  frame_parent _ = 0

  -- The pointers to `v` that are followed when a result is read: there are `n` owners.
  abbrev pub Links : Option (State V) → ℕ → Type 0
  Links none n = Unit {0}
  Links (some b) n = (storage_refs v b.storage ≤ n) × (frame_parent b.frame ≤ n)

  -- Whatever state has such a pointer to `v`, `v` is there.
  abbrev pub Intact : Store V → Type 0
  Intact s = Low v s × ((p : ℕ) → Links (s.states p) (owners v s))

  Links-grow : (o : Option (State V)) (m n : ℕ) → m ≤ n → Links o m → Links o n
  Links-grow none m n l h = tt
  Links-grow (some b) m n l h = (omega (arith, l, h.0), omega (arith, l, h.1))

  pub update-Links :
      (s : Store V) (p : ℕ) (o : Option (State V)) (n : ℕ)
      → Intact s
      → owners v s ≤ n
      → Links o n
      → (q : ℕ) → Links (update s.states p o q) n
  update-Links s p o n h g l q = elim (ℕ_discrete p q) [
    | yes same ↦ subst (λ x. Links x n) (sym (update-here s.states p o q same)) l
    | no other ↦
        subst (λ x. Links x n) (sym (update-there s.states p o q other))
          (Links-grow (s.states q) (owners v s) n g (h.1 q))
  ]

  pub state-Links :
      (s : Store V) (p : ℕ) (b : State V)
      → Intact s
      → s.states p ≡ some b
      → (storage_refs v b.storage ≤ owners v s) × (frame_parent b.frame ≤ owners v s)
  state-Links s p b h e = subst (λ o. Links o (owners v s)) e (h.1 p)

  pub record Grown (s t : Store V) : Type 0 where
    pub low : Intact t
    pub grown : owners v s ≤ owners v t

  -- The pointers to `v` in a result, `uses`, are to a state that is there.
  abbrev pub Good : {A : Type 0} → Store V → (A → ℕ) → Ends A × Store V → Type 0
  Good s uses (done a, t) = Grown s t × (uses a ≤ owners v t)
  Good s uses (thrown e, t) = Unit {0}
  Good s uses (undefined, t) = Unit {0}
  Good s uses (dangling p, t) = p ≢ v

  pub same-Grown : (s : Store V) → Intact s → Grown s s
  same-Grown s h = record { low = h; grown = omega arith }

  pub then-Grown : (s t u : Store V) → Grown s t → Grown t u → Grown s u
  then-Grown s t u g k = record { low = k.low; grown = omega (arith, g.grown, k.grown) }

  pub then-Good :
      {A : Type 0} (s t : Store V) (uses : A → ℕ) (r : Ends A × Store V)
      → Grown s t
      → Good t uses r
      → Good s uses r
  then-Good s t uses (done a, u) g x = (then-Grown s t u g x.0, x.1)
  then-Good s t uses (thrown e, u) g x = tt
  then-Good s t uses (undefined, u) g x = tt
  then-Good s t uses (dangling p, u) g x = x

  pub bind-Good :
      {A B : Type 0} (s : Store V) (uses : A → ℕ) (end : B → ℕ) (m : Code (Store V) A)
      (f : A → Code (Store V) B)
      → Good s uses (m s)
      → ((a : A) (t : Store V) → Grown s t → uses a ≤ owners v t → Good t end (f a t))
      → Good s end ((m >>= f) s)
  bind-Good {A} {B} s uses end m f c k = go (m s) c
    where
      go : (r : Ends A × Store V) → Good s uses r → Good s end (and_then r f)
      go (done a, t) x = then-Good s t end (f a t) x.0 (k a t x.0 x.1)
      go (thrown e, t) x = tt
      go (undefined, t) x = tt
      go (dangling p, t) x = x

  pub pure-Good :
      {A : Type 0} (s : Store V) (uses : A → ℕ) (a : A)
      → Intact s
      → uses a ≤ owners v s
      → Good s uses (done a, s)
  pure-Good s uses a h u = (same-Grown s h, u)

  -- A state with an owner is there.
  pub deref-Good :
      {B : Type 0} (p : ℕ) (uses : B → ℕ) (f : State V → Code (Store V) B) (s : Store V)
      → pointer v p ≤ owners v s
      → ((b : State V) → s.states p ≡ some b → Good s uses (f b s))
      → Good s uses ((deref p >>= f) s)
  deref-Good p uses f s u k = elim (Option-cases (s.states p)) [
    | inl e ↦
        subst (λ r. Good s uses (and_then r f)) (sym (deref-none p s e))
          (λ same. ground (arith, u, ap owner_count (ap s.states (sym same) ∙ e), same))
    | inr (b, e) ↦ subst (λ r. Good s uses (and_then r f)) (sym (deref-some p s b e)) (k b e)
  ]

  pub write-Grown :
      (s : Store V) (p : ℕ) (b b' : State V)
      → s.states p ≡ some b
      → Intact s
      → b.owners ≤ b'.owners
      → Links (some b') (owners v s)
      → Grown s (write p b' s).1
  write-Grown s p b b' e h l i =
      let g : owners v s ≤ owners v (write p b' s).1 =
        ground (arith, owners-write v s p b (some b') e, l) in
      record {
        low = (
          λ q k. ground (arith, h.0 q k, in_use v s p b h.0 e),
          update-Links s p (some b') (owners v (write p b' s).1) h g
              (Links-grow (some b') (owners v s) (owners v (write p b' s).1) g i),
        );
        grown = g;
      }

  -- A write that leaves the storage and the action where they are.
  pub rewrite-Grown :
      (s : Store V) (p : ℕ) (b b' : State V)
      → s.states p ≡ some b
      → Intact s
      → b.owners ≤ b'.owners
      → b'.storage ≡ b.storage
      → b'.frame ≡ b.frame
      → Grown s (write p b' s).1
  rewrite-Grown s p b b' e h l x y =
      let k = state-Links s p b h e in
      write-Grown s p b b' e h l
        (omega (arith, k.0, ap (storage_refs v) x), omega (arith, k.1, ap frame_parent y))

  pub begin-Grown : (s : Store V) (js : List (Job V)) → Intact s → Grown s (begin js s).1
  begin-Grown s js h = record { low = h; grown = omega arith }

  pub log-Grown : (s : Store V) (x : Seen) → Intact s → Grown s (log x s).1
  log-Grown s x h = record { low = h; grown = omega arith }

  -- The result of a state that is there is read through states that are there.
  pub read_result-Good :
      (depth p : ℕ) (s : Store V)
      → Intact s
      → pointer v p ≤ owners v s
      → Good s (λ _. 0) (read_result depth p s)
  unfolding read_result
  read_result-Good zero p s h u = tt
  read_result-Good (suc depth) p s h u =
      deref-Good p (λ _. 0) _ s u
        λ b e. visited b.continuations b.storage λ q k.
          read_result-Good depth q s h
            (omega (arith, (state-Links s p b h e).0, ap (storage_refs v) k))
    where
      visited :
          (k : Continuations) (x : Storage V)
          → ((q : ℕ) → x ≡ inner q → Good s (λ _. 0) (read_result depth q s))
          → Good s (λ _. 0) (visit (read_result depth) k x s)
      visited (waiting cs) x c = tt
      visited executed (value w) c = (same-Grown s h, omega arith)
      visited executed (failure e) c = (same-Grown s h, omega arith)
      visited executed (inner q) c = c q refl
      visited executed empty c = tt
