-- ===== src/Machine/Once/Prices.antt =====
-- The price of code: how many tokens it may add, besides that of an address which it uses for the
-- first time.
use portable_concurrency.Prelude.{
  ℕ, ◌+◌, ◌≤◌, ◌<◌, ◌≡◌, ap, Option, none, some, List, update, arith,
}
use portable_concurrency.Store.{
  Code, done, thrown, undefined, dangling, Ends, ◌>>=◌, and_then, State, Store, Job,
}
use portable_concurrency.Owners.{deref, write, begin}
use portable_concurrency.Machine.Settled.Operations.{deref-cases}
use portable_concurrency.Machine.Once.Tokens.{
  sum, news, news-chain, in_stack, in_state, in_job, tokens, tokens-write, tokens-begin,
}

module _ {V : Type 0} (v : ℕ) where
  -- Addresses from `fresh` on are not in use.
  abbrev pub Low : Store V → Type 0
  Low s = (p : ℕ) → s.fresh ≤ p → s.states p ≡ none

  -- From the store `s` to the store `t`, with the price `k`.
  pub record Adds (k : ℕ) (s t : Store V) : Type 0 where
    pub low : Low t
    pub fresh : s.fresh ≤ t.fresh
    pub tokens : tokens v t ≤ tokens v s + k + news v s.fresh t.fresh

  abbrev pub Costs {ℓ} : {A : Type ℓ} → ℕ → (Store V → A × Store V) → Type 0
  Costs k m = (s : Store V) → Low s → Adds k s (m s).1

  pub nothing-Adds : (k : ℕ) (s : Store V) → Low s → Adds k s s
  nothing-Adds k s h = record { low = h; fresh = omega arith; tokens = omega arith }

  pub then-Adds : (s t u : Store V) (k l : ℕ) → Adds k s t → Adds l t u → Adds (k + l) s u
  then-Adds s t u k l a b = record {
    low = b.low;
    fresh = omega (arith, a.fresh, b.fresh);
    tokens =
        omega (arith, a.tokens, b.tokens, news-chain v s.fresh t.fresh u.fresh a.fresh b.fresh);
  }

  pub less-Adds : (s t : Store V) (k l : ℕ) → Adds k s t → k ≤ l → Adds l s t
  less-Adds s t k l a h = record {
    low = a.low;
    fresh = a.fresh;
    tokens = omega (arith, a.tokens, h);
  }

  pub bind-Costs :
      {A B : Type 0} (k l : ℕ) (m : Code (Store V) A) (f : A → Code (Store V) B)
      → Costs k m
      → ((a : A) → Costs l (f a))
      → Costs (k + l) (m >>= f)
  bind-Costs {A} {B} k l m f cm cf s h = go (m s) (cm s h)
    where
      go : (r : Ends A × Store V) → Adds k s r.1 → Adds (k + l) s (and_then r f).1
      go (done a, t) c = then-Adds s t _ k l c (cf a t c.low)
      go (thrown e, t) c = less-Adds s t k (k + l) c (omega arith)
      go (undefined, t) c = less-Adds s t k (k + l) c (omega arith)
      go (dangling p, t) c = less-Adds s t k (k + l) c (omega arith)

  -- The same for what is free.
  pub free-then : (s t u : Store V) → Adds 0 s t → Adds 0 t u → Adds 0 s u
  free-then s t u a b = less-Adds s u (0 + 0) 0 (then-Adds s t u 0 0 a b) (omega arith)

  pub free-bind :
      {A B : Type 0} (m : Code (Store V) A) (f : A → Code (Store V) B)
      → Costs 0 m
      → ((a : A) → Costs 0 (f a))
      → Costs 0 (m >>= f)
  free-bind m f cm cf s h = less-Adds s _ (0 + 0) 0 (bind-Costs 0 0 m f cm cf s h) (omega arith)

  pub deref-Adds :
      {B : Type 0} (k p : ℕ) (f : State V → Code (Store V) B) (s : Store V)
      → Low s
      → ((b : State V) → s.states p ≡ some b → Adds k s (f b s).1)
      → Adds k s ((deref p >>= f) s).1
  deref-Adds k p f s h g = deref-cases (Adds k s) p f s (nothing-Adds k s h) g

  pub in_use : (s : Store V) (p : ℕ) (b : State V) → Low s → s.states p ≡ some b → p < s.fresh
  in_use s p b h e = ground (arith, h p)

  -- A write, or the end of a state.
  pub write-Adds :
      (s : Store V) (p : ℕ) (b : State V) (o : Option (State V)) (k : ℕ)
      → s.states p ≡ some b
      → Low s
      → in_state v o ≤ in_stack v b.continuations + k
      → Adds k s (record s { states = update s.states p o })
  write-Adds s p b o k e h l = record {
    low = λ q g. ground (arith, h q g, in_use s p b h e);
    fresh = omega arith;
    tokens = omega (arith, tokens-write v s p b o e (in_use s p b h e), l);
  }

  pub same_list-Adds :
      (s : Store V) (p : ℕ) (b b' : State V)
      → s.states p ≡ some b
      → Low s
      → b'.continuations ≡ b.continuations
      → Adds 0 s (write p b' s).1
  same_list-Adds s p b b' e h c =
      write-Adds s p b (some b') 0 e h (omega (arith, ap (in_stack v) c))

  -- Jobs that begin cost their tokens.
  pub begin-Adds :
      (s : Store V) (js : List (Job V)) (k : ℕ)
      → Low s
      → sum (in_job v) js ≡ k
      → Adds k s (begin js s).1
  begin-Adds s js k h e = record {
    low = h;
    fresh = omega arith;
    tokens = omega (arith, tokens-begin v s js, e);
  }
