-- ===== src/Machine/Settled/Operations.antt =====
-- Every operation of the store keeps the invariant.
use portable_concurrency.Prelude.{
  ℕ, suc, ◌≡◌, true, false, not, Option, none, some, [], ◌∷◌, ◌++◌, ◌&&◌, map, update, arith, refl,
  sym, subst, inl, inr, Option-cases, Bool-cases,
}
use portable_concurrency.Store.{
  Continuations-cases, Code, done, thrown, undefined, dangling, ◌>>=◌, ◌>>◌, and_then, Ends, Error,
  Storage, Continuation, Continuations, Frame, State, Store, forward, waiting, executed, call,
  destroy, inner, value, failure, broken_promise,
}
use portable_concurrency.Owners.{
  deref-none, deref-some, drop_owner, lock-none, lock-some, deref, write, begin, share, lock, drop,
  make_shared, storage_parts, parts,
}
use portable_concurrency.SharedState.{
  is_empty, is_inner, is_executed, push, execute, satisfy, emplace, set_exception, abandon, unwrap,
}
use portable_concurrency.Machine.Settled.Defs.{
  is_settled, IsFine, IsFineStack, IsFineState, Holds, Inv-jobs, Inv-write, Inv-make, in_use,
  jobs-append,
}
use portable_concurrency.Machine.Settled.Parts.{
  calls_fine, destroys_fine, storage_parts_fine, parts_fine,
}

module _ {V : Type 0} where
  abbrev pub Keeps {ℓ} : {A : Type ℓ} → (Store V → A × Store V) → Type 0
  Keeps m = (s : Store V) → Holds s → Holds (m s).1

  pub bind-Keeps :
      {A B : Type 0} (m : Code (Store V) A) (f : A → Code (Store V) B)
      → Keeps m
      → ((a : A) → Keeps (f a))
      → Keeps (m >>= f)
  bind-Keeps {A} {B} m f km kf s h = go (m s) (km s h)
    where
      go : (r : Ends A × Store V) → Holds r.1 → Holds (and_then r f).1
      go (done a, s') h = kf a s' h
      go (thrown e, s') h = h
      go (undefined, s') h = h
      go (dangling p, s') h = h

  -- What holds of the store when the state is gone, and of what follows when it is there.
  pub deref-cases :
      {B : Type 0} (P : Store V → Type 0) (p : ℕ) (f : State V → Code (Store V) B) (s : Store V)
      → P s
      → ((b : State V) → s.states p ≡ some b → P (f b s).1)
      → P ((deref p >>= f) s).1
  deref-cases P p f s h k = elim (Option-cases (s.states p)) [
    | inl e ↦ subst (λ r. P (and_then r f).1) (sym (deref-none p s e)) h
    | inr (b, e) ↦ subst (λ r. P (and_then r f).1) (sym (deref-some p s b e)) (k b e)
  ]

  pub deref-Holds :
      {B : Type 0} (p : ℕ) (f : State V → Code (Store V) B) (s : Store V)
      → Holds s
      → ((b : State V) → s.states p ≡ some b → Holds (f b s).1)
      → Holds ((deref p >>= f) s).1
  deref-Holds p f s h k = deref-cases Holds p f s h k

  -- A write that leaves the storage and the list as they are, such as one to the count of owners.
  pub same-Keeps :
      (s : Store V) (p : ℕ) (b b' : State V)
      → s.states p ≡ some b
      → b'.storage ≡ b.storage
      → b'.continuations ≡ b.continuations
      → Holds s
      → Holds (write p b' s).1
  same-Keeps s p b b' e st ct h =
      Inv-write h p (some b') (in_use h p b e) (λ f. ground arith)
        (rw (st, ct) (subst (IsFineState s.states s.fresh) e (h.fine p)))

  pub share-Keeps : (p : ℕ) → Keeps (share {V = V} p)
  unfolding share
  share-Keeps p s h =
      deref-Holds p _ s h λ b e. same-Keeps s p b (record b { owners = suc b.owners }) e refl refl h

  pub lock-Keeps : (p : ℕ) → Keeps (lock {V = V} p)
  lock-Keeps p s h = elim (Option-cases (s.states p)) [
    | inl e ↦ rw (lock-none p s e) h
    | inr (b, e) ↦
        rw (lock-some p s b e) (same-Keeps s p b (record b { owners = suc b.owners }) e refl refl h)
  ]

  -- A continuation that is pushed has to be fine.
  pub push-Holds :
      (p : ℕ) (c : Continuation) (s : Store V)
      → IsFine s.states s.fresh c
      → Holds s
      → Holds (push p c s).1
  unfolding push
  push-Holds p c s k h = deref-Holds p _ s h λ b e. elim (Continuations-cases b.continuations) [
    | inl x ↦ rw x (Inv-jobs h (call c ∷ destroy c ∷ []) (k, (tt, tt)))
    | inr (cs, w) ↦ rw w (
        Inv-write h p (some (record b { continuations = waiting (c ∷ cs) })) (in_use h p b e)
          (λ f. ground arith)
          (
            k,
            subst (λ l. IsFineStack s.states s.fresh l b.storage) w
                (subst (IsFineState s.states s.fresh) e (h.fine p)),
          ))
  ]

  -- A state that is executed has to be settled.
  pub execute-Holds :
      (p : ℕ) (s : Store V) → is_settled (s.states p) ≡ true → Holds s → Holds (execute p s).1
  unfolding execute
  execute-Holds p s k h = deref-Holds p _ s h λ b e. elim (Continuations-cases b.continuations) [
    | inl x ↦ rw x h
    | inr (cs, w) ↦ rw w (
        Inv-write
          (Inv-jobs h (map call cs ++ map destroy cs) (
            jobs-append s.states s.fresh (map call cs) (map destroy cs)
              (calls_fine s.states s.fresh cs (
                subst (λ l. IsFineStack s.states s.fresh l b.storage) w
                  (subst (IsFineState s.states s.fresh) e (h.fine p))))
              (destroys_fine s.states s.fresh cs)))
          p (some (record b { continuations = executed })) (in_use h p b e) (λ f. ground arith)
          (ground arith))
  ]

  satisfy-Keeps : (p : ℕ) (x : Storage V) → is_empty x ≡ false → Keeps (satisfy p x)
  unfolding satisfy
  satisfy-Keeps p x full s h = deref-Holds p _ s h λ b e. elim (Bool-cases (is_empty b.storage)) [
    | inl t ↦ rw t (
        execute-Holds p (write p (record b { storage = x }) s).1 (ground arith) (
          Inv-write h p (some (record b { storage = x })) (in_use h p b e) (λ f. ground arith)
            (filled b.storage b.continuations (subst (IsFineState s.states s.fresh) e (h.fine p)))))
    | inr f ↦ rw f h
  ]
    where
      filled :
          (y : Storage V) (k : Continuations)
          → IsFineStack s.states s.fresh k y
          → IsFineStack s.states s.fresh k x
      filled y (waiting cs) c = c
      filled y executed c = full

  pub emplace-Keeps : (p : ℕ) (v : V) → Keeps (emplace p v)
  unfolding emplace
  emplace-Keeps p v = satisfy-Keeps p (value v) refl

  pub set_exception-Keeps : (p : ℕ) (e : Error) → Keeps (set_exception {V = V} p e)
  unfolding set_exception
  set_exception-Keeps p e = satisfy-Keeps p (failure e) refl

  pub abandon-Keeps : (p : ℕ) → Keeps (abandon {V = V} p)
  unfolding abandon
  abandon-Keeps p s h = deref-Holds p _ s h λ b e.
      elim (Bool-cases (not (is_executed b.continuations) && not (is_inner b.storage))) [
        | inl t ↦ rw t (set_exception-Keeps p broken_promise s h)
        | inr f ↦ rw f h
      ]

  pub make_shared-Keeps : (f : Frame V) → Keeps (make_shared f)
  unfolding make_shared
  make_shared-Keeps f s h = Inv-make h _ refl

  drop_owner-Holds :
      (p : ℕ) (b : State V) (n : ℕ) (s : Store V)
      → s.states p ≡ some b
      → Holds s
      → Holds (drop_owner p b n s).1
  unfolding drop_owner
  drop_owner-Holds p b (suc (suc k)) s e h =
      same-Keeps s p b (record b { owners = suc k }) e refl refl h
  drop_owner-Holds p b n s e h =
      Inv-jobs (Inv-write h p none (in_use h p b e) (λ f. refl) tt) (parts b)
        (parts_fine (update s.states p none) s.fresh b)

  pub drop-Keeps : (p : ℕ) → Keeps (drop {V = V} p)
  unfolding drop
  drop-Keeps p s h = deref-Holds p _ s h λ b e. drop_owner-Holds p b b.owners s e h

  pub unwrap-Keeps : (self : ℕ) (o : Option ℕ) → Keeps (unwrap {V = V} self o)
  unfolding unwrap
  unwrap-Keeps self none s h = set_exception-Keeps self broken_promise s h
  unwrap-Keeps self (some q) s h =
      deref-Holds self _ s h λ b e. bind-Keeps (share q) _ (share-Keeps q) (λ x. store_inner) s h
    where
      store_inner : Keeps (
          deref self >>= λ b.
          write self (record b { storage = inner q })
          >> begin (storage_parts b.storage)
          >> push q (forward self))
      store_inner s h = deref-Holds self _ s h λ b e.
          push-Holds q (forward self) _ (in_use h self b e, ground arith)
            (Inv-jobs
              (Inv-write h self (some (record b { storage = inner q })) (in_use h self b e)
                (λ f. ground arith)
                (filled b.storage b.continuations
                  (subst (IsFineState s.states s.fresh) e (h.fine self))))
              (storage_parts b.storage) (storage_parts_fine _ s.fresh b.storage))
        where
          filled :
              (y : Storage V) (k : Continuations)
              → IsFineStack s.states s.fresh k y
              → IsFineStack s.states s.fresh k (inner q)
          filled y (waiting cs) c = c
          filled y executed c = refl
