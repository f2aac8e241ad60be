-- ===== src/Machine/Owned/Operations.antt =====
-- What the operations of the store do with pointers.
use portable_concurrency.Prelude.{
  ℕ, zero, suc, List, ◌+◌, ◌≡◌, ◌&&◌, not, refl, ap, Option, none, some, [], ◌∷◌, ◌++◌, map, update,
  Option-cases, Bool-cases, true, inl, inr, arith,
}
use portable_concurrency.Store.{
  ◌>>=◌, ◌>>◌, Error, broken_promise, Storage, empty, value, inner, failure, Continuation,
  Continuations-cases, forward, waiting, executed, State, Store, call, destroy, Job,
}
use portable_concurrency.Owners.{
  deref, write, begin, share, lock, lock-none, lock-some, drop, drop_owner, parts, storage_parts,
}
use portable_concurrency.SharedState.{
  is_empty, is_inner, is_executed, push, execute, satisfy, emplace, set_exception, abandon, unwrap,
}
use portable_concurrency.Machine.Once.Tokens.{sum}
use portable_concurrency.Machine.Once.Prices.{Low}
use portable_concurrency.Machine.Owned.Refs.{
  pointer, option_refs, continuation_refs, stack_refs, storage_refs, job_refs, Backed,
  Backed-append,
}
use portable_concurrency.Machine.Owned.Parts.{
  executes-refs, storage_parts-refs, parts-refs, executes-Backed, storage_parts-Backed,
  parts-Backed,
}
use portable_concurrency.Machine.Owned.Moves.{
  Sound, Kept, After, Moves, nothing-Kept, then-Kept, then-Moves, bind-Moves, deref-After,
  write-Kept, same_owners-Kept, begin-Kept,
}

module _ {V : Type 0} (v : ℕ) where
  -- What does not throw may be given more than it needs, `e`, and leaves that in hand.
  pub begin-Moves :
      (js : List (Job V)) (k e : ℕ)
      → Backed v js
      → sum (job_refs v) js + e ≡ k
      → Moves v k (λ _. e) (begin js)
  begin-Moves js k e b i s h n = begin-Kept v s js k e h n (Backed-append v js s.jobs b n.1) i

  one_more-Kept :
      (p e l : ℕ) (s : Store V) (b : State V)
      → s.states p ≡ some b
      → pointer v p + e ≡ l
      → Low v s
      → Sound v s
      → Kept v s e (write p (record b { owners = suc b.owners }) s).1 l
  one_more-Kept p e l s b g i h n =
      write-Kept v s p b (some (record b { owners = suc b.owners })) e l g h n
        (λ c j. ground (arith, j)) (ground (arith, i))

  pub share-Moves : (p e l : ℕ) → pointer v p + e ≡ l → Moves v e (λ _. l) (share {V = V} p)
  unfolding share
  share-Moves p e l i s h n =
      deref-After v e (λ _. l) p _ s (λ b g. one_more-Kept p e l s b g i h n)

  pub lock-Moves : (p : ℕ) → Moves v 0 (option_refs v) (lock {V = V} p)
  lock-Moves p s h n = elim (Option-cases (s.states p)) [
    | inl g ↦ rw (lock-none p s g) (nothing-Kept v 0 s h n)
    | inr (b, g) ↦ rw (lock-some p s b g) (one_more-Kept p 0 (pointer v p) s b g (omega arith) h n)
  ]

  pub push-Moves :
      (p : ℕ) (c : Continuation) (k e : ℕ)
      → continuation_refs v c + e ≡ k
      → Moves v k (λ _. e) (push {V = V} p c)
  unfolding push
  push-Moves p c k e i s h n =
      deref-After v k (λ _. e) p _ s
        λ b g. elim (Continuations-cases b.continuations) [
          | inl x ↦
              rw x
                (begin-Moves (call c ∷ destroy c ∷ []) k e (ground arith) (omega (arith, i)) s h n)
          | inr (cs, w) ↦ rw w (
              same_owners-Kept v s p b (record b { continuations = waiting (c ∷ cs) }) k e g h n
                refl (omega (arith, i, ap (stack_refs v) w)))
        ]

  pub execute-Moves : (p e : ℕ) → Moves v e (λ _. e) (execute {V = V} p)
  unfolding execute
  execute-Moves p e s h n =
      deref-After v e (λ _. e) p _ s
        λ b g. elim (Continuations-cases b.continuations) [
          | inl x ↦ rw x (nothing-Kept v e s h n)
          | inr (cs, w) ↦ rw w (
              let x =
                same_owners-Kept v s p b (record b { continuations = executed }) e
                  (sum (continuation_refs v) cs + e) g h n refl
                  (omega (arith, ap (stack_refs v) w)) in
              then-Moves v s _ e _ (λ _. e) (begin (map call cs ++ map destroy cs)) x
                (begin-Moves (map call cs ++ map destroy cs) _ e (executes-Backed V v cs)
                  (omega (arith, executes-refs V v cs))))
        ]

  is_empty-refs : (x : Storage V) → is_empty x ≡ true → storage_refs v x ≡ 0
  is_empty-refs empty e = refl
  is_empty-refs (value w) e = refl
  is_empty-refs (inner q) e = ground (arith, e)
  is_empty-refs (failure w) e = refl

  satisfy-Moves : (p : ℕ) (x : Storage V) → storage_refs v x ≡ 0 → Moves v 0 (λ _. 0) (satisfy p x)
  unfolding satisfy
  satisfy-Moves p x i s h n =
      deref-After v 0 (λ _. 0) p _ s
        λ b g. elim (Bool-cases (is_empty b.storage)) [
          | inl t ↦ rw t (
              let y =
                same_owners-Kept v s p b (record b { storage = x }) 0 0 g h n refl
                  (omega (arith, i, is_empty-refs b.storage t)) in
              then-Moves v s _ 0 0 (λ _. 0) (execute p) y (execute-Moves p 0))
          | inr f ↦ rw f (nothing-Kept v 0 s h n)
        ]

  pub emplace-Moves : (p : ℕ) (w : V) → Moves v 0 (λ _. 0) (emplace p w)
  unfolding emplace
  emplace-Moves p w = satisfy-Moves p (value w) refl

  pub set_exception-Moves : (p : ℕ) (e : Error) → Moves v 0 (λ _. 0) (set_exception {V = V} p e)
  unfolding set_exception
  set_exception-Moves p e = satisfy-Moves p (failure e) refl

  pub abandon-Moves : (p : ℕ) → Moves v 0 (λ _. 0) (abandon {V = V} p)
  unfolding abandon
  abandon-Moves p s h n =
      deref-After v 0 (λ _. 0) p _ s
        λ b g. elim (Bool-cases (not (is_executed b.continuations) && not (is_inner b.storage))) [
          | inl t ↦ rw t (set_exception-Moves p broken_promise s h n)
          | inr f ↦ rw f (nothing-Kept v 0 s h n)
        ]

  drop_owner-After :
      (p : ℕ) (b : State V) (m : ℕ) (s : Store V)
      → s.states p ≡ some b
      → b.owners ≡ m
      → Low v s
      → Sound v s
      → After v s (pointer v p) (λ _. 0) (drop_owner p b m s)
  unfolding drop_owner
  drop_owner-After p b zero s g i h n = absurd (omega (arith, n.0 p b g, i))
  drop_owner-After p b (suc zero) s g i h n =
      let x =
        write-Kept v s p b none (pointer v p) (sum (job_refs v) (parts b)) g h n
          (λ c j. ground (arith, j)) (ground (arith, i, parts-refs V v b)) in
      let y =
        begin-Kept v (record s { states = update s.states p none }) (parts b)
          (sum (job_refs v) (parts b)) 0 x.low x.sound
          (Backed-append v (parts b) s.jobs (parts-Backed V v b) n.1) (omega arith) in
      let z = then-Kept v s _ _ (pointer v p) (sum (job_refs v) (parts b)) 0 x y in
      record { low = z.low; sound = z.sound; balance = z.balance }
  drop_owner-After p b (suc (suc k)) s g i h n =
      write-Kept v s p b (some (record b { owners = suc k })) (pointer v p) 0 g h n
        (λ c j. ground (arith, j)) (ground (arith, i))

  pub drop-Moves : (p : ℕ) → Moves v (pointer v p) (λ _. 0) (drop {V = V} p)
  unfolding drop
  drop-Moves p s h n =
      deref-After v (pointer v p) (λ _. 0) p _ s λ b g. drop_owner-After p b b.owners s g refl h n

  store_inner-Moves :
      (self q : ℕ)
      → Moves v
          (pointer v q)
          (λ _. 0)
          (deref self >>= λ b.
            write {V = V} self (record b { storage = inner q })
            >> begin (storage_parts b.storage)
            >> push q (forward self))
  store_inner-Moves self q s h n =
      deref-After v (pointer v q) (λ _. 0) self _ s
        λ b g.
          let x =
            same_owners-Kept v s self b (record b { storage = inner q }) (pointer v q)
              (storage_refs v b.storage) g h n refl (omega arith) in
          then-Moves v s _ (pointer v q) (storage_refs v b.storage) (λ _. 0)
            (begin (storage_parts b.storage) >> push q (forward self)) x
            (bind-Moves v (storage_refs v b.storage) (λ _. 0) (λ _. 0)
              (begin (storage_parts b.storage)) (λ _. push q (forward self))
              (begin-Moves (storage_parts b.storage) (storage_refs v b.storage) 0
                (storage_parts-Backed V v b.storage)
                (omega (arith, storage_parts-refs V v b.storage)))
              (λ _. push-Moves q (forward self) 0 0 refl))

  pub unwrap-Moves : (self : ℕ) (o : Option ℕ) → Moves v 0 (λ _. 0) (unwrap {V = V} self o)
  unfolding unwrap
  unwrap-Moves self none s h n = set_exception-Moves self broken_promise s h n
  unwrap-Moves self (some q) s h n =
      deref-After v 0 (λ _. 0) self _ s
        λ b g.
          bind-Moves v 0 (λ _. pointer v q) (λ _. 0) (share q) _
            (share-Moves q 0 (pointer v q) (omega arith)) (λ _. store_inner-Moves self q) s h n
