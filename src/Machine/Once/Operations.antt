-- ===== src/Machine/Once/Operations.antt =====
-- What each operation of the store costs.
use portable_concurrency.Prelude.{
  ℕ, suc, ◌≡◌, ◌&&◌, not, refl, ap, Option, none, some, [], ◌∷◌, ◌++◌, map, update, Option-cases,
  Bool-cases, inl, inr, arith,
}
use portable_concurrency.Store.{
  ◌>>=◌, ◌>>◌, Error, broken_promise, Storage, value, inner, failure, Continuation, Continuations,
  Continuations-cases, forward, waiting, executed, Frame, plain, cancellable, continuation, task,
  State, Store, call, destroy,
}
use portable_concurrency.Owners.{
  deref, write, begin, share, lock, lock-none, lock-some, drop, drop_owner, parts, cancel,
  cancel_of, storage_parts,
}
use portable_concurrency.SharedState.{
  is_empty, is_inner, is_executed, push, execute, satisfy, emplace, set_exception, abandon, unwrap,
}
use portable_concurrency.Machine.Once.Tokens.{
  sum, sum-append, in_continuation, in_stack, in_seen, in_job, tokens-write, tokens-begin,
  calls-tokens, destroys-tokens, storage_parts-tokens, parts-tokens,
}
use portable_concurrency.Machine.Once.Prices.{
  Low, Adds, Costs, nothing-Adds, free-then, free-bind, deref-Adds, in_use, write-Adds,
  same_list-Adds, begin-Adds,
}

module _ {V : Type 0} (v : ℕ) where
  pub share-Costs : (p : ℕ) → Costs v 0 (share {V = V} p)
  unfolding share
  share-Costs p s h =
      deref-Adds v 0 p _ s h
        λ b e. same_list-Adds v s p b (record b { owners = suc b.owners }) e h refl

  pub lock-Costs : (p : ℕ) → Costs v 0 (lock {V = V} p)
  lock-Costs p s h = elim (Option-cases (s.states p)) [
    | inl e ↦ rw (lock-none p s e) (nothing-Adds v 0 s h)
    | inr (b, e) ↦
        rw (lock-some p s b e)
          (same_list-Adds v s p b (record b { owners = suc b.owners }) e h refl)
  ]

  pub push-Costs : (p : ℕ) (c : Continuation) → Costs v (in_continuation v c) (push {V = V} p c)
  unfolding push
  push-Costs p c s h = deref-Adds v (in_continuation v c) p _ s h λ b e.
      elim (Continuations-cases b.continuations) [
        | inl x ↦
            rw x (begin-Adds v s (call c ∷ destroy c ∷ []) (in_continuation v c) h (omega arith))
        | inr (cs, w) ↦ rw w (
            write-Adds v s p b (some (record b { continuations = waiting (c ∷ cs) }))
              (in_continuation v c) e h (omega (arith, ap (in_stack v) w)))
      ]

  pub execute-Costs : (p : ℕ) → Costs v 0 (execute {V = V} p)
  unfolding execute
  execute-Costs p s h = deref-Adds v 0 p _ s h λ b e. elim (Continuations-cases b.continuations) [
    | inl x ↦ rw x (nothing-Adds v 0 s h)
    | inr (cs, w) ↦ rw w (record {
      low = λ q g. ground (arith, h q g, in_use v s p b h e);
      fresh = omega arith;
      tokens = omega (
        arith,
        tokens-begin v (write p (record b { continuations = executed }) s).1
            (map call cs ++ map destroy cs),
        tokens-write v s p b (some (record b { continuations = executed })) e (in_use v s p b h e),
        ap (in_stack v) w,
        sum-append (in_job v) (map call cs) (map destroy cs),
        calls-tokens V v cs,
        destroys-tokens V v cs,
      );
    })
  ]

  satisfy-Costs : (p : ℕ) (x : Storage V) → Costs v 0 (satisfy p x)
  unfolding satisfy
  satisfy-Costs p x s h = deref-Adds v 0 p _ s h λ b e. elim (Bool-cases (is_empty b.storage)) [
    | inl t ↦ rw t (
        let a = same_list-Adds v s p b (record b { storage = x }) e h refl in
        free-then v s _ _ a (execute-Costs p _ a.low))
    | inr f ↦ rw f (nothing-Adds v 0 s h)
  ]

  pub emplace-Costs : (p : ℕ) (w : V) → Costs v 0 (emplace p w)
  unfolding emplace
  emplace-Costs p w = satisfy-Costs p (value w)

  pub set_exception-Costs : (p : ℕ) (e : Error) → Costs v 0 (set_exception {V = V} p e)
  unfolding set_exception
  set_exception-Costs p e = satisfy-Costs p (failure e)

  pub abandon-Costs : (p : ℕ) → Costs v 0 (abandon {V = V} p)
  unfolding abandon
  abandon-Costs p s h = deref-Adds v 0 p _ s h λ b e.
      elim (Bool-cases (not (is_executed b.continuations) && not (is_inner b.storage))) [
        | inl t ↦ rw t (set_exception-Costs p broken_promise s h)
        | inr f ↦ rw f (nothing-Adds v 0 s h)
      ]

  cancel_of-tokens : (f : Frame V) (k : Continuations) → sum (in_seen v) (cancel_of f k) ≡ 0
  cancel_of-tokens (cancellable a) (waiting cs) = refl
  cancel_of-tokens (cancellable a) executed = refl
  cancel_of-tokens plain k = refl
  cancel_of-tokens (continuation x a) k = refl
  cancel_of-tokens (task f) k = refl

  cancel-tokens : (b : State V) → sum (in_seen v) (cancel b) ≡ 0
  unfolding cancel
  cancel-tokens b = cancel_of-tokens b.frame b.continuations

  drop_owner-Adds :
      (p : ℕ) (b : State V) (n : ℕ) (s : Store V)
      → s.states p ≡ some b
      → Low v s
      → Adds v 0 s (drop_owner p b n s).1
  unfolding drop_owner
  drop_owner-Adds p b (suc (suc k)) s e h =
      same_list-Adds v s p b (record b { owners = suc k }) e h refl
  drop_owner-Adds p b n s e h =
      let a = write-Adds v s p b none 0 e h (omega arith) in
      let c =
        begin-Adds v (record s { states = update s.states p none }) (parts b) 0 a.low
          (parts-tokens V v b) in
      let d = free-then v s _ _ a c in
      record {
        low = d.low;
        fresh = d.fresh;
        tokens = omega (arith, d.tokens, sum-append (in_seen v) (cancel b) s.seen, cancel-tokens b);
      }

  pub drop-Costs : (p : ℕ) → Costs v 0 (drop {V = V} p)
  unfolding drop
  drop-Costs p s h = deref-Adds v 0 p _ s h λ b e. drop_owner-Adds p b b.owners s e h

  pub unwrap-Costs : (self : ℕ) (o : Option ℕ) → Costs v 0 (unwrap {V = V} self o)
  unfolding unwrap
  unwrap-Costs self none s h = set_exception-Costs self broken_promise s h
  unwrap-Costs self (some q) s h =
      deref-Adds v 0 self _ s h
        λ b e. free-bind v (share q) _ (share-Costs q) (λ x. store_inner) s h
    where
      store_inner : Costs {V = V} v 0 (
          deref self >>= λ b.
          write self (record b { storage = inner q })
          >> begin (storage_parts b.storage)
          >> push q (forward self))
      store_inner s h = deref-Adds v 0 self _ s h λ b e.
          let a = same_list-Adds v s self b (record b { storage = inner q }) e h refl in
          let c =
            begin-Adds v _ (storage_parts b.storage) 0 a.low (storage_parts-tokens V v b.storage) in
          let d = free-then v s _ _ a c in free-then v s _ _ d (push-Costs q (forward self) _ d.low)
