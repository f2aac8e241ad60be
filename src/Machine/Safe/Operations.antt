-- ===== src/Machine/Safe/Operations.antt =====
-- The operations of the store use the state that they are given, and what it owns.
use portable_concurrency.Prelude.{
  ℕ, refl, suc, ◌≤◌, ◌≡◌, ◌&&◌, not, ap, Option, none, some, [], ◌∷◌, ◌++◌, map, ℕ_discrete,
  Option-cases, Bool-cases, inl, inr, arith,
}
use portable_concurrency.Store.{
  ◌>>=◌, ◌>>◌, Error, broken_promise, Storage, value, inner, failure, Continuation,
  Continuations-cases, forward, waiting, executed, Frame, State, Store, call, destroy,
}
use portable_concurrency.Owners.{
  deref, write, begin, share, lock, lock-none, lock-some, make_shared, storage_parts,
}
use portable_concurrency.SharedState.{
  is_empty, is_inner, is_executed, push, execute, satisfy, emplace, set_exception, abandon, unwrap,
}
use portable_concurrency.Machine.Owned.Refs.{
  storage_refs, pointer, option_refs, owner_count, owners, owners-write,
}
use portable_concurrency.Machine.Owned.Moves.{made}
use portable_concurrency.Machine.Safe.Ends.{
  Intact, Good, frame_parent, state-Links, update-Links, rewrite-Grown, same-Grown, then-Grown,
  then-Good, bind-Good, deref-Good, write-Grown, begin-Grown,
}

module _ {V : Type 0} (v : ℕ) where
  -- A state that gets one more owner has one.
  one_more-owned :
      (s : Store V) (p : ℕ) (b : State V)
      → s.states p ≡ some b
      → pointer v p ≤ owners v (write p (record b { owners = suc b.owners }) s).1
  one_more-owned s p b e =
      ground (arith, owners-write v s p b (some (record b { owners = suc b.owners })) e)

  pub share-Good :
      (p : ℕ) (s : Store V)
      → Intact v s
      → pointer v p ≤ owners v s
      → Good v s (λ _. pointer v p) (share p s)
  unfolding share
  share-Good p s h u =
      deref-Good v p (λ _. pointer v p) _ s u
        λ b e. (
          rewrite-Grown v s p b (record b { owners = suc b.owners }) e h (omega arith) refl refl,
          one_more-owned s p b e,
        )

  pub lock-Good : (p : ℕ) (s : Store V) → Intact v s → Good v s (option_refs v) (lock p s)
  lock-Good p s h = elim (Option-cases (s.states p)) [
    | inl e ↦ rw (lock-none p s e) (same-Grown v s h, omega arith)
    | inr (b, e) ↦ rw (lock-some p s b e) (
      rewrite-Grown v s p b (record b { owners = suc b.owners }) e h (omega arith) refl refl,
      one_more-owned s p b e,
    )
  ]

  -- The parent of a continuation that is made is there.
  pub make_shared-Good :
      (f : Frame V) (s : Store V)
      → Intact v s
      → frame_parent v f ≤ owners v s
      → Good v s (pointer v) (make_shared f s)
  unfolding make_shared
  make_shared-Good f s h i = (
    record {
      low = (
        λ p k. ground (arith, h.0 p),
        update-Links v s s.fresh (some (made v f)) (owners v (make_shared f s).1) h g
            (omega arith, omega (arith, i, g)),
      );
      grown = g;
    },
    owned,
  )
    where
      g : owners v s ≤ owners v (make_shared f s).1
      g = elim (ℕ_discrete s.fresh v) [
        | yes same ↦ ground (arith, ap owner_count (h.0 v (omega (arith, same))))
        | no other ↦ ground (arith, other)
      ]

      owned : pointer v s.fresh ≤ owners v (make_shared f s).1
      owned = ground arith

  pub push-Good :
      (p : ℕ) (c : Continuation) (s : Store V)
      → Intact v s
      → pointer v p ≤ owners v s
      → Good v s (λ _. 0) (push p c s)
  unfolding push
  push-Good p c s h u =
      deref-Good v p (λ _. 0) _ s u
        λ b e. elim (Continuations-cases b.continuations) [
          | inl x ↦ rw x (begin-Grown v s (call c ∷ destroy c ∷ []) h, omega arith)
          | inr (cs, w) ↦ rw w (
            rewrite-Grown v s p b (record b { continuations = waiting (c ∷ cs) }) e h (omega arith)
                refl refl,
            omega arith,
          )
        ]

  pub execute-Good :
      (p : ℕ) (s : Store V)
      → Intact v s
      → pointer v p ≤ owners v s
      → Good v s (λ _. 0) (execute p s)
  unfolding execute
  execute-Good p s h u =
      deref-Good v p (λ _. 0) _ s u
        λ b e. elim (Continuations-cases b.continuations) [
          | inl x ↦ rw x (same-Grown v s h, omega arith)
          | inr (cs, w) ↦ rw w (
              let g =
                rewrite-Grown v s p b (record b { continuations = executed }) e h (omega arith) refl
                  refl in
              (
                then-Grown v s _ _ g (begin-Grown v _ (map call cs ++ map destroy cs) g.low),
                omega arith,
              ))
        ]

  satisfy-Good :
      (p : ℕ) (x : Storage V) (s : Store V)
      → storage_refs v x ≡ 0
      → Intact v s
      → pointer v p ≤ owners v s
      → Good v s (λ _. 0) (satisfy p x s)
  unfolding satisfy
  satisfy-Good p x s i h u =
      deref-Good v p (λ _. 0) _ s u
        λ b e. elim (Bool-cases (is_empty b.storage)) [
          | inl t ↦ rw t (
              let g =
                write-Grown v s p b (record b { storage = x }) e h (omega arith)
                  (omega (arith, i), (state-Links v s p b h e).1) in
              then-Good v s _ (λ _. 0) _ g (execute-Good p _ g.low (omega (arith, u, g.grown))))
          | inr f ↦ rw f tt
        ]

  pub emplace-Good :
      (p : ℕ) (w : V) (s : Store V)
      → Intact v s
      → pointer v p ≤ owners v s
      → Good v s (λ _. 0) (emplace p w s)
  unfolding emplace
  emplace-Good p w s = satisfy-Good p (value w) s refl

  pub set_exception-Good :
      (p : ℕ) (e : Error) (s : Store V)
      → Intact v s
      → pointer v p ≤ owners v s
      → Good v s (λ _. 0) (set_exception p e s)
  unfolding set_exception
  set_exception-Good p e s = satisfy-Good p (failure e) s refl

  pub abandon-Good :
      (p : ℕ) (s : Store V)
      → Intact v s
      → pointer v p ≤ owners v s
      → Good v s (λ _. 0) (abandon p s)
  unfolding abandon
  abandon-Good p s h u =
      deref-Good v p (λ _. 0) _ s u
        λ b e. elim (Bool-cases (not (is_executed b.continuations) && not (is_inner b.storage))) [
          | inl t ↦ rw t (set_exception-Good p broken_promise s h u)
          | inr f ↦ rw f (same-Grown v s h, omega arith)
        ]

  store_inner-Good :
      (self q : ℕ) (s : Store V)
      → Intact v s
      → pointer v self ≤ owners v s
      → pointer v q ≤ owners v s
      → Good v s
          (λ _. 0)
          ((deref self >>= λ b.
              write self (record b { storage = inner q })
              >> begin (storage_parts b.storage)
              >> push q (forward self))
            s)
  store_inner-Good self q s h u w =
      deref-Good v self (λ _. 0) _ s u
        λ b e.
          let g =
            write-Grown v s self b (record b { storage = inner q }) e h (omega arith)
              (w, (state-Links v s self b h e).1) in
          let k = then-Grown v s _ _ g (begin-Grown v _ (storage_parts b.storage) g.low) in
          then-Good v s _ (λ _. 0) _ k
            (push-Good q (forward self) _ k.low (omega (arith, w, k.grown)))

  pub unwrap-Good :
      (self : ℕ) (o : Option ℕ) (s : Store V)
      → Intact v s
      → pointer v self ≤ owners v s
      → option_refs v o ≤ owners v s
      → Good v s (λ _. 0) (unwrap self o s)
  unfolding unwrap
  unwrap-Good self none s h u w = set_exception-Good self broken_promise s h u
  unwrap-Good self (some q) s h u w =
      deref-Good v self (λ _. 0) _ s u
        λ b e.
          bind-Good v s (λ _. pointer v q) (λ _. 0) (share q) _ (share-Good q s h w)
            (λ _ t g k. store_inner-Good self q t g.low (omega (arith, u, g.grown)) k)
