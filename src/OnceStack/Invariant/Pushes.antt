-- ===== src/OnceStack/Invariant/Pushes.antt =====
-- Every step of a running `push` keeps the invariant.
use portable_concurrency.Prelude.{
  if_pos, if_neg, ℕ, ◌≡◌, ◌≢◌, none, some, List, [], ◌∷◌, arith, update, refl, ℕ_discrete,
  update-same, Bool-cases, Option-cases, sym, subst, inl, inr,
}
use portable_concurrency.OnceStack.{
  Node, Producer, null, marker, node, entered, trying, lost, refused, idle, accepted, rejected,
  pushed, with_next, free, called_in_place, next_at, ptr_eq, push_step, push_event,
}
use portable_concurrency.OnceStack.Spec.{View, filling, SpecStep, call_in_place}
use portable_concurrency.OnceStack.System.{System}
use portable_concurrency.OnceStack.Invariant.Defs.{Link, Chain, vals, Knows, Phase, Inv}
use portable_concurrency.OnceStack.Invariant.Chains.{ptr_eq→eq, ptr_eq-marker}
use portable_concurrency.OnceStack.Invariant.Moves.{
  Inv-own, Inv-goto, Phase-marker, Phase-open, Kept, Shows, silent, shown,
}

module _ {A : Type 0} {s : System A} {ls cs : List (Link A)} {v : View A} (inv : Inv s ls cs v)
    (i : ℕ) where
  -- Thread `i` is at `p`, and its next step leads to `t`.
  abbrev stepped : Producer A → System A
  stepped p = record s {
    mem = (push_step s.mem p).0;
    producers = update s.producers i (push_step s.mem p).1;
  }

  stays :
      (p : Producer A)
      → s.producers i ≡ p
      → Inv (record s { producers = update s.producers i p }) ls cs v
  stays p e =
      subst (λ ps. Inv (record s { producers = ps }) ls cs v) (sym (update-same s.producers i p e))
        inv

  entered-Kept : (n : ℕ) → s.producers i ≡ entered n → Kept v [] (stepped (entered n))
  unfolding push_step
  entered-Kept n e = elim (Bool-cases (ptr_eq s.mem.head marker)) [
    | inl t ↦ rw t (
      ls,
      cs,
      v,
      Inv-goto inv i n (refused n) (ground arith) (λ k f. ground arith) (ptr_eq→eq _ _ t),
      silent,
    )
    | inr f ↦ rw f (
      ls,
      cs,
      v,
      Inv-own inv i n (with_next (s.mem.cell n) s.mem.head) (trying n) (ground arith)
          (λ k g. (ground arith, ground (arith, inv.allocated i n)))
          (ground (arith, inv.allocated i n, ptr_eq-marker s.mem.head)),
      silent,
    )
  ]

  lost-Kept : (n : ℕ) → s.producers i ≡ lost n → Kept v [] (stepped (lost n))
  unfolding push_step
  lost-Kept n e = elim (Bool-cases (ptr_eq (next_at s.mem n) marker)) [
    | inl t ↦ rw t (
      ls,
      cs,
      v,
      Inv-own inv i n (with_next (s.mem.cell n) null) (refused n) (ground arith)
          (λ k g. (ground arith, ground (arith, inv.allocated i n)))
          (subst (Knows s.mem) e (inv.knows i) (ptr_eq→eq _ _ t)),
      silent,
    )
    | inr f ↦ rw f (
      ls,
      cs,
      v,
      Inv-goto inv i n (trying n) (ground arith) (λ k g. ground arith) (ptr_eq-marker _ f),
      silent,
    )
  ]

  push_step-refused :
      (n : ℕ) (c : Node A)
      → s.mem.cell n ≡ some c
      → (push_step s.mem (refused n) ≡ (free s.mem n, rejected c.val))
        × (push_event s.mem (refused n) ≡ called_in_place c.val ∷ [])
  unfolding push_step push_event
  push_step-refused n c e = (ground arith, ground arith)

  refused-Kept :
      (n : ℕ)
      → s.producers i ≡ refused n
      → Kept v (push_event s.mem (refused n)) (stepped (refused n))
  refused-Kept n e = elim (Option-cases (s.mem.cell n)) [
    | inl gone ↦ absurd (inv.allocated i n (ground arith) gone)
    | inr (c, e') ↦
        let closed =
          Phase-marker s.mem s.consumer ls cs v (subst (Knows s.mem) e (inv.knows i)) inv.phase in
        rw ((push_step-refused n c e').0, (push_step-refused n c e').1)
          (
            ls,
            cs,
            v,
            Inv-own inv i n none (rejected c.val) (ground arith) (λ k g. ground arith) tt,
            subst (λ w. Shows w (called_in_place c.val ∷ []) w) (sym closed)
                (shown (call_in_place c.val (vals cs))),
          )
  ]

  -- No push that runs on relies on the head not being changed.
  head-Knows :
      (n : ℕ) (p : Producer A)
      → s.mem.head ≢ marker
      → Knows s.mem p
      → Knows (record s.mem { head = node n }) p
  head-Knows n (trying k) h w = w
  head-Knows n (lost k) h w = λ f. absurd (h (w f))
  head-Knows n (refused k) h w = absurd (h w)
  head-Knows n idle h w = w
  head-Knows n (entered k) h w = w
  head-Knows n accepted h w = w
  head-Knows n (rejected a) h w = w

  -- The exchange succeeds: the node of thread `i` becomes the head of the chain.
  wins :
      (n : ℕ) (c : Node A)
      → s.producers i ≡ trying n
      → s.mem.cell n ≡ some c
      → s.mem.head ≡ c.next
      → Kept v (pushed c.val ∷ []) (record s {
        mem = record s.mem { head = node n };
        producers = update s.producers i accepted;
      })
  wins n c e e' same =
      let open_head : s.mem.head ≢ marker = ground (arith, subst (Knows s.mem) e (inv.knows i)) in
      let (ready, chain, none_left, view) =
        Phase-open s.mem s.consumer ls cs v open_head inv.phase in
      (
        record { address = n; content = c } ∷ ls,
        [],
        filling (c.val ∷ vals ls),
        record {
          phase =
              subst
                (λ k.
                  Phase (record s.mem { head = node n }) k
                    (record { address = n; content = c } ∷ ls) [] (filling (c.val ∷ vals ls)))
                (sym ready) ((refl, e', subst (λ p. Chain s.mem.cell p ls) same chain), refl, refl);
          distinct = ((inv.unlisted i n (ground arith)).0, inv.distinct);
          allocated = λ j k g. ground (arith, inv.allocated j k);
          unlisted = λ j k g. ground (arith, inv.unlisted j k, inv.unique i j n);
          unique = λ j l k g h. ground (arith, inv.unique j l k);
          knows = λ j. elim (ℕ_discrete i j) [
            | yes here ↦ rw (if_pos _ here) tt
            | no other ↦ rw (if_neg _ other) (head-Knows n (s.producers j) open_head (inv.knows j))
          ];
        },
        subst (λ w. Shows w (pushed c.val ∷ []) (filling (c.val ∷ vals ls))) (sym view)
            (shown (SpecStep.push c.val (vals ls))),
      )

  trying-Kept :
      (n : ℕ) → s.producers i ≡ trying n → Kept v (push_event s.mem (trying n)) (stepped (trying n))
  unfolding push_step push_event
  trying-Kept n e = elim (Option-cases (s.mem.cell n)) [
    | inl gone ↦ absurd (inv.allocated i n (ground arith) gone)
    | inr (c, e') ↦ elim (Bool-cases (ptr_eq s.mem.head c.next)) [
      | inl t ↦ rw (e', push_event, next_at, t) (wins n c e e' (ptr_eq→eq _ _ t))
      | inr f ↦
          rw (e', push_event, next_at, f)
            (
              ls,
              cs,
              v,
              Inv-own inv i n (some (record c { next = s.mem.head })) (lost n) (ground arith)
                  (λ k g. (ground arith, ground arith)) (ground arith),
              silent,
            )
    ]
  ]

  pub push-Kept : (p : Producer A) → s.producers i ≡ p → Kept v (push_event s.mem p) (stepped p)
  unfolding push_step push_event
  push-Kept idle e = (ls, cs, v, stays idle e, silent)
  push-Kept accepted e = (ls, cs, v, stays accepted e, silent)
  push-Kept (rejected w) e = (ls, cs, v, stays (rejected w) e, silent)
  push-Kept (entered n) e = entered-Kept n e
  push-Kept (lost n) e = lost-Kept n e
  push-Kept (refused n) e = refused-Kept n e
  push-Kept (trying n) e = trying-Kept n e
