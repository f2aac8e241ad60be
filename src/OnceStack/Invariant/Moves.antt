-- ===== src/OnceStack/Invariant/Moves.antt =====
-- Every step of the system keeps the invariant.
use portable_concurrency.Prelude.{
  ℕ, ◌≡◌, ◌≢◌, Option, none, some, List, [], ◌∷◌, arith, update, refl, ℕ_discrete, update-same,
  if_pos, if_neg, ap, sym, ◌∙◌, subst,
}
use portable_concurrency.OnceStack.{
  Node, Memory, Producer, Consumer, null, marker, entered, trying, lost, refused, before, visiting,
  freeing, Event, free,
}
use portable_concurrency.OnceStack.Spec.{View, filling, draining, SpecStep}
use portable_concurrency.OnceStack.System.{System, begin_push}
use portable_concurrency.OnceStack.Invariant.Defs.{
  Link, Chain, IsApart, vals, owned, Knows, Phase, Inv,
}
use portable_concurrency.OnceStack.Invariant.Chains.{Chain-update, Chain-IsApart, Chain-ne-marker}

module _ {A : Type 0} where
  Phase-update :
      (m : Memory A) (c : Consumer) (n : ℕ) (x : Option (Node A)) (ls cs : List (Link A))
      (v : View A)
      → IsApart n ls
      → IsApart n cs
      → Phase m c ls cs v
      → Phase (record m { cell = update m.cell n x }) c ls cs v
  Phase-update m before n x ls cs v a b p = (Chain-update m.cell n x m.head ls a p.0, p.1, p.2)
  Phase-update m (visiting first current) n x ls cs v a b p =
      (p.0, Chain-update m.cell n x first ls a p.1, Chain-update m.cell n x current cs b p.2, p.3)
  Phase-update m (freeing q) n x ls cs v a b p = (p.0, Chain-update m.cell n x q ls a p.1, p.2, p.3)

  pub Knows-update :
      (m : Memory A) (p : Producer A) (n : ℕ) (x : Option (Node A))
      → owned p ≢ some n
      → Knows m p
      → Knows (record m { cell = update m.cell n x }) p
  Knows-update m (trying k) n x h w = ground arith
  Knows-update m (lost k) n x h w = ground arith
  Knows-update m (refused k) n x h w = w
  Knows-update m (entered k) n x h w = w
  Knows-update m Producer.idle n x h w = w
  Knows-update m Producer.accepted n x h w = w
  Knows-update m (Producer.rejected k) n x h w = w

  Phase-free :
      (m : Memory A) (c : Consumer) (n : ℕ) (ls cs : List (Link A)) (v : View A)
      → m.cell n ≡ none
      → Phase m c ls cs v
      → IsApart n ls × IsApart n cs
  Phase-free m before n ls cs v e p =
      (Chain-IsApart m.cell n m.head ls e p.0, subst (IsApart n) (sym p.1) tt)
  Phase-free m (visiting first current) n ls cs v e p =
      (Chain-IsApart m.cell n first ls e p.1, Chain-IsApart m.cell n current cs e p.2)
  Phase-free m (freeing q) n ls cs v e p =
      (Chain-IsApart m.cell n q ls e p.1, subst (IsApart n) (sym p.2) tt)

  -- Once the head is the marker, the items left are those that the consumer has not called.
  pub Phase-marker :
      (m : Memory A) (c : Consumer) (ls cs : List (Link A)) (v : View A)
      → m.head ≡ marker
      → Phase m c ls cs v
      → v ≡ draining (vals cs)
  Phase-marker m before ls cs v e p = absurd (Chain-ne-marker m.cell m.head ls p.0 e)
  Phase-marker m (visiting first current) ls cs v e p = p.3
  Phase-marker m (freeing q) ls cs v e p = p.3 ∙ ap (λ xs. draining (vals xs)) (sym p.2)

  -- While it is not, the stack fills.
  pub Phase-open :
      (m : Memory A) (c : Consumer) (ls cs : List (Link A)) (v : View A)
      → m.head ≢ marker
      → Phase m c ls cs v
      → (c ≡ before) × Chain m.cell m.head ls × (cs ≡ []) × (v ≡ filling (vals ls))
  Phase-open m before ls cs v h p = (refl, p.0, p.1, p.2)
  Phase-open m (visiting first current) ls cs v h p = absurd (h p.0)
  Phase-open m (freeing q) ls cs v h p = absurd (h p.0)

  module _ {s : System A} {ls cs : List (Link A)} {v : View A} (inv : Inv s ls cs v) (i n : ℕ) where
    -- Thread `i` writes the node `n`, which it owns or which is free, and goes on to `p`.
    pub Inv-write :
        (x : Option (Node A)) (p : Producer A)
        → ((j : ℕ) → owned (s.producers j) ≡ some n → i ≡ j)
        → IsApart n ls
        → IsApart n cs
        → ((k : ℕ) → owned p ≡ some k → (n ≡ k) × (x ≢ none))
        → Knows (record s.mem { cell = update s.mem.cell n x }) p
        → Inv
            (record s {
              mem = record s.mem { cell = update s.mem.cell n x };
              producers = update s.producers i p;
            })
            ls
            cs
            v
    Inv-write x p mine a b keeps w = record {
      phase = Phase-update s.mem s.consumer n x ls cs v a b inv.phase;
      distinct = inv.distinct;
      allocated = λ j k e. ground (arith, keeps k, mine j, inv.allocated j k);
      unlisted = λ j k e. ground (arith, keeps k, inv.unlisted j k);
      unique = λ j l k e f. ground (arith, keeps k, mine j, mine l, inv.unique j l k);
      knows = λ j. elim (ℕ_discrete i j) [
        | yes same ↦ rw (if_pos _ same) w
        | no other ↦
            rw (if_neg _ other)
              (Knows-update s.mem (s.producers j) n x (λ e. other (mine j e)) (inv.knows j))
      ];
    }

    -- Thread `i` goes on to `p`, and writes nothing.
    pub Inv-goto :
        (p : Producer A)
        → owned (s.producers i) ≡ some n
        → ((k : ℕ) → owned p ≡ some k → n ≡ k)
        → Knows s.mem p
        → Inv (record s { producers = update s.producers i p }) ls cs v
    Inv-goto p own keeps w =
        let same = update-same s.mem.cell n (s.mem.cell n) refl in
        subst
          (λ cell.
            Inv
              (record s { mem = record s.mem { cell = cell }; producers = update s.producers i p })
              ls cs v)
          same
          (Inv-write (s.mem.cell n) p (λ j e. inv.unique i j n own e) (inv.unlisted i n own).0
            (inv.unlisted i n own).1 (λ k e. (keeps k e, inv.allocated i n own))
            (subst (λ cell. Knows (record s.mem { cell = cell }) p) (sym same) w))

    -- Thread `i` writes its node, and keeps or leaves it.
    pub Inv-own :
        (x : Option (Node A)) (p : Producer A)
        → owned (s.producers i) ≡ some n
        → ((k : ℕ) → owned p ≡ some k → (n ≡ k) × (x ≢ none))
        → Knows (record s.mem { cell = update s.mem.cell n x }) p
        → Inv
            (record s {
              mem = record s.mem { cell = update s.mem.cell n x };
              producers = update s.producers i p;
            })
            ls
            cs
            v
    Inv-own x p own keeps w =
        Inv-write x p (λ j e. inv.unique i j n own e) (inv.unlisted i n own).0
          (inv.unlisted i n own).1 keeps w

    pub begin_push-Inv : (val : A) → s.mem.cell n ≡ none → Inv (begin_push s i n val) ls cs v
    begin_push-Inv val free =
        let (a, b) = Phase-free s.mem s.consumer n ls cs v free inv.phase in
        Inv-write (some (record { val = val; next = null })) (entered n)
          (λ j e. absurd (inv.allocated j n e free)) a b (λ k e. (ground arith, ground arith)) tt

  -- What a step shows, as a step of the specification or none.
  pub data Shows (v : View A) : List (Event A) → View A → Type 0 where
    silent : Shows v [] v
    shown : {e : Event A} {w : View A} → SpecStep v e w → Shows v (e ∷ []) w

  abbrev pub Kept : View A → List (Event A) → System A → Type 0
  Kept v es t = (ls cs : List (Link A)) × (w : View A) × Inv t ls cs w × Shows v es w
