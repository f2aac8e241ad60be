-- ===== src/OnceStack/Invariant/Executes.antt =====
-- Every step of `execute` keeps the invariant.
use portable_concurrency.Prelude.{ℕ, ◌≡◌, none, List, [], ◌∷◌, arith, refl, sym, subst}
use portable_concurrency.OnceStack.{
  Ptr, Memory, Producer, Consumer, null, marker, node, idle, entered, trying, lost, refused,
  accepted, rejected, before, visiting, freeing, called, taken, execute_step, execute_event,
  consume, next_at,
}
use portable_concurrency.OnceStack.Spec.{View, draining, call, take}
use portable_concurrency.OnceStack.System.{System, begin_execute}
use portable_concurrency.OnceStack.Invariant.Defs.{Link, Chain, IsApart, vals, Knows, Phase, Inv}
use portable_concurrency.OnceStack.Invariant.Chains.{Chain-update, Chain-ne-marker}
use portable_concurrency.OnceStack.Invariant.Moves.{Kept, Shows, silent, shown, Knows-update}

module _ {A : Type 0} where
  -- What the pushes know stays true when the head becomes the marker.
  marker-Knows : (m : Memory A) (p : Producer A) → Knows m p → Knows (record m { head = marker }) p
  marker-Knows m (trying k) w = w
  marker-Knows m (lost k) w = λ f. refl
  marker-Knows m (refused k) w = refl
  marker-Knows m idle w = w
  marker-Knows m (entered k) w = w
  marker-Knows m accepted w = w
  marker-Knows m (rejected a) w = w

  consume_lem :
      (m : Memory A) (ls : List (Link A)) → Chain m.cell m.head ls → (consume m).1 ≡ m.head
  unfolding consume
  consume_lem m [] c = ground arith
  consume_lem m (l ∷ ls) c = ground (arith, c.0)

  abbrev stepped : System A → Consumer → System A
  stepped s c = record s { mem = (execute_step s.mem c).0; consumer = (execute_step s.mem c).1 }

  module _ {s : System A} {ls cs : List (Link A)} {v : View A} (inv : Inv s ls cs v) where
    pub begin_execute-Kept : s.consumer ≡ before → Kept v (taken ∷ []) (begin_execute s)
    unfolding consume
    begin_execute-Kept e =
        let (chain, none_left, view) = subst (λ c. Phase s.mem c ls cs v) e inv.phase in
        (
          ls,
          ls,
          draining (vals ls),
          record {
            phase = (
              refl,
              subst (λ p. Chain s.mem.cell p ls) (sym (consume_lem s.mem ls chain)) chain,
              subst (λ p. Chain s.mem.cell p ls) (sym (consume_lem s.mem ls chain)) chain,
              refl,
            );
            distinct = inv.distinct;
            allocated = inv.allocated;
            unlisted = λ i n f. ((inv.unlisted i n f).0, (inv.unlisted i n f).0);
            unique = inv.unique;
            knows = λ i. marker-Knows s.mem (s.producers i) (inv.knows i);
          },
          subst (λ w. Shows w (taken ∷ []) (draining (vals ls))) (sym view)
              (shown (take (vals ls))),
        )

    -- The consumer goes on to `c`, and the items in `ds` are still to be called.
    Inv-visit :
        (c : Consumer) (ds : List (Link A)) (w : View A)
        → Phase s.mem c ls ds w
        → ((n : ℕ) → IsApart n cs → IsApart n ds)
        → Inv (record s { consumer = c }) ls ds w
    Inv-visit c ds w p fewer = record {
      phase = p;
      distinct = inv.distinct;
      allocated = inv.allocated;
      unlisted = λ i n f. ((inv.unlisted i n f).0, fewer n (inv.unlisted i n f).1);
      unique = inv.unique;
      knows = inv.knows;
    }

    stays : (c : Consumer) → s.consumer ≡ c → Inv (record s { consumer = c }) ls cs v
    stays c e = subst (λ d. Inv (record s { consumer = d }) ls cs v) e inv

  visit_lem :
      (m : Memory A) (first : Ptr) (n : ℕ) (l : Link A) (cs : List (Link A))
      → Chain m.cell (node n) (l ∷ cs)
      → (next_at m n ≡ l.content.next)
        × (execute_event m (visiting first (node n)) ≡ called l.content.val ∷ [])
  unfolding execute_step execute_event
  visit_lem m first n l cs c = (ground arith, ground arith)

  visit-Kept :
      (s : System A) (first : Ptr) (n : ℕ) (ls cs : List (Link A)) (v : View A)
      (inv : Inv s ls cs v)
      → Phase s.mem (visiting first (node n)) ls cs v
      → Kept v (execute_event s.mem (visiting first (node n))) (stepped s (visiting first (node n)))
  unfolding execute_step execute_event
  visit-Kept s first n ls [] v inv p = absurd (ground arith)
  visit-Kept s first n ls (l ∷ cs) v inv p =
      let (next, event) = visit_lem s.mem first n l cs p.2 in
      rw (next, event)
        (
          ls,
          cs,
          draining (vals cs),
          Inv-visit inv (visiting first l.content.next) cs (draining (vals cs))
              (p.0, p.1, p.2.2, refl) (λ k a. a.1),
          subst (λ w. Shows w (called l.content.val ∷ []) (draining (vals cs))) (sym p.3)
              (shown (call l.content.val (vals cs))),
        )

  free-Kept :
      (s : System A) (n : ℕ) (ls cs : List (Link A)) (v : View A) (inv : Inv s ls cs v)
      → Phase s.mem (freeing (node n)) ls cs v
      → Kept v [] (stepped s (freeing (node n)))
  unfolding execute_step
  free-Kept s n [] cs v inv p = absurd (ground arith)
  free-Kept s n (l ∷ ls) cs v inv p = (
    ls,
    cs,
    v,
    record {
      phase = (
        p.0,
        let (next, _) = visit_lem s.mem null n l ls p.1 in
            rw next (Chain-update s.mem.cell n none l.content.next ls (ground arith) p.1.2),
        p.2,
        p.3,
      );
      distinct = inv.distinct.1;
      allocated = λ i k e. ground (arith, inv.allocated i k, inv.unlisted i k);
      unlisted = λ i k e. ((inv.unlisted i k e).0.1, (inv.unlisted i k e).1);
      unique = inv.unique;
      knows = λ i.
          Knows-update s.mem (s.producers i) n none (λ e. ground (arith, inv.unlisted i n e))
            (inv.knows i);
    },
    silent,
  )

  done-Kept :
      (s : System A) (first : Ptr) (ls cs : List (Link A)) (v : View A) (inv : Inv s ls cs v)
      → Phase s.mem (visiting first null) ls cs v
      → Kept v [] (stepped s (visiting first null))
  unfolding execute_step
  done-Kept s first ls [] v inv p =
      (ls, [], v, Inv-visit inv (freeing first) [] v (p.0, p.1, refl, p.3) (λ n a. tt), silent)
  done-Kept s first ls (l ∷ cs) v inv p = absurd (ground arith)

  pub execute-Kept :
      (s : System A) (ls cs : List (Link A)) (v : View A) (inv : Inv s ls cs v) (c : Consumer)
      → s.consumer ≡ c
      → Kept v (execute_event s.mem c) (stepped s c)
  unfolding execute_step execute_event
  execute-Kept s ls cs v inv before e = (ls, cs, v, stays inv before e, silent)
  execute-Kept s ls cs v inv (visiting first null) e =
      done-Kept s first ls cs v inv (subst (λ c. Phase s.mem c ls cs v) e inv.phase)
  execute-Kept s ls cs v inv (visiting first marker) e =
      absurd (
        Chain-ne-marker s.mem.cell marker cs (subst (λ c. Phase s.mem c ls cs v) e inv.phase).2
          refl)
  execute-Kept s ls cs v inv (visiting first (node n)) e =
      visit-Kept s first n ls cs v inv (subst (λ c. Phase s.mem c ls cs v) e inv.phase)
  execute-Kept s ls cs v inv (freeing null) e = (ls, cs, v, stays inv (freeing null) e, silent)
  execute-Kept s ls cs v inv (freeing marker) e = (ls, cs, v, stays inv (freeing marker) e, silent)
  execute-Kept s ls cs v inv (freeing (node n)) e =
      free-Kept s n ls cs v inv (subst (λ c. Phase s.mem c ls cs v) e inv.phase)
