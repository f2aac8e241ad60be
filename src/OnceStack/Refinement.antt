-- ===== src/OnceStack/Refinement.antt =====
-- What the interleaved stack promises to its clients.
use portable_concurrency.Prelude.{
  ℕ, Option, ◌≡◌, Bool, true, false, List, [], ◌∷◌, ◌++◌, reverse, refl, sym, ap, ◌∙◌, subst,
}
use mathlib.Core.List.{reverse-cons, append_assoc, append-nil, reverse-reverse}
use portable_concurrency.OnceStack.{
  Ptr, Node, Consumer, Event, pushed, taken, called, called_in_place, before, visiting, freeing,
  marker, is_consumed, ptr_eq,
}
use portable_concurrency.OnceStack.Spec.{
  View, filling, draining, SpecStep, push, take, call, call_in_place, SpecRun,
}
use portable_concurrency.OnceStack.System.{System, Step, Reach}
use portable_concurrency.OnceStack.Invariant.{
  Reach-Refined, Step-Kept, Shows, silent, shown, Phase, Link, Chain,
}

abbrev pub is_draining {ℓ} : {A : Type ℓ} → View A → Bool
is_draining (filling xs) = false
is_draining (draining xs) = true

ptr_eq-marker :
    {A : Type 0} (cell : ℕ → Option (Node A)) (p : Ptr) (ls : List (Link A))
    → Chain cell p ls
    → ptr_eq p marker ≡ false
ptr_eq-marker cell p [] c = rw c
ptr_eq-marker cell p (l ∷ ls) c = rw c.0

-- The items of the events of one kind, the last one first.
module _ {A : Type 0} where
  abbrev pub pushed_items : List (Event A) → List A
  pushed_items [] = []
  pushed_items (pushed v ∷ es) = v ∷ pushed_items es
  pushed_items (taken ∷ es) = pushed_items es
  pushed_items (called v ∷ es) = pushed_items es
  pushed_items (called_in_place v ∷ es) = pushed_items es

  abbrev pub called_items : List (Event A) → List A
  called_items [] = []
  called_items (pushed v ∷ es) = called_items es
  called_items (taken ∷ es) = called_items es
  called_items (called v ∷ es) = v ∷ called_items es
  called_items (called_in_place v ∷ es) = called_items es

  -- What the view and the events have to do with one another.
  abbrev pub Accounts : List (Event A) → View A → Type 0
  Accounts es (filling xs) = (pushed_items es ≡ xs) × (called_items es ≡ [])
  Accounts es (draining xs) = reverse (called_items es) ++ xs ≡ pushed_items es

  Step-Accounts :
      (es : List (Event A)) {e : Event A} {v w : View A}
      → Accounts es v
      → SpecStep v e w
      → Accounts (e ∷ es) w
  Step-Accounts es h (push v xs) = (ap (◌∷◌ v) h.0, h.1)
  Step-Accounts es h (take xs) = rw h.1 (sym h.0)
  Step-Accounts es h (call v xs) =
      rw (reverse-cons v (called_items es), append_assoc (reverse (called_items es)) (v ∷ []) xs) h
  Step-Accounts es h (call_in_place v xs) = h

  SpecRun-Accounts : {es : List (Event A)} {v : View A} → SpecRun es v → Accounts es v
  SpecRun-Accounts SpecRun.start = (refl, refl)
  SpecRun-Accounts (SpecRun.next {es} r st) = Step-Accounts es (SpecRun-Accounts r) st

  is_consumed-view :
      (s : System A) (ls cs : List (Link A)) (v : View A) (c : Consumer)
      → Phase s.mem c ls cs v
      → is_consumed s.mem ≡ is_draining v
  unfolding is_consumed
  is_consumed-view s ls cs v before p = rw p.2 (ptr_eq-marker s.mem.cell s.mem.head ls p.0)
  is_consumed-view s ls cs v (visiting first current) p = rw (p.0, p.3)
  is_consumed-view s ls cs v (freeing q) p = rw (p.0, p.3)

  -- Every run of the interleaved pushes and of `execute` shows a run of the specification, in which
  -- each push and the consumption happen at once; and `is_consumed` says whether its list is taken.
  pub Reach-SpecRun :
      {es : List (Event A)} {s : System A}
      → Reach es s
      → (v : View A) × SpecRun es v × (is_consumed s.mem ≡ is_draining v)
  Reach-SpecRun {s} r =
      let f = Reach-Refined r in
      (f.view, f.run, is_consumed-view s f.links f.uncalled f.view s.consumer f.inv.phase)

  -- When `execute` has come to freeing the list, it has called each item that was pushed exactly
  -- once, the last pushed one first.
  pub execute_calls_pushed :
      {es : List (Event A)} {s : System A} {p : Ptr}
      → Reach es s
      → s.consumer ≡ freeing p
      → called_items es ≡ reverse (pushed_items es)
  execute_calls_pushed {es} {s} {p} r e =
      let f = Reach-Refined r in
      let ph = subst (λ c. Phase s.mem c f.links f.uncalled f.view) e f.inv.phase in
      let accounts = subst (Accounts es) ph.3 (SpecRun-Accounts f.run) in
      rw (← accounts, append-nil, reverse-reverse)

  view_stays :
      {v w : View A} {es : List (Event A)}
      → Shows v es w
      → is_draining v ≡ true
      → (is_draining w ≡ true) × (pushed_items es ≡ [])
  view_stays silent h = (h, refl)
  view_stays (shown (push v xs)) h = absurd (cc)
  view_stays (shown (take xs)) h = absurd (cc)
  view_stays (shown (call v xs)) h = (refl, refl)
  view_stays (shown (call_in_place v xs)) h = (refl, refl)

  -- A consumed stack stays consumed, and no step of any thread puts an item into it.
  pub consumed_for_good :
      {es fs : List (Event A)} {s t : System A}
      → Reach es s
      → Step s fs t
      → is_consumed s.mem ≡ true
      → (is_consumed t.mem ≡ true) × (pushed_items fs ≡ [])
  consumed_for_good {s} {t} r st h =
      let f = Reach-Refined r in
      let old = is_consumed-view s f.links f.uncalled f.view s.consumer f.inv.phase in
      let (ls, cs, w, inv, shows) = Step-Kept f.links f.uncalled f.view f.inv st in
      let (drained, none_pushed) = view_stays shows (sym old ∙ h) in
      (is_consumed-view t ls cs w t.consumer inv.phase ∙ drained, none_pushed)
