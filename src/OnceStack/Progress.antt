-- ===== src/OnceStack/Progress.antt =====
-- A push that is left to run alone returns: its loop cannot fail twice without interference.
use portable_concurrency.Prelude.{
  ℕ, zero, suc, ◌≡◌, ◌≢◌, some, none, List, arith, refl, inl, inr, Bool-cases, Option-cases, subst,
  sym, ◌⊎◌,
}
use portable_concurrency.OnceStack.{
  Memory, Node, Producer, Event, marker, idle, entered, trying, lost, refused, accepted, rejected,
  set_next, ptr_eq, push_step, null, free, node,
}
use portable_concurrency.OnceStack.System.{System, Reach, IsOutside}
use portable_concurrency.OnceStack.Invariant.{ptr_eq→eq, ptr_eq_refl, Reach-Refined, owned}

module _ {A : Type 0} where
  -- `k` steps of one `push`, with no other thread in between.
  abbrev pub run_alone : ℕ → Memory A → Producer A → Memory A × Producer A
  run_alone zero m p = (m, p)
  run_alone (suc k) m p = run_alone k (push_step m p).0 (push_step m p).1

  abbrev Finishes : ℕ → Memory A → Producer A → Type 0
  Finishes k m p = IsOutside (run_alone k m p).1

  outside-Finishes : (k : ℕ) (m : Memory A) (p : Producer A) → IsOutside p → Finishes k m p
  unfolding push_step
  outside-Finishes zero m p o = o
  outside-Finishes (suc k) m idle o = outside-Finishes k m idle o
  outside-Finishes (suc k) m accepted o = outside-Finishes k m accepted o
  outside-Finishes (suc k) m (rejected v) o = outside-Finishes k m (rejected v) o
  outside-Finishes (suc k) m (entered _) o = elim o [ ]
  outside-Finishes (suc k) m (trying _) o = elim o [ ]
  outside-Finishes (suc k) m (lost _) o = elim o [ ]
  outside-Finishes (suc k) m (refused _) o = elim o [ ]

  step-Finishes :
      (k : ℕ) (m m' : Memory A) (p p' : Producer A)
      → push_step m p ≡ (m', p')
      → Finishes k m' p'
      → Finishes (suc k) m p
  step-Finishes k m m' p p' e f = subst (λ r. Finishes k r.0 r.1) (sym e) f

  refused-Finishes :
      (k : ℕ) (m : Memory A) (n : ℕ) (c : Node A)
      → m.cell n ≡ some c
      → Finishes (suc k) m (refused n)
  unfolding push_step
  refused-Finishes k m n c e =
      step-Finishes k m (free m n) (refused n) (rejected c.val) (ground arith)
        (outside-Finishes k (free m n) (rejected c.val) tt)

  -- The exchange succeeds, since the node points to the head.
  hit-Finishes :
      (k : ℕ) (m : Memory A) (n : ℕ) (c : Node A)
      → m.cell n ≡ some c
      → m.head ≡ c.next
      → Finishes (suc k) m (trying n)
  unfolding push_step
  hit-Finishes k m n c e h =
      step-Finishes k m (record m { head = node n }) (trying n) accepted
        (ground (arith, ptr_eq_refl m.head))
        (outside-Finishes k (record m { head = node n }) accepted tt)

  lost-Finishes :
      (k : ℕ) (m : Memory A) (n : ℕ) (c : Node A)
      → m.cell n ≡ some c
      → m.head ≡ c.next
      → Finishes (suc (suc k)) m (lost n)
  unfolding push_step
  lost-Finishes k m n c e h = elim (Bool-cases (ptr_eq c.next marker)) [
    | inl t ↦
        step-Finishes (suc k) m (set_next m n null) (lost n) (refused n) (ground arith)
          (refused-Finishes k (set_next m n null) n (record c { next = null }) (ground arith))
    | inr f ↦
        step-Finishes (suc k) m m (lost n) (trying n) (ground arith) (hit-Finishes k m n c e h)
  ]

  trying-Finishes :
      (k : ℕ) (m : Memory A) (n : ℕ) (c : Node A)
      → m.cell n ≡ some c
      → Finishes (suc (suc (suc k))) m (trying n)
  unfolding push_step
  trying-Finishes k m n c e = elim (Bool-cases (ptr_eq m.head c.next)) [
    | inl t ↦ hit-Finishes (suc (suc k)) m n c e (ptr_eq→eq m.head c.next t)
    | inr f ↦
        step-Finishes (suc (suc k)) m (set_next m n m.head) (trying n) (lost n) (ground arith)
          (lost-Finishes k (set_next m n m.head) n (record c { next = m.head }) (ground arith) refl)
  ]

  -- After a failed exchange nothing is known of the head.
  lost_any-Finishes :
      (m : Memory A) (n : ℕ) (c : Node A) → m.cell n ≡ some c → Finishes 4 m (lost n)
  unfolding push_step
  lost_any-Finishes m n c e = elim (Bool-cases (ptr_eq c.next marker)) [
    | inl t ↦
        step-Finishes 3 m (set_next m n null) (lost n) (refused n) (ground arith)
          (refused-Finishes 2 (set_next m n null) n (record c { next = null }) (ground arith))
    | inr f ↦ step-Finishes 3 m m (lost n) (trying n) (ground arith) (trying-Finishes 0 m n c e)
  ]

  entered-Finishes :
      (m : Memory A) (n : ℕ) (c : Node A) → m.cell n ≡ some c → Finishes 4 m (entered n)
  unfolding push_step
  entered-Finishes m n c e = elim (Bool-cases (ptr_eq m.head marker)) [
    | inl t ↦
        step-Finishes 3 m m (entered n) (refused n) (ground arith) (refused-Finishes 2 m n c e)
    | inr f ↦
        step-Finishes 3 m (set_next m n m.head) (entered n) (trying n) (ground arith)
          (hit-Finishes 2 (set_next m n m.head) n (record c { next = m.head }) (ground arith) refl)
  ]

  node-Finishes :
      (m : Memory A) (p : Producer A) (n : ℕ) (c : Node A)
      → owned p ≡ some n
      → m.cell n ≡ some c
      → Finishes 4 m p
  node-Finishes m (entered k) n c o e = entered-Finishes m k c (ground arith)
  node-Finishes m (trying k) n c o e = trying-Finishes 1 m k c (ground arith)
  node-Finishes m (lost k) n c o e = lost_any-Finishes m k c (ground arith)
  node-Finishes m (refused k) n c o e = refused-Finishes 3 m k c (ground arith)
  node-Finishes m p n c o e = absurd (ground arith)

  IsOutside-or_owns : (p : Producer A) → IsOutside p ⊎ ((n : ℕ) × (owned p ≡ some n))
  IsOutside-or_owns (entered k) = inr (k, refl)
  IsOutside-or_owns (trying k) = inr (k, refl)
  IsOutside-or_owns (lost k) = inr (k, refl)
  IsOutside-or_owns (refused k) = inr (k, refl)
  IsOutside-or_owns idle = inl tt
  IsOutside-or_owns accepted = inl tt
  IsOutside-or_owns (rejected v) = inl tt

  running-Finishes :
      (m : Memory A) (p : Producer A)
      → ((n : ℕ) → owned p ≡ some n → m.cell n ≢ none)
      → Finishes 4 m p
  running-Finishes m p h = elim (IsOutside-or_owns p) [
    | inl o ↦ outside-Finishes 4 m p o
    | inr (n, o) ↦ elim (Option-cases (m.cell n)) [
      | inl gone ↦ absurd (h n o gone)
      | inr (c, e) ↦ node-Finishes m p n c o e
    ]
  ]

  -- From any state that is reached, each push returns after at most four steps of its own.
  pub push_returns_alone :
      {es : List (Event A)} {s : System A} (i : ℕ)
      → Reach es s
      → IsOutside (run_alone 4 s.mem (s.producers i)).1
  push_returns_alone {s} i r =
      running-Finishes s.mem (s.producers i) ((Reach-Refined r).inv.allocated i)
