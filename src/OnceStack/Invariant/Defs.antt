-- ===== src/OnceStack/Invariant/Defs.antt =====
-- The chain of nodes behind a pointer, and the invariant of the system.
use portable_concurrency.Prelude.{ℕ, ◌≡◌, ◌≢◌, Option, none, some, List, [], ◌∷◌}
use portable_concurrency.OnceStack.{
  Ptr, Node, Memory, Producer, Consumer, null, marker, node, entered, trying, lost, refused, before,
  visiting, freeing, next_at,
}
use portable_concurrency.OnceStack.Spec.{View, filling, draining}
use portable_concurrency.OnceStack.System.{System}

-- A node with its address.
pub record Link (A : Type 0) : Type 0 where
  pub address : ℕ
  pub content : Node A

module _ {A : Type 0} where
  -- `p` is the first of the nodes `ls`, and each points to the next one.
  abbrev pub Chain : (ℕ → Option (Node A)) → Ptr → List (Link A) → Type 0
  Chain cell p [] = p ≡ null
  Chain cell p (l ∷ ls) =
      (p ≡ node l.address) × (cell l.address ≡ some l.content) × Chain cell l.content.next ls

  abbrev pub IsApart : ℕ → List (Link A) → Type 0
  IsApart n [] = Unit
  IsApart n (l ∷ ls) = (l.address ≢ n) × IsApart n ls

  abbrev pub IsDistinct : List (Link A) → Type 0
  IsDistinct [] = Unit
  IsDistinct (l ∷ ls) = IsApart l.address ls × IsDistinct ls

  abbrev pub vals : List (Link A) → List A
  vals [] = []
  vals (l ∷ ls) = l.content.val ∷ vals ls

  -- The node that a running `push` owns.
  abbrev pub owned : Producer A → Option ℕ
  owned (entered n) = some n
  owned (trying n) = some n
  owned (lost n) = some n
  owned (refused n) = some n
  owned _ = none

  -- What a running `push` knows of the head: it never tries to exchange the marker.
  abbrev pub Knows : Memory A → Producer A → Type 0
  Knows m (trying n) = next_at m n ≢ marker
  Knows m (lost n) = next_at m n ≡ marker → m.head ≡ marker
  Knows m (refused n) = m.head ≡ marker
  Knows m _ = Unit

  -- The nodes in the stack or in the consumer's list, those still to be called, and the view.
  abbrev pub Phase : Memory A → Consumer → List (Link A) → List (Link A) → View A → Type 0
  Phase m before ls cs v = Chain m.cell m.head ls × (cs ≡ []) × (v ≡ filling (vals ls))
  Phase m (visiting first current) ls cs v =
      (m.head ≡ marker) × Chain m.cell first ls × Chain m.cell current cs × (v ≡ draining (vals cs))
  Phase m (freeing p) ls cs v =
      (m.head ≡ marker) × Chain m.cell p ls × (cs ≡ []) × (v ≡ draining [])

  pub record Inv (s : System A) (ls cs : List (Link A)) (v : View A) : Type 0 where
    pub phase : Phase s.mem s.consumer ls cs v
    pub distinct : IsDistinct ls
    pub allocated : (i n : ℕ) → owned (s.producers i) ≡ some n → s.mem.cell n ≢ none
    pub unlisted : (i n : ℕ) → owned (s.producers i) ≡ some n → IsApart n ls × IsApart n cs
    pub unique :
        (i j n : ℕ) → owned (s.producers i) ≡ some n → owned (s.producers j) ≡ some n → i ≡ j
    pub knows : (i : ℕ) → Knows s.mem (s.producers i)
