-- ===== src/OnceStack/Invariant/Chains.antt =====
-- How chains and apartness meet a write to one cell.
use portable_concurrency.Prelude.{
  ℕ, ◌≡◌, ◌≢◌, Option, none, List, [], ◌∷◌, arith, update, refl, true, false,
}
use portable_concurrency.OnceStack.{Ptr, Node, null, marker, node, ptr_eq}
use portable_concurrency.OnceStack.Invariant.Defs.{Link, Chain, IsApart}

module _ {A : Type 0} (cell : ℕ → Option (Node A)) where
  -- A write to a node that is not in the chain.
  pub Chain-update :
      (n : ℕ) (x : Option (Node A)) (p : Ptr) (ls : List (Link A))
      → IsApart n ls
      → Chain cell p ls
      → Chain (update cell n x) p ls
  Chain-update n x p [] a c = c
  Chain-update n x p (l ∷ ls) a c = (c.0, ground arith, Chain-update n x l.content.next ls a.1 c.2)

  -- A free address is in no chain.
  pub Chain-IsApart :
      (n : ℕ) (p : Ptr) (ls : List (Link A)) → cell n ≡ none → Chain cell p ls → IsApart n ls
  Chain-IsApart n p [] e c = tt
  Chain-IsApart n p (l ∷ ls) e c = (λ same. ground arith, Chain-IsApart n l.content.next ls e c.2)

pub ptr_eq→eq : (p q : Ptr) → ptr_eq p q ≡ true → p ≡ q
ptr_eq→eq null null h = refl
ptr_eq→eq null marker h = cc
ptr_eq→eq null (node n) h = cc
ptr_eq→eq marker null h = cc
ptr_eq→eq marker marker h = refl
ptr_eq→eq marker (node n) h = cc
ptr_eq→eq (node m) null h = cc
ptr_eq→eq (node m) marker h = cc
ptr_eq→eq (node m) (node n) h = ground arith

pub ptr_eq-marker : (p : Ptr) → ptr_eq p marker ≡ false → p ≢ marker
ptr_eq-marker null h = ground arith
ptr_eq-marker marker h = ground arith
ptr_eq-marker (node n) h = ground arith

-- The marker is at the head of no chain.
pub Chain-ne-marker :
    {A : Type 0} (cell : ℕ → Option (Node A)) (p : Ptr) (ls : List (Link A))
    → Chain cell p ls
    → p ≢ marker
Chain-ne-marker cell p [] c e = cc
Chain-ne-marker cell p (l ∷ ls) c e = cc (c.0)

pub ptr_eq_refl : (p : Ptr) → ptr_eq p p ≡ true
ptr_eq_refl null = refl
ptr_eq_refl marker = refl
ptr_eq_refl (node n) = ground arith
