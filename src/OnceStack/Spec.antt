-- ===== src/OnceStack/Spec.antt =====
-- What a once-consumable stack promises, with no memory in it: a list of items that is taken once.
use portable_concurrency.Prelude.{List, [], ◌∷◌}
use portable_concurrency.OnceStack.{Event, pushed, taken, called, called_in_place}

-- Before the list is taken, the items in it; then the items that are still to be called.
pub data View {ℓ} (A : Type ℓ) : Type ℓ where
  filling : List A → View A
  draining : List A → View A

pub data SpecStep {ℓ} {A : Type ℓ} : View A → Event A → View A → Type ℓ where
  push : (v : A) (xs : List A) → SpecStep (filling xs) (pushed v) (filling (v ∷ xs))
  take : (xs : List A) → SpecStep (filling xs) taken (draining xs)
  call : (v : A) (xs : List A) → SpecStep (draining (v ∷ xs)) (called v) (draining xs)
  call_in_place : (v : A) (xs : List A) → SpecStep (draining xs) (called_in_place v) (draining xs)

-- The events of a run, the last one first.
pub data SpecRun {ℓ} {A : Type ℓ} : List (Event A) → View A → Type ℓ where
  start : SpecRun [] (filling [])
  next :
      {es : List (Event A)} {e : Event A} {v w : View A}
      → SpecRun es v
      → SpecStep v e w
      → SpecRun (e ∷ es) w
