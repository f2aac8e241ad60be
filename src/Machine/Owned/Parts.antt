-- ===== src/Machine/Owned/Parts.antt =====
-- What destructors and the calls of a list begin: it has the pointers that its source had.
use portable_concurrency.Prelude.{ℕ, ◌≡◌, refl, Option, none, some, List, [], ◌∷◌, ◌++◌, map, arith}
use portable_concurrency.Store.{
  Storage, empty, value, inner, failure, Frame, plain, cancellable, continuation, task, then_action,
  next_action, promise_action, Continuation, Continuations, waiting, executed, call, destroy, State,
}
use portable_concurrency.Owners.{
  parts, storage_parts, continuation_parts, frame_parts, release_option,
}
use portable_concurrency.Machine.Once.Tokens.{sum, sum-append}
use portable_concurrency.Machine.Owned.Refs.{
  option_refs, continuation_refs, stack_refs, storage_refs, frame_refs, state_refs, job_refs,
  Backed, Backed-append,
}

module _ (V : Type 0) (v : ℕ) where
  -- What the destructors release is what the parts have.
  destroys-refs :
      (cs : List Continuation)
      → sum (job_refs {V = V} v) (map destroy cs) ≡ sum (continuation_refs v) cs
  destroys-refs [] = refl
  destroys-refs (c ∷ cs) = omega (arith, destroys-refs cs)

  calls-refs : (cs : List Continuation) → sum (job_refs {V = V} v) (map call cs) ≡ 0
  calls-refs [] = refl
  calls-refs (c ∷ cs) = omega (arith, calls-refs cs)

  pub executes-refs :
      (cs : List Continuation)
      → sum (job_refs {V = V} v) (map call cs ++ map destroy cs) ≡ sum (continuation_refs v) cs
  executes-refs cs = omega (
    arith,
    sum-append (job_refs {V = V} v) (map call cs) (map destroy cs),
    calls-refs cs,
    destroys-refs cs,
  )

  pub storage_parts-refs :
      (x : Storage V) → sum (job_refs {V = V} v) (storage_parts x) ≡ storage_refs v x
  storage_parts-refs empty = refl
  storage_parts-refs (value w) = refl
  storage_parts-refs (inner q) = omega arith
  storage_parts-refs (failure e) = refl

  pub release_option-refs :
      (o : Option ℕ) → sum (job_refs {V = V} v) (release_option o) ≡ option_refs v o
  release_option-refs none = refl
  release_option-refs (some p) = omega arith

  pub frame_parts-refs : (f : Frame V) → sum (job_refs {V = V} v) (frame_parts f) ≡ frame_refs v f
  frame_parts-refs plain = refl
  frame_parts-refs (cancellable a) = refl
  frame_parts-refs (continuation x none) = refl
  frame_parts-refs (continuation x (some (then_action f parent))) =
      omega (arith, release_option-refs f.captured)
  frame_parts-refs (continuation x (some (next_action f parent))) =
      omega (arith, release_option-refs f.captured)
  frame_parts-refs (continuation x (some (promise_action f parent))) =
      omega (arith, release_option-refs f.captured)
  frame_parts-refs (task none) = refl
  frame_parts-refs (task (some f)) = release_option-refs f.captured

  continuation_parts-refs :
      (k : Continuations) → sum (job_refs {V = V} v) (continuation_parts k) ≡ stack_refs v k
  continuation_parts-refs (waiting cs) = destroys-refs cs
  continuation_parts-refs executed = refl

  pub parts-refs : (b : State V) → sum (job_refs {V = V} v) (parts b) ≡ state_refs v b
  parts-refs b = omega (
    arith,
    sum-append (job_refs {V = V} v) (continuation_parts b.continuations ++ storage_parts b.storage)
        (frame_parts b.frame),
    sum-append (job_refs {V = V} v) (continuation_parts b.continuations) (storage_parts b.storage),
    continuation_parts-refs b.continuations,
    storage_parts-refs b.storage,
    frame_parts-refs b.frame,
  )

  -- The jobs that destructors begin need nothing below them.
  destroys-Backed : (cs : List Continuation) → Backed {V = V} v (map destroy cs)
  destroys-Backed [] = tt
  destroys-Backed (c ∷ cs) = (omega arith, destroys-Backed cs)

  calls-Backed : (cs : List Continuation) → Backed {V = V} v (map call cs)
  calls-Backed [] = tt
  calls-Backed (c ∷ cs) = (omega arith, calls-Backed cs)

  pub executes-Backed : (cs : List Continuation) → Backed {V = V} v (map call cs ++ map destroy cs)
  executes-Backed cs =
      Backed-append v (map call cs) (map destroy cs) (calls-Backed cs) (destroys-Backed cs)

  pub storage_parts-Backed : (x : Storage V) → Backed {V = V} v (storage_parts x)
  storage_parts-Backed empty = tt
  storage_parts-Backed (value w) = tt
  storage_parts-Backed (inner q) = (omega arith, tt)
  storage_parts-Backed (failure e) = tt

  pub release_option-Backed : (o : Option ℕ) → Backed {V = V} v (release_option o)
  release_option-Backed none = tt
  release_option-Backed (some p) = (omega arith, tt)

  pub frame_parts-Backed : (f : Frame V) → Backed {V = V} v (frame_parts f)
  frame_parts-Backed plain = tt
  frame_parts-Backed (cancellable a) = tt
  frame_parts-Backed (continuation x none) = tt
  frame_parts-Backed (continuation x (some (then_action f parent))) =
      (omega arith, release_option-Backed f.captured)
  frame_parts-Backed (continuation x (some (next_action f parent))) =
      (omega arith, release_option-Backed f.captured)
  frame_parts-Backed (continuation x (some (promise_action f parent))) =
      (omega arith, release_option-Backed f.captured)
  frame_parts-Backed (task none) = tt
  frame_parts-Backed (task (some f)) = release_option-Backed f.captured

  continuation_parts-Backed : (k : Continuations) → Backed {V = V} v (continuation_parts k)
  continuation_parts-Backed (waiting cs) = destroys-Backed cs
  continuation_parts-Backed executed = tt

  pub parts-Backed : (b : State V) → Backed {V = V} v (parts b)
  parts-Backed b =
      Backed-append v (continuation_parts b.continuations ++ storage_parts b.storage)
        (frame_parts b.frame)
        (Backed-append v (continuation_parts b.continuations) (storage_parts b.storage)
          (continuation_parts-Backed b.continuations) (storage_parts-Backed b.storage))
        (frame_parts-Backed b.frame)
