-- ===== src/Machine/Settled/Parts.antt =====
-- The jobs that the operations begin call nothing but what has waited.
use portable_concurrency.Prelude.{ℕ, Option, none, some, List, [], ◌∷◌, map, All}
use portable_concurrency.Store.{
  task, Storage, Continuation, Continuations, Frame, State, waiting, executed, call, destroy, inner,
  empty, value, failure, continuation, plain, cancellable, then_action, next_action, promise_action,
  Action,
}
use portable_concurrency.Owners.{
  storage_parts, continuation_parts, action_parts, release_option, frame_parts, parts,
}
use portable_concurrency.Machine.Settled.Defs.{IsFine, IsFineJob, jobs-append}

module _ {V : Type 0} where
  pub calls_fine :
      (states : ℕ → Option (State V)) (fresh : ℕ) (cs : List Continuation)
      → All (IsFine states fresh) cs
      → All (IsFineJob states fresh) (map call cs)
  calls_fine states fresh [] h = tt
  calls_fine states fresh (c ∷ cs) h = (h.0, calls_fine states fresh cs h.1)

  pub destroys_fine :
      (states : ℕ → Option (State V)) (fresh : ℕ) (cs : List Continuation)
      → All (IsFineJob states fresh) (map destroy cs)
  destroys_fine states fresh [] = tt
  destroys_fine states fresh (c ∷ cs) = (tt, destroys_fine states fresh cs)

  pub storage_parts_fine :
      (states : ℕ → Option (State V)) (fresh : ℕ) (x : Storage V)
      → All (IsFineJob states fresh) (storage_parts x)
  storage_parts_fine states fresh empty = tt
  storage_parts_fine states fresh (value v) = tt
  storage_parts_fine states fresh (inner q) = (tt, tt)
  storage_parts_fine states fresh (failure e) = tt

  pub release_option_fine :
      (states : ℕ → Option (State V)) (fresh : ℕ) (o : Option ℕ)
      → All (IsFineJob states fresh) (release_option {V = V} o)
  release_option_fine states fresh none = tt
  release_option_fine states fresh (some p) = (tt, tt)

  pub action_parts_fine :
      (states : ℕ → Option (State V)) (fresh : ℕ) (o : Option (Action V))
      → All (IsFineJob states fresh) (action_parts o)
  action_parts_fine states fresh none = tt
  action_parts_fine states fresh (some (then_action f parent)) =
      (tt, release_option_fine states fresh f.captured)
  action_parts_fine states fresh (some (next_action f parent)) =
      (tt, release_option_fine states fresh f.captured)
  action_parts_fine states fresh (some (promise_action f parent)) =
      (tt, release_option_fine states fresh f.captured)

  pub frame_parts_fine :
      (states : ℕ → Option (State V)) (fresh : ℕ) (f : Frame V)
      → All (IsFineJob states fresh) (frame_parts f)
  frame_parts_fine states fresh plain = tt
  frame_parts_fine states fresh (cancellable a) = tt
  frame_parts_fine states fresh (continuation exec action) = action_parts_fine states fresh action
  frame_parts_fine states fresh (task none) = tt
  frame_parts_fine states fresh (task (some f)) = release_option_fine states fresh f.captured

  pub continuation_parts_fine :
      (states : ℕ → Option (State V)) (fresh : ℕ) (k : Continuations)
      → All (IsFineJob states fresh) (continuation_parts {V = V} k)
  continuation_parts_fine states fresh (waiting cs) = destroys_fine states fresh cs
  continuation_parts_fine states fresh executed = tt

  pub parts_fine :
      (states : ℕ → Option (State V)) (fresh : ℕ) (b : State V)
      → All (IsFineJob states fresh) (parts b)
  parts_fine states fresh b =
      jobs-append states fresh _ _
        (jobs-append states fresh _ _ (continuation_parts_fine states fresh b.continuations)
          (storage_parts_fine states fresh b.storage))
        (frame_parts_fine states fresh b.frame)
