-- ===== src/Machine/Owned/Refs.antt =====
-- The strong pointers to the state `v`, in the states and in what is still to be done, and the count
-- of its owners.
use portable_concurrency.Prelude.{
  ◌<◌, ap, sym, ◌∙◌, if◌then◌else◌, update-here, update-there, ℕ, ◌+◌, ◌≤◌, ◌≡◌, ◌==◌, Option, none,
  some, List, [], ◌∷◌, ◌++◌, one_if, total, total-update, update, ℕ_discrete, arith,
}
use portable_concurrency.Store.{
  Storage, inner, Frame, continuation, task, Action, then_action, next_action, promise_action,
  Continuation, Continuations, hold, waiting, executed, Job, destroy, release, deliver, clean,
  give_up, interrupt, State, Store,
}
use portable_concurrency.Machine.Once.Tokens.{sum, sum-append}

module _ (v : ℕ) where
  abbrev pub pointer : ℕ → ℕ
  pointer p = one_if (p == v)

  -- The part of a count of owners of `p` that is about `v`.
  abbrev pub counted : ℕ → ℕ → ℕ
  counted p n = if p == v then n else 0

  abbrev pub option_refs : Option ℕ → ℕ
  option_refs none = 0
  option_refs (some p) = pointer p

  abbrev pub continuation_refs : Continuation → ℕ
  continuation_refs (hold p) = pointer p
  continuation_refs _ = 0

  abbrev pub stack_refs : Continuations → ℕ
  stack_refs (waiting cs) = sum continuation_refs cs
  stack_refs executed = 0

module _ {V : Type 0} where
  abbrev pub owner_count : Option (State V) → ℕ
  owner_count none = 0
  owner_count (some b) = b.owners

module _ {V : Type 0} (v : ℕ) where
  abbrev pub storage_refs : Storage V → ℕ
  storage_refs (inner q) = pointer v q
  storage_refs _ = 0

  abbrev pub action_refs : Option (Action V) → ℕ
  action_refs none = 0
  action_refs (some (then_action f parent)) = pointer v parent + option_refs v f.captured
  action_refs (some (next_action f parent)) = pointer v parent + option_refs v f.captured
  action_refs (some (promise_action f parent)) = pointer v parent + option_refs v f.captured

  abbrev pub frame_refs : Frame V → ℕ
  frame_refs (continuation x action) = action_refs action
  frame_refs (task (some f)) = option_refs v f.captured
  frame_refs _ = 0

  abbrev pub state_refs : State V → ℕ
  state_refs b = stack_refs v b.continuations + storage_refs b.storage + frame_refs b.frame

  abbrev pub place_refs : Option (State V) → ℕ
  place_refs none = 0
  place_refs (some b) = state_refs b

  -- A job that ends a pointer has it; the others use the pointers of those that wait below them.
  abbrev pub job_refs : Job V → ℕ
  job_refs (destroy c) = continuation_refs v c
  job_refs (release p) = pointer v p
  job_refs (deliver w x captured) = option_refs v captured
  job_refs (interrupt w f parent) = pointer v parent + option_refs v f.captured
  job_refs _ = 0

  -- What a job uses without a pointer of its own.
  abbrev pub job_uses : Job V → ℕ
  job_uses (deliver w x captured) = pointer v w
  job_uses (clean w) = pointer v w
  job_uses (give_up w) = pointer v w
  job_uses _ = 0

  -- Whatever uses `v` without a pointer has one below it that is released later.
  abbrev pub Backed : List (Job V) → Type 0
  Backed [] = Unit {0}
  Backed (j ∷ js) = (job_uses j ≤ sum job_refs js) × Backed js

  pub Backed-append : (js ks : List (Job V)) → Backed js → Backed ks → Backed (js ++ ks)
  Backed-append [] ks b c = c
  Backed-append (j ∷ js) ks b c =
      (omega (arith, b.0, sum-append job_refs js ks), Backed-append js ks b.1 c)

  abbrev pub refs : Store V → ℕ
  refs s = total place_refs s.fresh s.states + sum job_refs s.jobs

  abbrev pub owners : Store V → ℕ
  owners s = owner_count (s.states v)

  pub owners-write :
      (s : Store V) (p : ℕ) (b : State V) (o : Option (State V))
      → s.states p ≡ some b
      → owners (record s { states = update s.states p o }) + counted v p b.owners
        ≡ owners s + counted v p (owner_count o)
  owners-write s p b o e = elim (ℕ_discrete p v) [
    | yes same ↦ ground (
      arith,
      ap owner_count (update-here s.states p o v same),
      ap owner_count (ap s.states (sym same) ∙ e),
    )
    | no other ↦ ground (arith, ap owner_count (update-there s.states p o v other))
  ]

  pub refs-write :
      (s : Store V) (p : ℕ) (b : State V) (o : Option (State V))
      → s.states p ≡ some b
      → p < s.fresh
      → refs (record s { states = update s.states p o }) + state_refs b ≡ refs s + place_refs o
  refs-write s p b o e l =
      omega (arith, total-update place_refs s.fresh s.states p o l, ap place_refs e)
