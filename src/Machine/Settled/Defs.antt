-- ===== src/Machine/Settled/Defs.antt =====
-- The invariant, and what a write to one state or a new job has to show to keep it.
use portable_concurrency.Prelude.{
  ℕ, suc, ◌≤◌, ◌<◌, ◌≡◌, Bool, true, false, not, Option, none, some, List, [], ◌∷◌, ◌++◌, All,
  update, arith, ℕ_discrete, if_pos, if_neg,
}
use portable_concurrency.Store.{
  give_up, end_task, interrupt, settle, end_promise, Storage, Continuation, Continuations, State,
  Job, Store, forward, notify, notify_on, schedule, hold, waiting, executed, call, destroy, release,
  run, deliver, clean,
}
use portable_concurrency.SharedState.{is_empty}

module _ {V : Type 0} where
  -- Whether the state of a weak pointer is gone, or holds something.
  abbrev pub is_settled : Option (State V) → Bool
  is_settled none = true
  is_settled (some b) = not (is_empty b.storage)

  -- A pending call of the lambda of `unwrap`: its state, of an address in use, is settled.
  abbrev pub IsFine : (ℕ → Option (State V)) → ℕ → Continuation → Type 0
  IsFine states fresh (forward w) = (w < fresh) × (is_settled (states w) ≡ true)
  IsFine states fresh (notify n) = Unit
  IsFine states fresh (notify_on x n) = Unit
  IsFine states fresh (schedule w) = Unit
  IsFine states fresh (hold p) = Unit

  abbrev pub IsFineJob : (ℕ → Option (State V)) → ℕ → Job V → Type 0
  IsFineJob states fresh (call c) = IsFine states fresh c
  IsFineJob states fresh _ = Unit

  -- The same of a list that waits; behind one that is executed the storage is not empty.
  abbrev pub IsFineStack : (ℕ → Option (State V)) → ℕ → Continuations → Storage V → Type 0
  IsFineStack states fresh (waiting cs) x = All (IsFine states fresh) cs
  IsFineStack states fresh executed x = is_empty x ≡ false

  abbrev pub IsFineState : (ℕ → Option (State V)) → ℕ → Option (State V) → Type 0
  IsFineState states fresh none = Unit
  IsFineState states fresh (some b) = IsFineStack states fresh b.continuations b.storage

  pub record Inv (states : ℕ → Option (State V)) (fresh : ℕ) (jobs : List (Job V)) : Type 0 where
    pub unused : (p : ℕ) → fresh ≤ p → states p ≡ none
    pub fine : (p : ℕ) → IsFineState states fresh (states p)
    pub fine_jobs : All (IsFineJob states fresh) jobs

  abbrev pub Holds : Store V → Type 0
  Holds s = Inv s.states s.fresh s.jobs

  -- What is settled, or gone, stays so.
  abbrev pub Grows : (ℕ → Option (State V)) → ℕ → (ℕ → Option (State V)) → ℕ → Type 0
  Grows states fresh states' fresh' =
      (w : ℕ)
      → w < fresh
      → is_settled (states w) ≡ true
      → (w < fresh') × (is_settled (states' w) ≡ true)

  module _ (states : ℕ → Option (State V)) (fresh : ℕ) (states' : ℕ → Option (State V)) (fresh' : ℕ)
      (g : Grows states fresh states' fresh') where
    IsFine-grow : (c : Continuation) → IsFine states fresh c → IsFine states' fresh' c
    IsFine-grow (forward w) h = g w h.0 h.1
    IsFine-grow (notify n) h = tt
    IsFine-grow (notify_on x n) h = tt
    IsFine-grow (schedule w) h = tt
    IsFine-grow (hold p) h = tt

    All-grow :
        (cs : List Continuation) → All (IsFine states fresh) cs → All (IsFine states' fresh') cs
    All-grow [] h = tt
    All-grow (c ∷ cs) h = (IsFine-grow c h.0, All-grow cs h.1)

    IsFineStack-grow :
        (k : Continuations) (x : Storage V)
        → IsFineStack states fresh k x
        → IsFineStack states' fresh' k x
    IsFineStack-grow (waiting cs) x h = All-grow cs h
    IsFineStack-grow executed x h = h

    IsFineState-grow :
        (o : Option (State V)) → IsFineState states fresh o → IsFineState states' fresh' o
    IsFineState-grow none h = tt
    IsFineState-grow (some b) h = IsFineStack-grow b.continuations b.storage h

    jobs-grow :
        (js : List (Job V)) → All (IsFineJob states fresh) js → All (IsFineJob states' fresh') js
    jobs-grow [] h = tt
    jobs-grow (call c ∷ js) h = (IsFine-grow c h.0, jobs-grow js h.1)
    jobs-grow (destroy c ∷ js) h = (tt, jobs-grow js h.1)
    jobs-grow (release p ∷ js) h = (tt, jobs-grow js h.1)
    jobs-grow (run w ∷ js) h = (tt, jobs-grow js h.1)
    jobs-grow (deliver w x o ∷ js) h = (tt, jobs-grow js h.1)
    jobs-grow (clean w ∷ js) h = (tt, jobs-grow js h.1)
    jobs-grow (give_up w ∷ js) h = (tt, jobs-grow js h.1)
    jobs-grow (end_task w ∷ js) h = (tt, jobs-grow js h.1)
    jobs-grow (interrupt w f p ∷ js) h = (tt, jobs-grow js h.1)
    jobs-grow (settle w r ∷ js) h = (tt, jobs-grow js h.1)
    jobs-grow (end_promise w ∷ js) h = (tt, jobs-grow js h.1)

  pub jobs-append :
      (states : ℕ → Option (State V)) (fresh : ℕ) (js ks : List (Job V))
      → All (IsFineJob states fresh) js
      → All (IsFineJob states fresh) ks
      → All (IsFineJob states fresh) (js ++ ks)
  jobs-append states fresh [] ks h k = k
  jobs-append states fresh (j ∷ js) ks h k = (h.0, jobs-append states fresh js ks h.1 k)

  module _ {states : ℕ → Option (State V)} {fresh : ℕ} {jobs : List (Job V)}
      (inv : Inv states fresh jobs) where
    pub Inv-jobs :
        (js : List (Job V)) → All (IsFineJob states fresh) js → Inv states fresh (js ++ jobs)
    Inv-jobs js h = record {
      unused = inv.unused;
      fine = inv.fine;
      fine_jobs = jobs-append states fresh js jobs h inv.fine_jobs;
    }

    -- A write to the state at `p`, or its end.
    pub Inv-write :
        (p : ℕ) (o : Option (State V))
        → p < fresh
        → (is_settled (states p) ≡ true → is_settled o ≡ true)
        → IsFineState states fresh o
        → Inv (update states p o) fresh jobs
    Inv-write p o low keeps h =
        let g : Grows states fresh (update states p o) fresh =
          λ w l e. (l, ground (arith, keeps)) in
        record {
          unused = λ q l. ground (arith, inv.unused q l);
          fine = λ q. elim (ℕ_discrete p q) [
            | yes here ↦
                rw (if_pos _ here) (IsFineState-grow states fresh (update states p o) fresh g o h)
            | no other ↦
                rw (if_neg _ other) (
                  IsFineState-grow states fresh (update states p o) fresh g (states q) (inv.fine q))
          ];
          fine_jobs = jobs-grow states fresh (update states p o) fresh g jobs inv.fine_jobs;
        }

    -- A new state, empty and with nothing that waits.
    pub Inv-make :
        (b : State V)
        → b.continuations ≡ waiting []
        → Inv (update states fresh (some b)) (suc fresh) jobs
    Inv-make b e =
        let g : Grows states fresh (update states fresh (some b)) (suc fresh) =
          λ w l f. (omega arith, ground arith) in
        record {
          unused = λ q l. ground (arith, inv.unused q);
          fine = λ q. elim (ℕ_discrete fresh q) [
            | yes here ↦ rw (if_pos _ here, e) tt
            | no other ↦ rw (if_neg _ other) (
                IsFineState-grow states fresh (update states fresh (some b)) (suc fresh) g
                  (states q) (inv.fine q))
          ];
          fine_jobs =
              jobs-grow states fresh (update states fresh (some b)) (suc fresh) g jobs
                inv.fine_jobs;
        }

    -- An address in use.
    pub in_use : (p : ℕ) (b : State V) → states p ≡ some b → p < fresh
    in_use p b e = ground (arith, inv.unused p)
