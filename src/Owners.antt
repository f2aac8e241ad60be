-- ===== src/Owners.antt =====
-- What std::make_shared, std::shared_ptr and std::weak_ptr do with the states, and what the
-- destructors of a state and of its parts release.
use portable_concurrency.Prelude.{
  ◌≡◌, arith, ℕ, suc, Option, none, some, List, [], ◌∷◌, ◌++◌, map, update,
}
use portable_concurrency.Store.{
  task, Code, done, dangling, ◌>>=◌, Storage, Continuations, Action, Frame, State, Job, Seen, Store,
  empty, inner, waiting, executed, cancellable, continuation, then_action, next_action,
  promise_action, destroy, release, canceled,
}

module _ {V : Type 0} where
  -- `*p`
  abbrev pub deref : ℕ → Code (Store V) (State V)
  deref p s = elim (s.states p) [ none ↦ (dangling p, s) | some b ↦ (done b, s) ]

  abbrev pub write : ℕ → State V → Code (Store V) (Unit {0})
  write p b s = (done tt, record s { states = update s.states p (some b) })

  -- Calls that begin now, before all that is under way goes on.
  abbrev pub begin : List (Job V) → Code (Store V) (Unit {0})
  begin js s = (done tt, record s { jobs = js ++ s.jobs })

  abbrev pub log : Seen → Code (Store V) (Unit {0})
  log e s = (done tt, record s { seen = e ∷ s.seen })

  -- std::make_shared of a state with its frame; the caller owns it.
  unfoldable pub make_shared : Frame V → Code (Store V) ℕ
  make_shared f s = (
    done s.fresh,
    record s {
      states =
          update s.states s.fresh
            (some (record { storage = empty; continuations = waiting []; frame = f; owners = 1 }));
      fresh = suc s.fresh;
    },
  )

  -- A copy of a shared_ptr.
  unfoldable pub share : ℕ → Code (Store V) (Unit {0})
  share p = do b ← deref p; write p (record b { owners = suc b.owners })

  -- `weak_ptr::lock`
  unfoldable pub lock : ℕ → Code (Store V) (Option ℕ)
  lock w s = elim (s.states w) [
    | none ↦ (done none, s)
    | some b ↦ (
      done (some w),
      record s { states = update s.states w (some (record b { owners = suc b.owners })) },
    )
  ]

  abbrev pub release_option : Option ℕ → List (Job V)
  release_option none = []
  release_option (some p) = release p ∷ []

  abbrev pub storage_parts : Storage V → List (Job V)
  storage_parts (inner q) = release q ∷ []
  storage_parts _ = []

  abbrev pub continuation_parts : Continuations → List (Job V)
  continuation_parts (waiting cs) = map destroy cs
  continuation_parts executed = []

  abbrev pub action_parts : Option (Action V) → List (Job V)
  action_parts none = []
  action_parts (some (then_action f parent)) = release parent ∷ release_option f.captured
  action_parts (some (next_action f parent)) = release parent ∷ release_option f.captured
  action_parts (some (promise_action f parent)) = release parent ∷ release_option f.captured

  abbrev pub frame_parts : Frame V → List (Job V)
  frame_parts (continuation exec action) = action_parts action
  frame_parts (task none) = []
  frame_parts (task (some f)) = release_option f.captured
  frame_parts _ = []

  -- The members of `shared_state` in the reverse of their order, then what stands before it.
  abbrev pub parts : State V → List (Job V)
  parts b = continuation_parts b.continuations ++ storage_parts b.storage ++ frame_parts b.frame

  abbrev pub cancel_of : Frame V → Continuations → List Seen
  cancel_of (cancellable a) (waiting cs) = canceled a ∷ []
  cancel_of _ _ = []

  -- `~cancellable_state`
  unfoldable pub cancel : State V → List Seen
  cancel b = cancel_of b.frame b.continuations

  -- One owner less; the last one ends the state, and then its parts.
  unfoldable pub drop_owner : ℕ → State V → ℕ → Code (Store V) (Unit {0})
  unfolding cancel
  drop_owner p b (suc (suc k)) s = write p (record b { owners = suc k }) s
  drop_owner p b _ s = (
    done tt,
    record s {
      states = update s.states p none;
      jobs = parts b ++ s.jobs;
      seen = cancel b ++ s.seen;
    },
  )

  -- The destructor of a shared_ptr.
  unfoldable pub drop : ℕ → Code (Store V) (Unit {0})
  drop p = do b ← deref p; drop_owner p b b.owners

  pub deref-none : (p : ℕ) (s : Store V) → s.states p ≡ none → deref p s ≡ (dangling p, s)
  deref-none p s e = ground arith

  pub deref-some :
      (p : ℕ) (s : Store V) (b : State V) → s.states p ≡ some b → deref p s ≡ (done b, s)
  deref-some p s b e = ground arith

  pub lock-none : (w : ℕ) (s : Store V) → s.states w ≡ none → lock w s ≡ (done none, s)
  unfolding lock
  lock-none w s e = ground arith

  -- The weak pointer of a state that is alive gives one more owner.
  pub lock-some :
      (w : ℕ) (s : Store V) (b : State V)
      → s.states w ≡ some b
      → lock w s ≡ (
        done (some w),
        record s { states = update s.states w (some (record b { owners = suc b.owners })) },
      )
  unfolding lock
  lock-some w s b e = ground arith
