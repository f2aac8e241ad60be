-- ===== src/Machine/Once/Tokens.antt =====
-- What can still call the function of the continuation with the state `v`, and the calls that have
-- been made: one token in all.
use portable_concurrency.Prelude.{
  ◌<◌, ap, update-here, ℕ, suc, ◌+◌, ◌≤◌, ◌≡◌, ◌==◌, ◌&&◌, refl, ltb, leb, Option, none, some, List,
  [], ◌∷◌, ◌++◌, map, one_if, total, total-update, total-above, update, arith,
}
use portable_concurrency.Store.{
  Storage, empty, value, inner, failure, Frame, plain, cancellable, continuation, task, then_action,
  next_action, promise_action, interrupt, Continuation, Continuations, schedule, waiting, executed,
  Job, call, destroy, run, Posted, scheduled, packaged, notification, Seen, applied, State, Store,
}
use portable_concurrency.Owners.{
  parts, storage_parts, continuation_parts, frame_parts, release_option,
}

module _ {A : Type 0} (weight : A → ℕ) where
  abbrev pub sum : List A → ℕ
  sum [] = 0
  sum (x ∷ xs) = weight x + sum xs

  pub sum-append : (xs ys : List A) → sum (xs ++ ys) ≡ sum xs + sum ys
  sum-append [] ys = omega arith
  sum-append (x ∷ xs) ys = omega (arith, sum-append xs ys)

-- Whether the address `v` is used for the first time between two stores.
abbrev pub news : ℕ → ℕ → ℕ → ℕ
news v fresh fresh' = one_if (leb fresh v && ltb v fresh')

-- No address is used for the first time twice.
pub news-chain : (v a b c : ℕ) → a ≤ b → b ≤ c → news v a b + news v b c ≤ news v a c
news-chain v a b c h k = ground arith

pub news-first : (v a c : ℕ) → suc a ≤ c → one_if (a == v) + news v (suc a) c ≤ news v a c
news-first v a c h = ground arith

module _ (v : ℕ) where
  abbrev pub in_continuation : Continuation → ℕ
  in_continuation (schedule w) = one_if (w == v)
  in_continuation _ = 0

  abbrev pub in_stack : Continuations → ℕ
  in_stack (waiting cs) = sum in_continuation cs
  in_stack executed = 0

  abbrev pub in_posted : ℕ × Posted → ℕ
  in_posted (k, scheduled w) = one_if (w == v)
  in_posted (k, packaged w) = 0
  in_posted (k, notification n) = 0

  abbrev pub in_seen : Seen → ℕ
  in_seen (applied w) = one_if (w == v)
  in_seen _ = 0

module _ {V : Type 0} (v : ℕ) where
  abbrev pub in_state : Option (State V) → ℕ
  in_state none = 0
  in_state (some b) = in_stack v b.continuations

  abbrev pub in_job : Job V → ℕ
  in_job (call c) = in_continuation v c
  in_job (run w) = one_if (w == v)
  in_job (interrupt w f p) = one_if (w == v)
  in_job _ = 0

  abbrev pub tokens : Store V → ℕ
  tokens s =
      total in_state s.fresh s.states
      + sum in_job s.jobs
      + sum (in_posted v) s.posted
      + sum (in_seen v) s.seen

  -- The tokens of a store that differs in one state.
  pub tokens-write :
      (s : Store V) (p : ℕ) (b : State V) (o : Option (State V))
      → s.states p ≡ some b
      → p < s.fresh
      → tokens (record s { states = update s.states p o }) + in_stack v b.continuations
        ≡ tokens s + in_state o
  tokens-write s p b o e l =
      omega (arith, total-update in_state s.fresh s.states p o l, ap in_state e)

  pub tokens-begin :
      (s : Store V) (js : List (Job V))
      → tokens (record s { jobs = js ++ s.jobs }) ≡ tokens s + sum in_job js
  tokens-begin s js = omega (arith, sum-append in_job js s.jobs)

  pub tokens-make :
      (s : Store V) (b : State V)
      → b.continuations ≡ waiting []
      → tokens (record s { states = update s.states s.fresh (some b); fresh = suc s.fresh })
        ≡ tokens s
  tokens-make s b e = omega (
    arith,
    total-above in_state s.fresh s.states s.fresh (some b) (omega arith),
    ap in_state (update-here s.states s.fresh (some b) s.fresh refl),
    ap (in_stack v) e,
  )

module _ (V : Type 0) (v : ℕ) where
  -- The calls of a list that is executed have its tokens; what is destroyed has none.
  pub calls-tokens :
      (cs : List Continuation) → sum (in_job {V = V} v) (map call cs) ≡ sum (in_continuation v) cs
  calls-tokens [] = refl
  calls-tokens (c ∷ cs) = omega (arith, calls-tokens cs)

  pub destroys-tokens : (cs : List Continuation) → sum (in_job {V = V} v) (map destroy cs) ≡ 0
  destroys-tokens [] = refl
  destroys-tokens (c ∷ cs) = omega (arith, destroys-tokens cs)

  pub storage_parts-tokens : (x : Storage V) → sum (in_job {V = V} v) (storage_parts x) ≡ 0
  storage_parts-tokens empty = refl
  storage_parts-tokens (value w) = refl
  storage_parts-tokens (inner q) = refl
  storage_parts-tokens (failure e) = refl

  pub release_option-tokens : (o : Option ℕ) → sum (in_job {V = V} v) (release_option o) ≡ 0
  release_option-tokens none = refl
  release_option-tokens (some p) = refl

  pub frame_parts-tokens : (f : Frame V) → sum (in_job {V = V} v) (frame_parts f) ≡ 0
  frame_parts-tokens plain = refl
  frame_parts-tokens (cancellable a) = refl
  frame_parts-tokens (continuation x none) = refl
  frame_parts-tokens (continuation x (some (then_action f parent))) =
      omega (arith, release_option-tokens f.captured)
  frame_parts-tokens (continuation x (some (next_action f parent))) =
      omega (arith, release_option-tokens f.captured)
  frame_parts-tokens (continuation x (some (promise_action f parent))) =
      omega (arith, release_option-tokens f.captured)
  frame_parts-tokens (task none) = refl
  frame_parts-tokens (task (some f)) = release_option-tokens f.captured

  continuation_parts-tokens :
      (k : Continuations) → sum (in_job {V = V} v) (continuation_parts k) ≡ 0
  continuation_parts-tokens (waiting cs) = destroys-tokens cs
  continuation_parts-tokens executed = refl

  pub parts-tokens : (b : State V) → sum (in_job {V = V} v) (parts b) ≡ 0
  parts-tokens b = omega (
    arith,
    sum-append (in_job {V = V} v) (continuation_parts b.continuations ++ storage_parts b.storage)
        (frame_parts b.frame),
    sum-append (in_job {V = V} v) (continuation_parts b.continuations) (storage_parts b.storage),
    continuation_parts-tokens b.continuations,
    storage_parts-tokens b.storage,
    frame_parts-tokens b.frame,
  )
