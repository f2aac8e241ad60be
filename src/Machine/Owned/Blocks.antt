-- ===== src/Machine/Owned/Blocks.antt =====
-- Pieces that many functions are made of: jobs that begin, an entry in the log, a copy of a pointer,
-- a result that is read, a frame that is cleaned.
use portable_concurrency.Prelude.{ℕ, suc, ◌+◌, ◌≡◌, refl, none, some, List, arith}
use portable_concurrency.Store.{
  Code, pure, ◌>>=◌, ◌>>◌, Job, Seen, State, Store, Frame, plain, cancellable, continuation, task,
}
use portable_concurrency.Owners.{write, begin, log, share}
use portable_concurrency.SharedState.{read_result-ends}
use portable_concurrency.Then.{result_of, clean_action}
use portable_concurrency.Machine.Once.Tokens.{sum}
use portable_concurrency.Machine.Once.Prices.{Low}
use portable_concurrency.Machine.Owned.Refs.{pointer, frame_refs, job_refs, Backed}
use portable_concurrency.Machine.Owned.Moves.{
  After, Sound, Kept, Moves, nothing-Kept, then-Moves, bind-Moves, pure-Moves, same_owners-Kept,
}
use portable_concurrency.Machine.Owned.Operations.{begin-Moves, share-Moves}

module _ {V : Type 0} (v : ℕ) where
  -- Jobs that take all that is in hand, before code that needs nothing.
  pub begin_then :
      {A : Type 0} (js : List (Job V)) (k : ℕ) (out : A → ℕ) (m : Code (Store V) A)
      → Backed v js
      → sum (job_refs v) js ≡ k
      → Moves v 0 out m
      → Moves v k out (begin js >> m)
  begin_then js k out m b e c =
      bind-Moves v k (λ _. 0) out (begin js) (λ _. m) (begin-Moves v js k 0 b (omega (arith, e)))
        (λ _. c)

  pub begin_all :
      (js : List (Job V)) (k : ℕ)
      → Backed v js
      → sum (job_refs v) js ≡ k
      → Moves v k (λ _. 0) (begin js)
  begin_all js k b e = begin-Moves v js k 0 b (omega (arith, e))

  -- A pointer that is copied.
  pub shared-Moves :
      {A : Type 0} (p : ℕ) (out : A → ℕ) (a : A)
      → pointer v p ≡ out a
      → Moves v 0 out (share {V = V} p >>= λ _. pure a)
  shared-Moves p out a e =
      bind-Moves v 0 (λ _. pointer v p) out (share p) (λ _. pure a)
        (share-Moves v p 0 (pointer v p) (omega arith)) (λ _. pure-Moves v (pointer v p) out a e)

  pub log_then :
      {A : Type 0} (x : Seen) (k : ℕ) (out : A → ℕ) (m : Code (Store V) A)
      → Moves v k out m
      → Moves v k out (log x >> m)
  log_then x k out m c s h n =
      then-Moves v s (log x s).1 k k out m (record { low = h; sound = n; balance = omega arith }) c

  pub result_of-Moves : (k p : ℕ) → Moves v k (λ _. k) (result_of {V = V} p)
  result_of-Moves k p s h n =
      read_result-ends (After v s k (λ _. k)) s (suc s.fresh) p (λ r. nothing-Kept v k s h n) tt
        (λ q. tt)

  pub clean_action-refs : (f : Frame V) → frame_refs v (clean_action f) ≡ 0
  clean_action-refs plain = refl
  clean_action-refs (cancellable a) = refl
  clean_action-refs (continuation x a) = refl
  clean_action-refs (task none) = refl
  clean_action-refs (task (some f)) = refl

  -- The frame of a state is cleaned: what it had is in hand.
  pub clean-Kept :
      (s : Store V) (p k l : ℕ) (b : State V)
      → s.states p ≡ some b
      → frame_refs v b.frame + k ≡ l
      → Low v s
      → Sound v s
      → Kept v s k (write p (record b { frame = clean_action b.frame }) s).1 l
  clean-Kept s p k l b g e h n =
      same_owners-Kept v s p b (record b { frame = clean_action b.frame }) k l g h n refl
        (omega (arith, e, clean_action-refs b.frame))
