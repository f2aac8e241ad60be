-- ===== src/OnceStack/Invariant.antt =====
-- Which node belongs to whom, and which view the memory stands for; true at the start and kept by
-- every step.
mod Defs
mod Chains
mod Moves
mod Pushes
mod Executes
pub use Defs.*
pub use Chains.{ptr_eq→eq, ptr_eq_refl}
pub use Moves.{Kept, Shows, silent, shown, Phase-marker, Phase-open}
use Moves.{begin_push-Inv}
use Pushes.{push-Kept}
use Executes.{begin_execute-Kept, execute-Kept}
use portable_concurrency.Prelude.{ℕ, ◌≡◌, none, some, List, [], ◌∷◌, ◌++◌, refl}
use portable_concurrency.OnceStack.{Event}
use portable_concurrency.OnceStack.Spec.{View, filling, SpecRun}
use portable_concurrency.OnceStack.Spec
use portable_concurrency.OnceStack.System.{
  System, Step, begins_push, pushes, begins_execute, executes, Reach, start, next, init,
}

module _ {A : Type 0} where
  pub Step-Kept :
      {s t : System A} {es : List (Event A)} (ls cs : List (Link A)) (v : View A)
      → Inv s ls cs v
      → Step s es t
      → Kept v es t
  Step-Kept {s} ls cs v inv (begins_push i n w out free) =
      (ls, cs, v, begin_push-Inv inv i n w free, silent)
  Step-Kept {s} ls cs v inv (pushes i) = push-Kept inv i (s.producers i) refl
  Step-Kept {s} ls cs v inv (begins_execute e) = begin_execute-Kept inv e
  Step-Kept {s} ls cs v inv executes = execute-Kept s ls cs v inv s.consumer refl

  init-Inv : Inv (init {A = A}) [] [] (filling [])
  init-Inv = record {
    phase = (refl, refl, refl);
    distinct = tt;
    allocated = λ i n e. cc;
    unlisted = λ i n e. (tt, tt);
    unique = λ i j n e f. cc;
    knows = λ i. tt;
  }

  SpecRun-Shows :
      {es fs : List (Event A)} {v w : View A} → SpecRun es v → Shows v fs w → SpecRun (fs ++ es) w
  SpecRun-Shows r silent = r
  SpecRun-Shows r (shown st) = SpecRun.next r st

  -- A state that is reached, with the invariant and the view that it stands for.
  pub record Refined (es : List (Event A)) (s : System A) : Type 0 where
    pub links : List (Link A)
    pub uncalled : List (Link A)
    pub view : View A
    pub inv : Inv s links uncalled view
    pub run : SpecRun es view

  pub Reach-Refined : {es : List (Event A)} {s : System A} → Reach es s → Refined es s
  Reach-Refined start = record {
    links = [];
    uncalled = [];
    view = filling [];
    inv = init-Inv;
    run = SpecRun.start;
  }
  Reach-Refined (next r st) =
      let before = Reach-Refined r in
      let (ls, cs, w, inv, shows) =
        Step-Kept before.links before.uncalled before.view before.inv st in
      record {
        links = ls;
        uncalled = cs;
        view = w;
        inv = inv;
        run = SpecRun-Shows before.run shows;
      }
