-- ===== src/UniqueFunction/Tests.antt =====
-- Callables that are numbers: 0 is a null one, and one that is moved from becomes 0.
use portable_concurrency.Prelude.{
  ℕ, zero, suc, ◌≡◌, Bool, true, false, Option, none, some, refl, arith,
}
use portable_concurrency.Store.{◌>>◌, done, undefined, user}
use portable_concurrency.SmallFunction.{Slot}
use portable_concurrency.UniqueFunction.{
  Callable, World, construct, construct_moved, assign, call, holds,
}
use portable_concurrency.UniqueFunction.Calls.{
  nothing, pointed, kind, slot_of, assign_moves_content,
}
use portable_concurrency.UniqueFunction.Lifetime.{lifetime, lifetime_frees}

abbrev is_zero : ℕ → Bool
is_zero zero = true
is_zero (suc n) = false

abbrev to_zero : ℕ → ℕ
to_zero n = 0

-- The object 0 has nothing, all others the block 0.
abbrev objects : ℕ → Slot (Callable ℕ)
objects zero = slot_of nothing
objects (suc n) = slot_of (pointed 0 9)

abbrev block : ℕ → Option ℕ
block zero = some 9
block (suc n) = none

abbrev world : World ℕ
world = record {
  small = record { slots = objects; created = 1; destroyed = 0 };
  blocks = block;
  fresh = 1;
}

assign_moves_content_example :
    let r = assign (kind false is_zero to_zero) 0 1 world in
    (r.0 ≡ done tt)
    × (call (user 1) 0 r.1 ≡ done 9)
    × (call (user 1) 1 r.1 ≡ undefined)
    × (holds 1 r.1 ≡ true)
    × (r.1.blocks ≡ block)
unfolding holds
assign_moves_content_example =
    assign_moves_content (kind false is_zero to_zero) (user 1) 0 1 world nothing (pointed 0 9)
      (λ e. omega (arith, e)) refl refl tt refl tt

lifetime_frees_example :
    let k = kind false is_zero to_zero in
    let r = (construct k 4 5 7 >> construct_moved k 6 5) world in
    let e = lifetime k 4 5 6 7 world in
    (call (user 1) 6 r.1 ≡ done 7) × (e.0 ≡ done tt) × ((x : ℕ) → e.1.blocks x ≡ block x)
lifetime_frees_example =
    lifetime_frees (user 1) false is_zero to_zero 4 5 6 7 world (λ e. omega (arith, e))
      (λ e. omega (arith, e)) refl
