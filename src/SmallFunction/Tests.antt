-- ===== src/SmallFunction/Tests.antt =====
-- Two functions, each with a callable; a callable that is moved from becomes 0.
use portable_concurrency.Prelude.{ℕ, zero, suc, ◌≡◌, some, refl, arith}
use portable_concurrency.Store.{done, undefined, user}
use portable_concurrency.SmallFunction.{Slot, Memory, assign, call}
use portable_concurrency.SmallFunction.Moves.{represent, assign_moves, self_assign_undefined}

abbrev slot : ℕ → Slot ℕ
slot zero = represent (some 7)
slot (suc n) = represent (some 8)

abbrev two : Memory ℕ
two = record { slots = slot; created = 2; destroyed = 0 }

assign_moves_example :
    let r = assign (λ _. 0) 0 1 two in
    (r.0 ≡ done tt)
    × (call (user 1) 0 r.1 ≡ done 8)
    × (r.1.slots 1 ≡ represent (some 0))
    × (r.1.destroyed ≡ 1)
    × (r.1.created ≡ 3)
assign_moves_example =
    assign_moves (λ _. 0) (user 1) 0 1 two (some 7) (some 8) (λ e. omega (arith, e)) refl refl

self_assign_undefined_example : (assign (λ _. 0) 0 0 two).0 ≡ undefined
self_assign_undefined_example = self_assign_undefined (λ _. 0) 0 two 7 refl
