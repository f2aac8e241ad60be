-- ===== src/SmallFunction/Moves.antt =====
-- A function that is assigned another one.
use portable_concurrency.Prelude.{ℕ, ◌+◌, ◌≡◌, ◌≢◌, true, false, Option, none, some, arith}
use portable_concurrency.Store.{done, undefined, thrown, Ends, Error}
use portable_concurrency.SmallFunction.{Slot, Memory, destroy, assign, call}

module _ {F : Type 0} where
  -- The function without or with a callable.
  abbrev pub represent : Option F → Slot F
  represent none = record { vtbl = false; buffer = none }
  represent (some f) = record { vtbl = true; buffer = some f }

  abbrev pub after_move : (F → F) → Option F → Option F
  after_move moved none = none
  after_move moved (some f) = some (moved f)

  abbrev pub called : Error → Option F → Ends F
  called bad none = thrown bad
  called bad (some f) = done f

  abbrev pub alive : Option F → ℕ
  alive none = 0
  alive (some f) = 1

  -- After an assignment between two objects, a call of the target is a call of the source's
  -- callable, or throws where there is none; the source keeps what the move has left of it; what
  -- the target had is destroyed, and one callable is constructed for one that is moved.
  pub assign_moves :
      (moved : F → F) (bad : Error) (p q : ℕ) (s : Memory F) (b c : Option F)
      → p ≢ q
      → s.slots p ≡ represent b
      → s.slots q ≡ represent c
      → let r = assign moved p q s in
        (r.0 ≡ done tt)
        × (call bad p r.1 ≡ called bad c)
        × (r.1.slots q ≡ represent (after_move moved c))
        × (r.1.destroyed ≡ alive b + s.destroyed)
        × (r.1.created ≡ alive c + s.created)
  unfolding assign destroy call
  assign_moves moved bad p q s none none n e f = ground (arith, n, e, f)
  assign_moves moved bad p q s none (some g) n e f = ground (arith, n, e, f)
  assign_moves moved bad p q s (some h) none n e f = ground (arith, n, e, f)
  assign_moves moved bad p q s (some h) (some g) n e f = ground (arith, n, e, f)

  -- An object that has a callable and is assigned to itself moves from what it has destroyed.
  pub self_assign_undefined :
      (moved : F → F) (p : ℕ) (s : Memory F) (f : F)
      → s.slots p ≡ represent (some f)
      → (assign moved p p s).0 ≡ undefined
  unfolding assign destroy
  self_assign_undefined moved p s f e = ground (arith, e)
