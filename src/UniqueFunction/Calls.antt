-- ===== src/UniqueFunction/Calls.antt =====
-- What a function calls that is constructed or assigned.
use portable_concurrency.Prelude.{
  ℕ, ◌≡◌, ◌≢◌, Bool, true, false, Option, none, some, if◌then◌else◌, update, arith,
}
use portable_concurrency.Store.{done, thrown, undefined, Ends, Error}
use portable_concurrency.SmallFunction.{Slot, Memory}
use portable_concurrency.SmallFunction
use portable_concurrency.UniqueFunction.{
  Callable, stored, boxed, World, Kind, construct, assign, call, holds,
}

-- The content of a function: nothing, a callable in the buffer, or one in a block.
pub data Content (F : Type 0) : Type 0 where
  nothing : Content F
  direct : F → Content F
  pointed : ℕ → F → Content F

module _ {F : Type 0} where
  -- What a function is to call, by the null test.
  abbrev pub wanted : Error → Kind F → F → Ends F
  wanted bad k f = if k.is_null f then thrown bad else done f

  -- A kind whose copies do not throw.
  abbrev pub kind : Bool → (F → Bool) → (F → F) → Kind F
  kind storable null moved = record {
    is_storable = storable;
    is_null = null;
    moved = moved;
    failure = λ _. none;
  }

  construct_calls_stored :
      (bad : Error) (null : F → Bool) (moved : F → F) (t p : ℕ) (f : F) (w : World F)
      → t ≢ p
      → let r = construct (kind true null moved) t p f w in
        (r.0 ≡ done tt) × (call bad p r.1 ≡ wanted bad (kind true null moved) f)
  unfolding construct call SmallFunction.construct SmallFunction.construct_null SmallFunction.call
  construct_calls_stored bad null moved t p f w n = ground arith

  construct_calls_boxed :
      (bad : Error) (null : F → Bool) (moved : F → F) (t p : ℕ) (f : F) (w : World F)
      → t ≢ p
      → let r = construct (kind false null moved) t p f w in
        (r.0 ≡ done tt) × (call bad p r.1 ≡ wanted bad (kind false null moved) f)
  unfolding construct call SmallFunction.construct SmallFunction.construct_null SmallFunction.call
      SmallFunction.assign SmallFunction.destroy
  construct_calls_boxed bad null moved t p f w n = ground arith

  -- A function that is constructed from a callable calls it, or throws bad_function_call where the
  -- callable is null, and the callable's size makes no difference: in the buffer or in a block of
  -- the heap.
  pub construct_calls :
      (bad : Error) (storable : Bool) (null : F → Bool) (moved : F → F) (t p : ℕ) (f : F)
      (w : World F)
      → t ≢ p
      → let r = construct (kind storable null moved) t p f w in
        (r.0 ≡ done tt) × (call bad p r.1 ≡ wanted bad (kind storable null moved) f)
  construct_calls bad true null moved t p f w n = construct_calls_stored bad null moved t p f w n
  construct_calls bad false null moved t p f w n = construct_calls_boxed bad null moved t p f w n

  abbrev pub throwing : Bool → (F → F) → Error → Kind F
  throwing storable moved e = record {
    is_storable = storable;
    is_null = λ _. false;
    moved = moved;
    failure = λ _. some e;
  }

  -- When the copy of the callable throws, so does the constructor; there is no function then, and
  -- no block of the heap is left.
  pub construct_throws :
      (e : Error) (storable : Bool) (moved : F → F) (t p : ℕ) (f : F) (w : World F)
      → let r = construct (throwing storable moved e) t p f w in
        (r.0 ≡ thrown e) × (holds p r.1 ≡ false) × (r.1.blocks ≡ w.blocks)
  unfolding construct holds SmallFunction.construct_null
  construct_throws e true moved t p f w = ground arith
  construct_throws e false moved t p f w = ground arith

  abbrev pub slot_of : Content F → Slot (Callable F)
  slot_of nothing = record { vtbl = false; buffer = none }
  slot_of (direct f) = record { vtbl = true; buffer = some (stored f) }
  slot_of (pointed h f) = record { vtbl = true; buffer = some (boxed (some h)) }

  -- The block of a content.
  abbrev pub Backed : World F → Content F → Type 0
  Backed w (pointed h f) = w.blocks h ≡ some f
  Backed w _ = Unit

  -- That two contents have no block in common.
  abbrev pub Apart : Content F → Content F → Type 0
  Apart (pointed h f) (pointed i g) = h ≢ i
  Apart _ _ = Unit

  abbrev pub called : Error → Content F → Ends F
  called bad nothing = thrown bad
  called bad (direct f) = done f
  called bad (pointed h f) = done f

  -- What the call of a function does that has been moved from.
  abbrev pub called_after_move : Error → (F → F) → Content F → Ends F
  called_after_move bad moved nothing = thrown bad
  called_after_move bad moved (direct f) = done (moved f)
  called_after_move bad moved (pointed h f) = undefined

  abbrev pub blocks_without : Content F → (ℕ → Option F) → ℕ → Option F
  blocks_without (pointed h f) blocks = update blocks h none
  blocks_without _ blocks = blocks

  -- After a move assignment between two functions, the target calls what the source had, or throws
  -- where that was nothing; what the target had is gone, its block of the heap included, and no
  -- other block is touched. The source still holds a function if it did: a call of it is a call of
  -- the moved-from callable, and undefined where that stood in a block.
  pub assign_moves_content :
      (k : Kind F) (bad : Error) (p q : ℕ) (w : World F) (b c : Content F)
      → p ≢ q
      → w.small.slots p ≡ slot_of b
      → w.small.slots q ≡ slot_of c
      → Backed w b
      → Backed w c
      → Apart b c
      → let r = assign k p q w in
        (r.0 ≡ done tt)
        × (call bad p r.1 ≡ called bad c)
        × (call bad q r.1 ≡ called_after_move bad k.moved c)
        × (holds q r.1 ≡ holds q w)
        × (r.1.blocks ≡ blocks_without b w.blocks)
  unfolding assign call holds SmallFunction.assign SmallFunction.destroy SmallFunction.call
  assign_moves_content k bad p q w nothing nothing n d e i j a = ground (arith, n, d, e)
  assign_moves_content k bad p q w nothing (direct g) n d e i j a = ground (arith, n, d, e)
  assign_moves_content k bad p q w nothing (pointed y g) n d e i j a = ground (arith, n, d, e, j)
  assign_moves_content k bad p q w (direct f) nothing n d e i j a = ground (arith, n, d, e)
  assign_moves_content k bad p q w (direct f) (direct g) n d e i j a = ground (arith, n, d, e)
  assign_moves_content k bad p q w (direct f) (pointed y g) n d e i j a = ground (arith, n, d, e, j)
  assign_moves_content k bad p q w (pointed x f) nothing n d e i j a = ground (arith, n, d, e, i)
  assign_moves_content k bad p q w (pointed x f) (direct g) n d e i j a = ground (arith, n, d, e, i)
  assign_moves_content k bad p q w (pointed x f) (pointed y g) n d e i j a =
      ground (arith, n, d, e, i, j, a)
