-- ===== src/UniqueFunction/Lifetime.antt =====
-- A function from its construction to its end.
use portable_concurrency.Prelude.{
  ℕ, ◌≡◌, ◌≢◌, Bool, true, false, none, if◌then◌else◌, arith, refl, Bool-cases, inl, inr,
}
use portable_concurrency.Store.{
  Code, and_then, done, thrown, undefined, dangling, ◌>>◌, Ends, Error,
}
use portable_concurrency.SmallFunction.{Slot, Memory}
use portable_concurrency.SmallFunction
use portable_concurrency.UniqueFunction.{World, Kind, construct, construct_moved, destroy, call}
use portable_concurrency.UniqueFunction.Calls.{
  Content, nothing, direct, pointed, kind, wanted, slot_of, Backed, blocks_without,
}

module _ {F : Type 0} where
  -- A function is constructed, moved into a second one, and both are destroyed.
  pub lifetime : Kind F → ℕ → ℕ → ℕ → F → Code (World F) (Unit {0})
  unfolding construct construct_moved destroy
  lifetime k t p q f = do construct k t p f; construct_moved k q p; destroy p; destroy q

  moves_on :
      (bad : Error) (storable : Bool) (null : F → Bool) (moved : F → F) (t p q : ℕ) (f : F)
      (w : World F)
      → t ≢ p
      → p ≢ q
      → let k = kind storable null moved in
        call bad q ((construct k t p f >> construct_moved k q p) w).1 ≡ wanted bad k f
  unfolding lifetime call SmallFunction.construct SmallFunction.construct_null
      SmallFunction.construct_moved SmallFunction.assign SmallFunction.destroy SmallFunction.call
  moves_on bad true null moved t p q f w a c = ground (arith, a, c)
  moves_on bad false null moved t p q f w a c = ground (arith, a, c)

  -- What the moves and the ends of a content that is there come to.
  abbrev rest : Kind F → ℕ → ℕ → Code (World F) (Unit {0})
  unfolding lifetime
  rest k p q = construct_moved k q p >> (destroy p >> destroy q)

  rest_frees :
      (k : Kind F) (p q : ℕ) (w : World F) (c : Content F)
      → p ≢ q
      → w.small.slots p ≡ slot_of c
      → Backed w c
      → let r = rest k p q w in (r.0 ≡ done tt) × (r.1.blocks ≡ blocks_without c w.blocks)
  unfolding lifetime SmallFunction.construct_moved SmallFunction.construct_null
      SmallFunction.destroy
  rest_frees k p q w nothing n d h = ground (arith, n, d)
  rest_frees k p q w (direct f) n d h = ground (arith, n, d)
  rest_frees k p q w (pointed x f) n d h = ground (arith, n, d, h)

  -- The content that the constructor makes.
  abbrev made : Bool → (F → Bool) → F → ℕ → Content F
  made storable null f h = if null f then nothing else if storable then direct f else pointed h f

  construct_makes :
      (storable : Bool) (null : F → Bool) (moved : F → F) (t p : ℕ) (f : F) (w : World F)
      → t ≢ p
      → let c = made storable null f w.fresh in
        let r = construct (kind storable null moved) t p f w in
        (r.0 ≡ done tt)
        × (r.1.small.slots p ≡ slot_of c)
        × Backed r.1 c
        × (w.blocks w.fresh ≡ none → (x : ℕ) → blocks_without c r.1.blocks x ≡ w.blocks x)
  unfolding construct SmallFunction.construct SmallFunction.construct_null SmallFunction.assign
      SmallFunction.destroy
  construct_makes true null moved t p f w n = elim (Bool-cases (null f)) [
    | inl e ↦ rw e (refl, ground (arith, n), tt, λ h x. ground (arith, n, h))
    | inr e ↦ rw e (refl, ground (arith, n), tt, λ h x. ground (arith, n, h))
  ]
  construct_makes false null moved t p f w n = elim (Bool-cases (null f)) [
    | inl e ↦ rw e (refl, ground (arith, n), tt, λ h x. ground (arith, n, h))
    | inr e ↦
        rw e (ground (arith, n), ground (arith, n), ground (arith, n), λ h x. ground (arith, n, h))
  ]

  after_done :
      (r : Ends (Unit {0}) × World F) (g : Code (World F) (Unit {0}))
      → r.0 ≡ done tt
      → and_then r (λ _. g) ≡ g r.1
  after_done (done tt, s) g e = refl
  after_done (thrown x, s) g e = ground (arith, e)
  after_done (undefined, s) g e = ground (arith, e)
  after_done (dangling q, s) g e = ground (arith, e)

  then_rest :
      (storable : Bool) (null : F → Bool) (moved : F → F) (t p q : ℕ) (f : F) (w : World F)
      → t ≢ p
      → let k = kind storable null moved in
        lifetime k t p q f w ≡ rest k p q (construct k t p f w).1
  unfolding lifetime
  then_rest storable null moved t p q f w n =
      let k = kind storable null moved in
      after_done (construct k t p f w) (rest k p q)
        (construct_makes storable null moved t p f w n).0

  -- After the constructor and the move the second function calls the callable, or throws
  -- bad_function_call where the callable is null; after the destructors each block of the heap is
  -- what it was before, provided that the next block to be allocated is a free one.
  pub lifetime_frees :
      (bad : Error) (storable : Bool) (null : F → Bool) (moved : F → F) (t p q : ℕ) (f : F)
      (w : World F)
      → t ≢ p
      → p ≢ q
      → w.blocks w.fresh ≡ none
      → let k = kind storable null moved in
        let r = (construct k t p f >> construct_moved k q p) w in
        let e = lifetime k t p q f w in
        (call bad q r.1 ≡ wanted bad k f) × (e.0 ≡ done tt) × ((x : ℕ) → e.1.blocks x ≡ w.blocks x)
  unfolding lifetime
  lifetime_frees bad storable null moved t p q f w a b h =
      let k = kind storable null moved in
      let m = construct_makes storable null moved t p f w a in
      let c = made storable null f w.fresh in
      let r = rest_frees k p q (construct k t p f w).1 c b m.1 m.2 in
      rw (then_rest storable null moved t p q f w a)
        (moves_on bad storable null moved t p q f w a b, r.0, λ x. rw (r.1) (m.3 h x))
