-- ===== src/Either/Content.antt =====
-- `either` is an optional value with the number of its type, and destroys what it has constructed.
use portable_concurrency.Prelude.{
  ℕ, zero, suc, ◌≤◌, ◌<◌, ◌≡◌, ◌≢◌, ◌==◌, ◌∙◌, refl, ap, subst, none, some, true, false, ℕ_discrete,
  arith,
}
use portable_concurrency.Store.{done, thrown, and_then, Ends, Result, ok, err}
use portable_concurrency.Either.{
  Either, Visited, monostate, object, visit_backward, clean, emplace, move_turn, move_turns,
  move_from, move_assign,
}

same_number : (i : ℕ) → (i == i) ≡ true
same_number i = ground arith

other_number : (i j : ℕ) → i ≢ j → (i == j) ≡ false
other_number i j n = ground (arith, n)

-- Nothing, or an object of the type `suc i`.
pub data Content (A : Type 0) : Type 0 where
  nothing : Content A
  item : ℕ → A → Content A

module _ {A : Type 0} where
  abbrev pub shown : Content A → Visited A
  shown nothing = monostate
  shown (item i v) = object (suc i) v

  -- How many objects are destroyed when the content is cleaned as well.
  abbrev pub cleaned : Content A → ℕ → ℕ
  cleaned nothing d = d
  cleaned (item i v) d = suc d

  -- The types are numbered from 1 to `n`.
  abbrev pub Fits : ℕ → Content A → Type 0
  Fits n nothing = Unit
  Fits n (item i v) = i < n

  -- The `either` with this content that has destroyed `d` objects.
  abbrev pub represent : Content A → ℕ → Either A
  represent nothing d = record { state = 0; storage = none; created = d; destroyed = d }
  represent (item i v) d = record {
    state = suc i;
    storage = some (suc i, v);
    created = suc d;
    destroyed = d;
  }

  visit-nothing : (n d : ℕ) → visit_backward n (represent nothing d) ≡ monostate
  unfolding visit_backward
  visit-nothing zero d = refl
  visit-nothing (suc n) d = rw (other_number 0 (suc n) (omega arith)) (visit-nothing n d)

  visit-item :
      (n i : ℕ) (v : A) (d : ℕ)
      → i < n
      → visit_backward n (represent (item i v) d) ≡ object (suc i) v
  unfolding visit_backward
  visit-item zero i v d l = absurd (omega (arith, l))
  visit-item (suc n) i v d l = elim (ℕ_discrete i n) [
    | yes e ↦ rw (e, same_number (suc n)) refl
    | no o ↦
        rw (other_number (suc i) (suc n) (omega (arith, o)))
          (visit-item n i v d (omega (arith, l, o)))
  ]

  -- A visitor is called with what is there.
  pub visit_shows :
      (n : ℕ) (c : Content A) (d : ℕ) → Fits n c → visit_backward n (represent c d) ≡ shown c
  visit_shows n nothing d f = visit-nothing n d
  visit_shows n (item i v) d f = visit-item n i v d f

  clean_empties :
      (n : ℕ) (c : Content A) (d : ℕ)
      → Fits n c
      → clean n (represent c d) ≡ (done tt, represent nothing (cleaned c d))
  unfolding clean
  clean_empties n nothing d f = rw (visit_shows n nothing d f) refl
  clean_empties n (item i v) d f = rw (visit_shows n (item i v) d f) refl

  -- What `emplace` comes to: the new object, or, if its constructor throws, nothing.
  abbrev pub built : ℕ → Result A → ℕ → Ends (Unit {0}) × Either A
  built i (ok v) d = (done tt, represent (item i v) d)
  built i (err x) d = (thrown x, represent nothing d)

  -- `emplace` destroys what was there, and leaves the new object or, when its constructor throws,
  -- nothing.
  pub emplace_replaces :
      (n i : ℕ) (c : Content A) (d : ℕ) (r : Result A)
      → Fits n c
      → emplace n (suc i) r (represent c d) ≡ built i r (cleaned c d)
  unfolding emplace
  emplace_replaces n i c d (ok v) f = rw (clean_empties n c d f) refl
  emplace_replaces n i c d (err x) f = rw (clean_empties n c d f) refl

  module _ (moved : A → A) (n : ℕ) where
    turns-nothing :
        (k e : ℕ) (x : Either A)
        → move_turns moved n k (x, represent nothing e) ≡ (done tt, (x, represent nothing e))
    unfolding move_turns
    turns-nothing zero e x = refl
    turns-nothing (suc k) e x = rw (turns-nothing k e x, other_number 0 (suc k) (omega arith)) refl

    turns-before :
        (k i e : ℕ) (v : A) (x : Either A)
        → k ≤ i
        → move_turns moved n k (x, represent (item i v) e) ≡ (done tt, (x, represent (item i v) e))
    unfolding move_turns
    turns-before zero i e v x l = refl
    turns-before (suc k) i e v x l =
        rw
          (
            turns-before k i e v x (omega (arith, l)),
            other_number (suc i) (suc k) (omega (arith, l)),
          )
          refl

    own_turn :
        (i d e : ℕ) (v : A)
        → move_turn moved n (suc i) (represent nothing d, represent (item i v) e)
          ≡ (done tt, (represent (item i v) d, represent (item i (moved v)) e))
    own_turn i d e v = rw (same_number (suc i), emplace_replaces n i nothing d (ok v) tt) refl

    turns-own :
        (i d e : ℕ) (v : A)
        → move_turns moved n (suc i) (represent nothing d, represent (item i v) e)
          ≡ (done tt, (represent (item i v) d, represent (item i (moved v)) e))
    unfolding move_turns
    turns-own i d e v =
        ap (λ r. and_then r (λ _. move_turn moved n (suc i)))
          (turns-before i i e v (represent nothing d) (omega arith))
        ∙ own_turn i d e v

    turns-after :
        (k i d e : ℕ) (v : A)
        → i < k
        → move_turns moved n k (represent nothing d, represent (item i v) e)
          ≡ (done tt, (represent (item i v) d, represent (item i (moved v)) e))
    unfolding move_turns
    turns-after zero i d e v l = absurd (omega (arith, l))
    turns-after (suc k) i d e v l = elim (ℕ_discrete i k) [
      | yes same ↦
          subst
            (λ m.
              move_turns moved n (suc m) (represent nothing d, represent (item i v) e)
              ≡ (done tt, (represent (item i v) d, represent (item i (moved v)) e)))
            same (turns-own i d e v)
      | no other ↦
          rw
            (
              turns-after k i d e v (omega (arith, l, other)),
              other_number (suc i) (suc k) (omega (arith, other)),
            )
            refl
    ]

    -- A move makes the source's content the target's, destroys what the target had, and leaves the
    -- source empty; and no object is destroyed twice or forgotten.
    pub move_assign_moves :
        (t c : Content A) (d e : ℕ)
        → Fits n t
        → Fits n c
        → move_assign moved n (represent t d, represent c e)
          ≡ (done tt, (represent c (cleaned t d), represent nothing (cleaned c e)))
    unfolding move_assign move_from
    move_assign_moves t nothing d e f g =
        rw
          (
            clean_empties n t d f,
            turns-nothing n e (represent nothing (cleaned t d)),
            clean_empties n nothing e tt,
          )
          refl
    move_assign_moves t (item i v) d e f g =
        rw
          (
            clean_empties n t d f,
            turns-after n i (cleaned t d) e v g,
            clean_empties n (item i (moved v)) e g,
          )
          refl
