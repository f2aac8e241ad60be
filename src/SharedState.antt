-- ===== src/SharedState.antt =====
-- bits/shared_state.h over the store.
use portable_concurrency.Prelude.{
  ℕ, zero, suc, sym, subst, Option-cases, inl, inr, Bool, true, false, Option, none, some, [], ◌∷◌,
  ◌++◌, map, not, ◌&&◌, if◌then◌else◌,
}
use portable_concurrency.Store.{
  Code, pure, throw, fault, Ends, done, undefined, dangling, and_then, ◌>>=◌, ◌>>◌, Error, Result,
  ok, err, broken_promise, promise_already_satisfied, Storage, Continuation, Continuations, Store,
  empty, inner, value, failure, waiting, executed, forward, call, destroy,
}
use portable_concurrency.Owners.{deref, deref-none, deref-some, write, begin, share, storage_parts}

abbrev pub is_executed : Continuations → Bool
is_executed executed = true
is_executed (waiting cs) = false

module _ {V : Type 0} where
  abbrev pub is_empty : Storage V → Bool
  is_empty empty = true
  is_empty _ = false

  abbrev pub is_inner : Storage V → Bool
  is_inner (inner q) = true
  is_inner _ = false

  -- `continuations_stack::push`: a stack that is consumed has the continuation called in place.
  unfoldable pub push : ℕ → Continuation → Code (Store V) (Unit {0})
  push p c = do
    b ← deref p
    elim b.continuations [
      | waiting cs ↦ write p (record b { continuations = waiting (c ∷ cs) })
      | executed ↦ begin (call c ∷ destroy c ∷ [])
    ]

  -- `continuations_stack::execute`: the calls, and then the destructor of the list.
  unfoldable pub execute : ℕ → Code (Store V) (Unit {0})
  execute p = do
    b ← deref p
    elim b.continuations [
      | waiting cs ↦ do
        write p (record b { continuations = executed })
        begin (map call cs ++ map destroy cs)
      | executed ↦ pure tt
    ]

  -- `storage_.emplace` and `continuations().execute()`, behind the test of both setters.
  unfoldable pub satisfy : ℕ → Storage V → Code (Store V) (Unit {0})
  satisfy p x = do
    b ← deref p
    if is_empty b.storage
        then (do write p (record b { storage = x }); execute p)
        else throw promise_already_satisfied

  unfoldable pub emplace : ℕ → V → Code (Store V) (Unit {0})
  emplace p v = satisfy p (value v)

  unfoldable pub set_exception : ℕ → Error → Code (Store V) (Unit {0})
  set_exception p e = satisfy p (failure e)

  unfoldable pub abandon : ℕ → Code (Store V) (Unit {0})
  abandon p = do
    b ← deref p
    if not (is_executed b.continuations) && not (is_inner b.storage)
        then set_exception p broken_promise
        else pure tt

  -- `unwrap` of the state of a future, null if the future is not valid.
  unfoldable pub unwrap : ℕ → Option ℕ → Code (Store V) (Unit {0})
  unwrap self none = set_exception self broken_promise
  unwrap self (some q) = do
    b ← deref self
    share q
    b ← deref self
    write self (record b { storage = inner q })
    begin (storage_parts b.storage)
    push q (forward self)

  -- What `storage_.visit` does for `value_ref` and `exception`, with `read` for the inner state.
  abbrev pub visit :
      (ℕ → Code (Store V) (Result V)) → Continuations → Storage V → Code (Store V) (Result V)
  visit read (waiting cs) x = fault
  visit read executed (value v) = pure (ok v)
  visit read executed (failure e) = pure (err e)
  visit read executed (inner q) = read q
  visit read executed empty = fault

  -- `value_ref` and `exception` in one, through at most `depth` inner states.
  unfoldable pub read_result : ℕ → ℕ → Code (Store V) (Result V)
  read_result zero p = fault
  read_result (suc depth) p = do b ← deref p; visit (read_result depth) b.continuations b.storage

  abbrev found : Ends (Result V) × Store V → Option (Result V)
  found (done r, s) = some r
  found _ = none

  -- What a read of the state `p` would find.
  unfoldable pub outcome : ℕ → Store V → ℕ → Option (Result V)
  unfolding read_result
  outcome depth s p = found (read_result depth p s)

  visit-ends :
      (P : Ends (Result V) × Store V → Type 0) (s : Store V) (read : ℕ → Code (Store V) (Result V))
      (k : Continuations) (x : Storage V)
      → ((q : ℕ) → P (read q s))
      → ((r : Result V) → P (done r, s))
      → P (undefined, s)
      → P (visit read k x s)
  visit-ends P s read (waiting cs) x h d u = u
  visit-ends P s read executed (value v) h d u = d (ok v)
  visit-ends P s read executed (failure e) h d u = d (err e)
  visit-ends P s read executed (inner q) h d u = h q
  visit-ends P s read executed empty h d u = u

  -- A read changes nothing and throws nothing.
  pub read_result-ends :
      (P : Ends (Result V) × Store V → Type 0) (s : Store V) (depth p : ℕ)
      → ((r : Result V) → P (done r, s))
      → P (undefined, s)
      → ((q : ℕ) → P (dangling q, s))
      → P (read_result depth p s)
  unfolding read_result
  read_result-ends P s zero p d u g = u
  read_result-ends P s (suc depth) p d u g = elim (Option-cases (s.states p)) [
    | inl e ↦
        subst (λ r. P (and_then r λ b. visit (read_result depth) b.continuations b.storage))
          (sym (deref-none p s e)) (g p)
    | inr (b, e) ↦
        subst (λ r. P (and_then r λ b. visit (read_result depth) b.continuations b.storage))
          (sym (deref-some p s b e))
          (visit-ends P s (read_result depth) b.continuations b.storage
            (λ q. read_result-ends P s depth q d u g) d u)
  ]
