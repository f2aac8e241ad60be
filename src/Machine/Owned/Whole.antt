-- ===== src/Machine/Owned/Whole.antt =====
-- bits/make_future.h and bits/async.h: several calls in one, with pointers in hand between the
-- calls, and what they do with them where they return.
use portable_concurrency.Prelude.{ℕ, ◌+◌, ◌≡◌, refl, some, arith}
use portable_concurrency.Store.{
  Code, pure, ◌>>=◌, ◌>>◌, done, thrown, undefined, dangling, Ends, and_then, Error, Result,
  Function, Executor, inplace, queue, Store, plain, task,
}
use portable_concurrency.Promise.{Promise}
use portable_concurrency.Promise
use portable_concurrency.Future.{Future}
use portable_concurrency.Future
use portable_concurrency.PackagedTask.{
  PackagedTask, empty, owning, awaited, post_task, bind_arguments,
}
use portable_concurrency.PackagedTask
use portable_concurrency.Machine.Once.Prices.{Low}
use portable_concurrency.Machine.Owned.Refs.{pointer, option_refs}
use portable_concurrency.Machine.Owned.Moves.{Sound, Kept, After, Moves, nothing-Kept, then-Kept}
use portable_concurrency.Machine.Owned.Promises.{
  promise_refs, set_value-Moves, promise_exception-Moves, handed-Moves, made-Moves,
  get_future-Moves, destroy-Moves, make_promise-Moves, make-Moves,
}
use portable_concurrency.Machine.Owned.Tasks.{task_refs, call_posted-Moves}

module _ {V : Type 0} (v : ℕ) where
  pub make_task-Moves :
      (f : Function V) → Moves v (option_refs v f.captured) (task_refs v) (PackagedTask.make f)
  unfolding PackagedTask.make
  make_task-Moves f = made-Moves v (task (some f)) owning (task_refs v) (λ p. refl)

  -- Any account of the result in which the future has its pointer.
  pub task_future-Moves :
      (t : PackagedTask) (out : ℕ × PackagedTask → ℕ)
      → ((p : ℕ) → out (p, awaited p) ≡ pointer v p)
      → Moves v (task_refs v t) out (PackagedTask.get_future {V = V} t)
  unfolding PackagedTask.get_future
  task_future-Moves empty out e s h n = nothing-Kept v 0 s h n
  task_future-Moves (awaited p) out e s h n = nothing-Kept v 0 s h n
  task_future-Moves (owning p) out e s h n = handed-Moves v p out (p, awaited p) (e p) s h n

  -- The account where the code returns.
  abbrev pub Returned : {A : Type 0} → Store V → ℕ → (A → ℕ) → Ends A × Store V → Type 0
  Returned s k out (done a, t) = Kept v s k t (out a)
  Returned s k out (thrown e, t) = Unit {0}
  Returned s k out (undefined, t) = Unit {0}
  Returned s k out (dangling p, t) = Unit {0}

  abbrev pub Returns : {A : Type 0} → ℕ → (A → ℕ) → Code (Store V) A → Type 0
  Returns k out m = (s : Store V) → Low v s → Sound v s → Returned s k out (m s)

  -- There is `e` more in hand, which the code leaves alone.
  pub Moves-Returns :
      {A : Type 0} (k e i : ℕ) (out end : A → ℕ) (m : Code (Store V) A)
      → Moves v k out m
      → i ≡ k + e
      → ((a : A) → end a ≡ out a + e)
      → Returns i end m
  Moves-Returns {A} k e i out end m c b d s h n = go (m s) (c s h n)
    where
      go : (r : Ends A × Store V) → After v s k out r → Returned s i end r
      go (done a, t) x = record {
        low = x.low;
        sound = x.sound;
        balance = omega (arith, x.balance, b, d a);
      }
      go (thrown e, t) x = tt
      go (undefined, t) x = tt
      go (dangling p, t) x = tt

  pub bind-Returns :
      {A B : Type 0} (k : ℕ) (out : A → ℕ) (end : B → ℕ) (m : Code (Store V) A)
      (f : A → Code (Store V) B)
      → Returns k out m
      → ((a : A) → Returns (out a) end (f a))
      → Returns k end (m >>= f)
  bind-Returns {A} {B} k out end m f cm cf s h n = go (m s) (cm s h n)
    where
      next :
          (t : Store V) (l : ℕ) (r : Ends B × Store V)
          → Kept v s k t l
          → Returned t l end r
          → Returned s k end r
      next t l (done b, u) x y = then-Kept v s t u k l (end b) x y
      next t l (thrown e, u) x y = tt
      next t l (undefined, u) x y = tt
      next t l (dangling p, u) x y = tt

      go : (r : Ends A × Store V) → Returned s k out r → Returned s k end (and_then r f)
      go (done a, t) x = next t (out a) (f a t) x (cf a t x.low x.sound)
      go (thrown e, t) x = tt
      go (undefined, t) x = tt
      go (dangling p, t) x = tt

  pub pure-Returns :
      {A : Type 0} (k : ℕ) (out : A → ℕ) (a : A) → k ≡ out a → Returns k out (pure {S = Store V} a)
  pure-Returns k out a e s h n = record { low = h; sound = n; balance = omega (arith, e) }

  -- The promise goes; the future is what is left.
  ends_promise :
      (r : Promise) (p : ℕ)
      → Returns
          (promise_refs v r + pointer v p)
          (option_refs v)
          (Promise.destroy {V = V} r >> pure (some p))
  ends_promise r p =
      bind-Returns (promise_refs v r + pointer v p) (λ _. pointer v p) (option_refs v)
        (Promise.destroy r) (λ _. pure (some p))
        (Moves-Returns (promise_refs v r) (pointer v p) (promise_refs v r + pointer v p) (λ _. 0)
          (λ _. pointer v p) (Promise.destroy r) (destroy-Moves v r) refl (λ _. omega arith))
        (λ _. pure-Returns (pointer v p) (option_refs v) (some p) refl)

  pub make_ready-Returns : (x : V) → Returns 0 (option_refs v) (Future.make_ready_future x)
  unfolding Future.make_ready_future
  make_ready-Returns x =
      bind-Returns 0 (λ y. promise_refs v y.0 + pointer v y.1) (option_refs v)
        (Promise.make_promise plain)
        (λ y. Promise.set_value y.0 x >> (Promise.destroy y.0 >> pure (some y.1)))
        (Moves-Returns 0 0 0 (λ y. promise_refs v y.0 + pointer v y.1)
          (λ y. promise_refs v y.0 + pointer v y.1) (Promise.make_promise plain)
          (make_promise-Moves v plain) (omega arith) (λ y. omega arith))
        (λ y.
          bind-Returns (promise_refs v y.0 + pointer v y.1)
            (λ _. promise_refs v y.0 + pointer v y.1) (option_refs v) (Promise.set_value y.0 x)
            (λ _. Promise.destroy y.0 >> pure (some y.1))
            (Moves-Returns 0 (promise_refs v y.0 + pointer v y.1)
              (promise_refs v y.0 + pointer v y.1) (λ _. 0)
              (λ _. promise_refs v y.0 + pointer v y.1) (Promise.set_value y.0 x)
              (set_value-Moves v y.0 x) (omega arith) (λ _. omega arith))
            (λ _. ends_promise y.0 y.1))

  pub make_exceptional-Returns :
      (e : Error) → Returns 0 (option_refs v) (Future.make_exceptional_future {V = V} e)
  unfolding Future.make_exceptional_future
  make_exceptional-Returns e =
      bind-Returns 0 (promise_refs v) (option_refs v) (Promise.make plain)
        (λ r. Promise.set_exception r e >> taken r)
        (Moves-Returns 0 0 0 (promise_refs v) (promise_refs v) (Promise.make plain)
          (make-Moves v plain) (omega arith) (λ y. omega arith))
        (λ r.
          bind-Returns (promise_refs v r) (λ _. promise_refs v r) (option_refs v)
            (Promise.set_exception r e) (λ _. taken r)
            (Moves-Returns 0 (promise_refs v r) (promise_refs v r) (λ _. 0) (λ _. promise_refs v r)
              (Promise.set_exception r e) (promise_exception-Moves v r e) (omega arith)
              (λ _. omega arith))
            (λ _. taken-Returns r))
    where
      taken : Promise → Code (Store V) Future
      taken r = Promise.get_future r >>= λ y. Promise.destroy y.1 >> pure (some y.0)

      taken-Returns : (r : Promise) → Returns (promise_refs v r) (option_refs v) (taken r)
      taken-Returns r =
          bind-Returns (promise_refs v r) (λ y. promise_refs v y.1 + pointer v y.0) (option_refs v)
            (Promise.get_future r) (λ y. Promise.destroy y.1 >> pure (some y.0))
            (Moves-Returns (promise_refs v r) 0 (promise_refs v r)
              (λ y. pointer v y.0 + promise_refs v y.1) (λ y. promise_refs v y.1 + pointer v y.0)
              (Promise.get_future r) (get_future-Moves v r) (omega arith) (λ y. omega arith))
            (λ y. ends_promise y.1 y.0)

  post_task-Moves : (x : Executor) (p : ℕ) → Moves v 0 (λ _. 0) (post_task {V = V} x p)
  post_task-Moves inplace p s h n = call_posted-Moves v p s h n
  post_task-Moves (queue k) p s h n = record { low = h; sound = n; balance = omega arith }

  pub async-Returns :
      (x : Executor) (f : Function V) (a : Result V)
      → Returns (option_refs v f.captured) (option_refs v) (PackagedTask.async x f a)
  unfolding PackagedTask.async
  async-Returns x f a =
      bind-Returns (option_refs v f.captured) (task_refs v) (option_refs v)
        (PackagedTask.make (bind_arguments f a)) _
        (Moves-Returns (option_refs v f.captured) 0 (option_refs v f.captured) (task_refs v)
          (task_refs v) (PackagedTask.make (bind_arguments f a))
          (make_task-Moves (bind_arguments f a)) (omega arith) (λ y. omega arith))
        (λ t.
          bind-Returns (task_refs v t) (λ y. pointer v y.0) (option_refs v)
            (PackagedTask.get_future t) _
            (Moves-Returns (task_refs v t) 0 (task_refs v t) (λ y. pointer v y.0)
              (λ y. pointer v y.0) (PackagedTask.get_future t)
              (task_future-Moves t (λ y. pointer v y.0) (λ p. refl)) (omega arith)
              (λ y. omega arith))
            (λ y.
              bind-Returns (pointer v y.0) (λ _. pointer v y.0) (option_refs v) (post_task x y.0)
                (λ _. pure (some y.0))
                (Moves-Returns 0 (pointer v y.0) (pointer v y.0) (λ _. 0) (λ _. pointer v y.0)
                  (post_task x y.0) (post_task-Moves x y.0) (omega arith) (λ _. omega arith))
                (λ _. pure-Returns (pointer v y.0) (option_refs v) (some y.0) refl)))
