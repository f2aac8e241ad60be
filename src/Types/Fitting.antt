-- ===== src/Types/Fitting.antt =====
-- The types that are found fit together.
use portable_concurrency.Prelude.{ℕ, suc, ◌≡◌, ◌≢◌, ◌↔◌, refl, ap, true, false, some, arith}
use mathlib.Core.Option
use mathlib.Core.Option.{some-injective}
use portable_concurrency.Types.{
  CppType, void, object, constant, reference, reference_wrapper, future, shared_future, promise,
  is_allowed, is_future, Invocable, promise_arg,
}
use portable_concurrency.Types.Results.{
  Made, promised, attached_interruptible, value_type, delivers, passed_types, Call,
}

-- The function is called with the arguments that its result is found for, the pointer to the state
-- becomes a future that is returned, no future of a future is named, and the result goes into the
-- state.
pub record IsFitting (c : Call) (f : Invocable) (r : CppType) (m : Made) : Type 0 where
  pub called : f.invoke_result (passed_types c) ≡ some r
  pub converts : value_type m.returned ≡ some m.state
  pub allowed : is_allowed m.returned ≡ true
  pub delivered : delivers c m.state r ≡ true

depth : CppType → ℕ
depth void = 0
depth (object n) = 0
depth (constant t) = suc (depth t)
depth (reference t) = suc (depth t)
depth (reference_wrapper t) = suc (depth t)
depth (promise t) = suc (depth t)
depth (future t) = suc (depth t)
depth (shared_future t) = suc (depth t)

ne_future : (t : CppType) → value_type (future t) ≢ some (future t)
unfolding depth
ne_future t e = omega (arith, ap depth (some-injective _ _ e))

ne_shared_future : (t : CppType) → value_type (shared_future t) ≢ some (shared_future t)
unfolding depth
ne_shared_future t e = omega (arith, ap depth (some-injective _ _ e))

-- The future of an interruptible continuation is made of the result's state exactly if its promise
-- is not that of a future.
pub promised_fits :
    (t r : CppType) (f : Invocable)
    → promise_arg f t ≡ some r
    → (attached_interruptible f t ≡ some (promised r))
      × ((value_type (promised r).returned ≡ some (promised r).state) ↔ (is_future r ≡ false))
unfolding attached_interruptible
promised_fits t r f e = (ap (Option.map promised) e, by_type r)
  where
    by_type :
        (r : CppType)
        → (value_type (promised r).returned ≡ some (promised r).state) ↔ (is_future r ≡ false)
    by_type void = (λ _. refl, λ _. refl)
    by_type (object n) = (λ _. refl, λ _. refl)
    by_type (constant t) = (λ _. refl, λ _. refl)
    by_type (reference t) = (λ _. refl, λ _. refl)
    by_type (reference_wrapper t) = (λ _. refl, λ _. refl)
    by_type (promise t) = (λ _. refl, λ _. refl)
    by_type (future t) = (λ g. absurd (ne_future t g), λ g. ground (arith, g))
    by_type (shared_future t) = (λ g. absurd (ne_shared_future t g), λ g. ground (arith, g))
