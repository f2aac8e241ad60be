-- ===== src/Types/Tests.antt =====
-- A function that takes a future of an object and returns a shared_future of nothing, one that takes
-- a promise, and the types of library functions at some arguments.
use portable_concurrency.Prelude.{
  zero, suc, ◌≡◌, refl, true, false, Option, none, some, List, [], ◌∷◌,
}
use mathlib.Core.Option
use portable_concurrency.Types.{
  CppType, void, object, constant, reference, reference_wrapper, future, shared_future, promise,
  is_allowed, are_futures, get_result_type, decay_for_future, Invocable, promise_arg,
}
use portable_concurrency.Types.Results.{attached, attaching, shared_next, made_by}

abbrev results : List CppType → Option CppType
results (future (object (suc zero)) ∷ []) = some (shared_future void)
results _ = none

abbrev watched : Invocable
watched = record { invoke_result = results; signature = none }

not_for_next : made_by (attaching shared_next (object 1)) watched ≡ none
unfolding attached
not_for_next = refl

-- `void(promise<int>, future<double>)`, for an input of that type and of another.
abbrev handler : Invocable
handler = record {
  invoke_result = λ _. none;
  signature =
      some (record { result = void; parameters = promise (object 1) ∷ future (object 2) ∷ [] });
}

deduced :
    (promise_arg handler (future (object 2)) ≡ some (object 1))
    × (promise_arg handler (future (object 3)) ≡ none)
unfolding Option.bind
deduced = (refl, refl)

traits :
    (are_futures (future void ∷ shared_future (object 1) ∷ []) ≡ true)
    × (are_futures (future void ∷ object 1 ∷ []) ≡ false)
    × (is_allowed (future (shared_future void)) ≡ false)
    × (decay_for_future (reference_wrapper (object 1)) ≡ reference (object 1))
    × (get_result_type (object 1) ≡ reference (constant (object 1)))
traits = (refl, refl, refl, refl, refl)
