-- ===== src/Types.antt =====
-- bits/concurrency_type_traits.h, and the types of what the functions over futures make: those that
-- the compiler finds, as functions on a syntax of types.
pub mod Results
pub mod Fitting
mod Tests
use portable_concurrency.Prelude.{
  ℕ, Bool, true, false, not, ◌&&◌, ◌||◌, ◌==◌, Option, none, some, List, [], ◌∷◌, if◌then◌else◌,
}
use mathlib.Core.Option

-- The types that the library tells apart; any other is an object with a number.
pub data CppType : Type 0 where
  void : CppType
  object : ℕ → CppType
  constant reference reference_wrapper future shared_future promise : CppType → CppType

abbrev pub is_unique_future : CppType → Bool
is_unique_future (future t) = true
is_unique_future _ = false

abbrev pub is_shared_future : CppType → Bool
is_shared_future (shared_future t) = true
is_shared_future _ = false

abbrev pub is_future : CppType → Bool
is_future t = is_unique_future t || is_shared_future t

abbrev pub are_futures : List CppType → Bool
are_futures [] = true
are_futures (t ∷ ts) = is_future t && are_futures ts

abbrev pub remove_future : CppType → CppType
remove_future (future t) = t
remove_future (shared_future t) = t
remove_future t = t

abbrev pub add_future : CppType → CppType
add_future (future t) = future t
add_future (shared_future t) = shared_future t
add_future t = future t

abbrev pub is_void : CppType → Bool
is_void void = true
is_void _ = false

abbrev pub is_reference : CppType → Bool
is_reference (reference t) = true
is_reference _ = false

-- `static_assert(!is_future<T>::value)` of both futures, for all that a type is made of.
abbrev pub is_allowed : CppType → Bool
is_allowed (future t) = not (is_future t) && is_allowed t
is_allowed (shared_future t) = not (is_future t) && is_allowed t
is_allowed (constant t) = is_allowed t
is_allowed (reference t) = is_allowed t
is_allowed (reference_wrapper t) = is_allowed t
is_allowed (promise t) = is_allowed t
is_allowed _ = true

-- `shared_future::get_result_type`
abbrev pub get_result_type : CppType → CppType
get_result_type void = void
get_result_type (reference t) = reference t
get_result_type (constant t) = reference (constant t)
get_result_type t = reference (constant t)

-- `decay_for_future`
abbrev pub decay : CppType → CppType
decay (reference (constant t)) = t
decay (reference t) = t
decay (constant t) = t
decay t = t

abbrev pub decay_for_future : CppType → CppType
decay_for_future (reference_wrapper t) = reference t
decay_for_future t = decay t

-- A callable: the results of its calls, none where it cannot be called with such arguments, and the
-- signature of a function pointer or of a single `operator()`.
pub record Signature : Type 0 where
  pub result : CppType
  pub parameters : List CppType

pub record Invocable : Type 0 where
  pub invoke_result : List CppType → Option CppType
  pub signature : Option Signature

abbrev pub cnt_result : Invocable → CppType → Option CppType
cnt_result f void = f.invoke_result []
cnt_result f t = f.invoke_result (t ∷ [])

abbrev pub cnt_future : Invocable → CppType → Option CppType
cnt_future f t = Option.map add_future (cnt_result f t)

abbrev pub same_type : CppType → CppType → Bool
same_type void void = true
same_type (object m) (object n) = m == n
same_type (constant t) (constant u) = same_type t u
same_type (reference t) (reference u) = same_type t u
same_type (reference_wrapper t) (reference_wrapper u) = same_type t u
same_type (future t) (future u) = same_type t u
same_type (shared_future t) (shared_future u) = same_type t u
same_type (promise t) (promise u) = same_type t u
same_type _ _ = false

-- `promise_deducer<Future>::deduce`, from `void(promise<R>, Future)`.
abbrev deduce : CppType → CppType → List CppType → Option CppType
deduce t void (promise r ∷ p ∷ []) = if same_type p t then some r else none
deduce t _ _ = none

abbrev pub promise_arg : Invocable → CppType → Option CppType
promise_arg f t = Option.bind f.signature (λ s. deduce t s.result s.parameters)
