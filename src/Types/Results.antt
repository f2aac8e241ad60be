-- ===== src/Types/Results.antt =====
-- The types of what `then`, `next`, `async` and a packaged_made task make: that of the future which is
-- returned, and that of the result's state.
use portable_concurrency.Prelude.{
  Bool, true, false, Option, none, some, List, [], ◌∷◌, if◌then◌else◌,
}
use mathlib.Core.Option
use portable_concurrency.Types.{
  CppType, void, constant, reference, same_type, future, shared_future, is_future, is_void,
  is_reference, remove_future, add_future, get_result_type, Invocable, cnt_result, promise_arg,
}

pub record Made : Type 0 where
  pub returned : CppType
  pub state : CppType

-- The operations that attach a function, with the argument that it is called with.
pub data Attachment : Type 0 where
  unique_then unique_next shared_then shared_next : Attachment

abbrev pub argument : Attachment → CppType → CppType
argument unique_then t = future t
argument unique_next t = t
argument shared_then t = shared_future t
argument shared_next t = get_result_type t

-- `cnt_future_t` and `result_type`, from one `cnt_result_t`.
abbrev pub made_of : CppType → Made
made_of r = record { returned = add_future r; state = remove_future r }

unfoldable pub attached : Attachment → Invocable → CppType → Option Made
attached a f t = Option.map made_of (cnt_result f (argument a t))

-- The interruptible `then`: `result_type` is what the promise is of.
abbrev pub promised : CppType → Made
promised r = record { returned = add_future r; state = r }

unfoldable pub attached_interruptible : Invocable → CppType → Option Made
attached_interruptible f t = Option.map promised (promise_arg f t)

abbrev pub value_type : CppType → Option CppType
value_type (future t) = some t
value_type (shared_future t) = some t
value_type _ = none

-- `packaged_task<R(A...)>`, and `async`: `result_type` is `add_future_t<R>::value_type`.
unfoldable pub packaged_made : CppType → Option Made
packaged_made r =
    Option.map (λ s. record { returned = add_future r; state = s }) (value_type (add_future r))

unfoldable pub asynchronous : Invocable → List CppType → Option Made
asynchronous f args = Option.bind (f.invoke_result args) packaged_made

-- The overloads of `set_state_value`.
pub data Setter : Type 0 where
  sets_object sets_reference unwraps_reference sets_void unwraps_void : Setter

abbrev reference_setter : Bool → Setter
reference_setter true = unwraps_reference
reference_setter false = sets_reference

abbrev void_setter : Bool → Setter
void_setter true = sets_void
void_setter false = unwraps_void

abbrev pub setter_for : Bool → Bool → CppType → Setter
setter_for true b r = void_setter (is_void r)
setter_for false true r = reference_setter (is_future r)
setter_for false false r = sets_object

-- The one that is chosen for a state of type `s` and a function with the result `r`.
unfoldable pub setter : CppType → CppType → Setter
setter s r = setter_for (is_void s) (is_reference s) r

-- A future of the type `s`: what `shared_state<s>::unwrap` links into the state.
abbrev pub unwraps : CppType → CppType → Bool
unwraps s (future t) = same_type t s
unwraps s (shared_future t) = same_type t s
unwraps s _ = false

-- Whether its body compiles for a state of type `s` and the result `r`, which is not converted:
-- `auto &&res` and the `unwrap` that is found for it, `R &res`, a future to unwrap, or no result.
abbrev pub takes_result : Setter → CppType → CppType → Bool
takes_result sets_object s r = if is_future r then unwraps s r else same_type r s
takes_result sets_reference s r = same_type r s
takes_result unwraps_reference s r = unwraps s r
takes_result sets_void s r = is_void r
takes_result unwraps_void s r = unwraps s r

-- A call of a function that the library makes: from a continuation, or from a task.
pub data Call : Type 0 where
  attaching : Attachment → CppType → Call
  running : List CppType → Call

abbrev pub result : Call → Invocable → Option CppType
result (attaching a t) f = cnt_result f (argument a t)
result (running args) f = f.invoke_result args

abbrev pub made_by : Call → Invocable → Option Made
made_by (attaching a t) f = attached a f t
made_by (running args) f = asynchronous f args

-- How the result `r` gets into a state of type `s`: a continuation whose function returns a future
-- unwraps it (`UnwrappableContinuation`), all else is done by `set_state_value`.
abbrev pub delivers : Call → CppType → CppType → Bool
delivers (attaching a t) s r = if is_future r then unwraps s r else takes_result (setter s r) s r
delivers (running args) s r = takes_result (setter s r) s r

-- `cref_t`
abbrev add_const : CppType → CppType
add_const (constant t) = constant t
add_const (reference t) = reference t
add_const t = constant t

abbrev add_reference : CppType → CppType
add_reference (reference t) = reference t
add_reference t = reference t

abbrev pub cref : CppType → CppType
cref t = add_reference (add_const t)

-- The arguments that the functors of bits/then.hpp call their function with, and a task its own. The
-- stored reference_wrapper of a reference counts as the reference that it converts to.
abbrev pub passed_types : Call → List CppType
passed_types (attaching unique_then t) = future t ∷ []
passed_types (attaching shared_then t) = shared_future t ∷ []
passed_types (attaching unique_next void) = []
passed_types (attaching unique_next t) = t ∷ []
passed_types (attaching shared_next void) = []
passed_types (attaching shared_next t) = cref t ∷ []
passed_types (running args) = args
