-- ===== src/SmallFunction.antt =====
-- bits/small_unique_function.h and .hpp: a callable in a buffer of its own, in a memory of such
-- objects, so that the two sides of an assignment may be one object.
pub mod Moves
mod Tests
use portable_concurrency.Prelude.{
  ℕ, suc, Bool, true, false, Option, none, some, if◌then◌else◌, update,
}
use portable_concurrency.Store.{
  Code, pure, fault, done, thrown, undefined, ◌>>=◌, ◌>>◌, Ends, Error,
}

-- Whether `vtbl_` is set, and the callable that is alive in `buffer_`.
pub record Slot (F : Type 0) : Type 0 where
  pub vtbl : Bool
  pub buffer : Option F

-- `created` and `destroyed` count callables.
pub record Memory (F : Type 0) : Type 0 where
  pub slots : ℕ → Slot F
  pub created : ℕ
  pub destroyed : ℕ

module _ {F : Type 0} where
  -- `small_unique_function(F &&)`: a null function is not stored.
  unfoldable pub construct : (F → Bool) → ℕ → F → Code (Memory F) (Unit {0})
  construct is_null p f s =
      if is_null f
      then (done tt, record s { slots = update s.slots p (record { vtbl = false; buffer = none }) })
      else (
        done tt,
        record s {
          slots = update s.slots p (record { vtbl = true; buffer = some f });
          created = suc s.created;
        },
      )

  -- `vtbl_->destroy(buffer_)`
  abbrev pub destroy_buffer : ℕ → Option F → Code (Memory F) (Unit {0})
  destroy_buffer p none s = (undefined, s)
  destroy_buffer p (some f) s = (
    done tt,
    record s {
      slots = update s.slots p (record { vtbl = (s.slots p).vtbl; buffer = none });
      destroyed = suc s.destroyed;
    },
  )

  abbrev pub destroy_if : Bool → ℕ → Code (Memory F) (Unit {0})
  destroy_if true p s = destroy_buffer p (s.slots p).buffer s
  destroy_if false p s = (done tt, s)

  unfoldable pub destroy : ℕ → Code (Memory F) (Unit {0})
  destroy p s = destroy_if (s.slots p).vtbl p s

  -- `rhs.vtbl_->move(rhs.buffer_, buffer_)`, which leaves `moved f` in place of `f`.
  abbrev pub move_buffer : (F → F) → ℕ → ℕ → Option F → Code (Memory F) (Unit {0})
  move_buffer moved p q none s = (undefined, s)
  move_buffer moved p q (some f) s = (
    done tt,
    record s {
      slots =
          update (update s.slots q (record { vtbl = (s.slots q).vtbl; buffer = some (moved f) })) p
            (record { vtbl = (s.slots p).vtbl; buffer = some f });
      created = suc s.created;
    },
  )

  abbrev pub move_if : (F → F) → Bool → ℕ → ℕ → Code (Memory F) (Unit {0})
  move_if moved true p q s = move_buffer moved p q (s.slots q).buffer s
  move_if moved false p q s = (done tt, s)

  -- `vtbl_ = rhs.vtbl_`
  abbrev pub copy_vtbl : ℕ → ℕ → Code (Memory F) (Unit {0})
  copy_vtbl p q s = (
    done tt,
    record s {
      slots = update s.slots p (record { vtbl = (s.slots q).vtbl; buffer = (s.slots p).buffer });
    },
  )

  abbrev pub take_from : (F → F) → ℕ → ℕ → Code (Memory F) (Unit {0})
  take_from moved p q s = (move_if moved (s.slots q).vtbl p q >> copy_vtbl p q) s

  -- `small_unique_function()`, in a place where no object is.
  unfoldable pub construct_null : ℕ → Code (Memory F) (Unit {0})
  construct_null p s =
      (done tt, record s { slots = update s.slots p (record { vtbl = false; buffer = none }) })

  -- `small_unique_function(small_unique_function &&)`
  unfoldable pub construct_moved : (F → F) → ℕ → ℕ → Code (Memory F) (Unit {0})
  unfolding construct_null
  construct_moved moved p q = do construct_null p; take_from moved p q

  -- `operator=(small_unique_function &&)`, of the object `p` from the object `q`.
  unfoldable pub assign : (F → F) → ℕ → ℕ → Code (Memory F) (Unit {0})
  unfolding destroy
  assign moved p q = do destroy p; take_from moved p q

  -- `operator()`, up to the call of the callable. The error stands for std::bad_function_call.
  abbrev pub call_buffer : Option F → Ends F
  call_buffer none = undefined
  call_buffer (some f) = done f

  unfoldable pub call : Error → ℕ → Memory F → Ends F
  call bad p s = if (s.slots p).vtbl then call_buffer (s.slots p).buffer else thrown bad
