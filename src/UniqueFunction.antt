-- ===== src/UniqueFunction.antt =====
-- bits/unique_function.h and .hpp: a callable of any size, in the buffer of a small_unique_function
-- or, through a unique_ptr in a lambda there, in a block of the heap.
pub mod Calls
pub mod Lifetime
mod Tests
use portable_concurrency.Prelude.{
  ℕ, suc, Bool, true, false, Option, none, some, if◌then◌else◌, update,
}
use portable_concurrency.Store.{
  Code, pure, throw, done, thrown, undefined, dangling, ◌>>=◌, ◌>>◌, Ends, Error,
}
use portable_concurrency.SmallFunction.{Slot, Memory}
use portable_concurrency.SmallFunction

-- What stands in a buffer: the callable, or the lambda that has a pointer to it, null if it has
-- been moved from.
pub data Callable (F : Type 0) : Type 0 where
  stored : F → Callable F
  boxed : Option ℕ → Callable F

-- The `func_` of every object, and the blocks that `std::make_unique` has allocated.
pub record World (F : Type 0) : Type 0 where
  pub small : Memory (Callable F)
  pub blocks : ℕ → Option F
  pub fresh : ℕ

-- What the callables' type has: whether it is storable, its null test, what its move leaves behind
-- and, if the copy of a callable throws, what.
pub record Kind (F : Type 0) : Type 0 where
  pub is_storable : Bool
  pub is_null : F → Bool
  pub moved : F → F
  pub failure : F → Option Error

module _ {F : Type 0} where
  abbrev pub moved_callable : Kind F → Callable F → Callable F
  moved_callable k (stored f) = stored (k.moved f)
  moved_callable k (boxed h) = boxed none

  -- An operation of a `func_`.
  abbrev pub ended : Ends (Unit {0}) × Memory (Callable F) → World F → Ends (Unit {0}) × World F
  ended (x, m) w = (x, record w { small = m })

  abbrev pub on_small : Code (Memory (Callable F)) (Unit {0}) → Code (World F) (Unit {0})
  on_small op w = ended (op w.small) w

  -- The destructor of the unique_ptr in a lambda.
  abbrev pub delete_block : Option F → ℕ → Code (World F) (Unit {0})
  delete_block none h w = (undefined, w)
  delete_block (some f) h w = (done tt, record w { blocks = update w.blocks h none })

  abbrev pub end_callable : Option (Callable F) → Code (World F) (Unit {0})
  end_callable (some (boxed (some h))) w = delete_block (w.blocks h) h w
  end_callable _ w = (done tt, w)

  abbrev pub end_content : Bool → ℕ → Code (World F) (Unit {0})
  end_content true p w = end_callable (w.small.slots p).buffer w
  end_content false p w = (done tt, w)

  -- `~unique_function`
  unfoldable pub destroy : ℕ → Code (World F) (Unit {0})
  destroy p w = (end_content (w.small.slots p).vtbl p >> on_small (SmallFunction.destroy p)) w

  -- `operator=(unique_function &&)`, and that of a small_unique_function.
  unfoldable pub assign : Kind F → ℕ → ℕ → Code (World F) (Unit {0})
  assign k p q w =
      (end_content (w.small.slots p).vtbl p
          >> on_small (SmallFunction.assign (moved_callable k) p q))
        w

  -- `unique_function(unique_function &&)`
  unfoldable pub construct_moved : Kind F → ℕ → ℕ → Code (World F) (Unit {0})
  construct_moved k p q w = on_small (SmallFunction.construct_moved (moved_callable k) p q) w

  -- `unique_function()`
  unfoldable pub construct_null : ℕ → Code (World F) (Unit {0})
  construct_null p w = on_small (SmallFunction.construct_null p) w

  -- `std::make_unique`
  abbrev pub allocate : F → Code (World F) ℕ
  allocate f w =
      (done w.fresh, record w { blocks = update w.blocks w.fresh (some f); fresh = suc w.fresh })

  abbrev pub copy_or_throw : Option Error → Code (World F) (Unit {0}) → Code (World F) (Unit {0})
  copy_or_throw none m = m
  copy_or_throw (some e) m = throw e

  abbrev pub never_null : Callable F → Bool
  never_null c = false

  -- `unique_function(F &&, std::true_type)`: the constructor of `func_`, which tests for null before
  -- it copies the callable.
  abbrev pub construct_stored : Kind F → ℕ → F → Code (World F) (Unit {0})
  construct_stored k p f =
      construct_null p
      >> (if k.is_null f
          then pure tt
          else copy_or_throw (k.failure f)
              (on_small (SmallFunction.construct never_null p (stored f))))

  -- `func_ = [func = make_unique(f)](A... a) { ... }`: the lambda stands in a function `t` of its
  -- own, which is moved from and destroyed.
  abbrev pub assign_boxed : Kind F → ℕ → ℕ → F → Code (World F) (Unit {0})
  unfolding assign destroy
  assign_boxed k t p f = do
    h ← allocate f
    on_small (SmallFunction.construct never_null t (boxed (some h)))
    assign k p t
    destroy t

  -- `unique_function(F &&, std::false_type)`
  abbrev pub construct_boxed : Kind F → ℕ → ℕ → F → Code (World F) (Unit {0})
  construct_boxed k t p f =
      construct_null p
      >> (if k.is_null f then pure tt else copy_or_throw (k.failure f) (assign_boxed k t p f))

  -- `unique_function(F &&)`
  unfoldable pub construct : Kind F → ℕ → ℕ → F → Code (World F) (Unit {0})
  unfolding construct_null assign destroy
  construct k t p f = if k.is_storable then construct_stored k p f else construct_boxed k t p f

  -- `operator bool`, and `== nullptr` is its opposite.
  unfoldable pub holds : ℕ → World F → Bool
  holds p w = (w.small.slots p).vtbl

  -- `operator()`, up to the call of the callable.
  abbrev pub read_block : Option F → Ends F
  read_block none = undefined
  read_block (some f) = done f

  abbrev pub invoke : World F → Ends (Callable F) → Ends F
  invoke w (done (stored f)) = done f
  invoke w (done (boxed (some h))) = read_block (w.blocks h)
  invoke w (done (boxed none)) = undefined
  invoke w (thrown e) = thrown e
  invoke w undefined = undefined
  invoke w (dangling q) = dangling q

  unfoldable pub call : Error → ℕ → World F → Ends F
  call bad p w = invoke w (SmallFunction.call bad p w.small)
