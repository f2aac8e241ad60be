-- ===== src/Lib.antt =====
-- portable_concurrency: futures, promises and continuations.
--
-- A promise and its future share a state, which holds what the promise is given and a stack of
-- continuations. Setting the state executes the stack; a continuation that is pushed later is
-- called in place. `then` and `next` push a continuation that runs a function of the user on an
-- executor and puts its result into a state of its own, and a function that returns a future has
-- that future's state linked into its own. All code that is named here stands in
-- portable_concurrency/bits of the repository.
--
-- The modules:
--   Prelude       the library names that are used, Boolean tests, lists, families of values.
--   OnceStack     once_consumable_stack.h and .hpp with the wrapper of continuations_stack: the
--                 head and the nodes in memory, each thread between two atomic steps. System is
--                 the interleaving of any number of pushing threads with one that executes, Spec
--                 the list it stands for, Invariant the chain of nodes behind the head and the
--                 nodes that the threads own.
--   Store         the data: states, promises' and continuations' parts, jobs, and the monad of
--                 code over a store that ends, throws or has undefined behaviour.
--   Owners        shared_ptr and weak_ptr: counts of owners, and what a destructor releases.
--   SharedState   shared_state.h: emplace, set_exception, abandon, unwrap, value_ref, exception.
--   Promise       promise.h: promise_common.
--   Future        future.hpp, shared_future.hpp, make_future.h.
--   Then          then.hpp, and set_state_value of utils.h.
--   Interrupt     the continuations of future.hpp and shared_future.hpp that are handed a promise.
--   PackagedTask  packaged_task.h and async.h.
--   Machine       runs the jobs. System is all that callers may do: Reach on one thread, Interleaved
--                 on any number. Settled is an invariant of the first. Of the second, Once counts
--                 what may still call the function of a continuation, Owned the strong pointers,
--                 with the client's in Owned/Runs, and Safe has the dereferences of pointers in
--                 those runs. From the start to the end, with functions that run in place: Chain
--                 a promise with one continuation, Interruptible the same with a continuation that
--                 is handed a promise, Values a promise and what its future gives, Tasks a packaged
--                 task and async.
--   ClosableQueue closable_queue.h and .hpp: the queue with the calls of pop that wait on it.
--   ThreadPool    thread_pool.h, and static_thread_pool and process_queue of
--                 portable_concurrency.cpp: System interleaves the workers with callers.
--   WhenAll       when_all.h: the counter of when_all_state under any interleaving.
--   WhenAny       when_any.h: the flag and the index of when_any_state, likewise.
--   Latch         latch.h, and latch in portable_concurrency.cpp.
--   Either        either.h: the storage of a shared state, a promise and a packaged task.
--   SmallFunction small_unique_function.h and .hpp: a callable in a buffer.
--   UniqueFunction unique_function.h and .hpp: a layer over that, with callables on the heap.
--   BlockingWait  detail::wait in portable_concurrency.cpp: what wait and get of a future do.
--   TimedWaiter   timed_waiter.h: calls that wait with a deadline, and the notification.
--   Types         concurrency_type_traits.h, and the types of what then, next, async and a packaged
--                 task make: Results finds them, Fitting compares them.
--
-- How code is modelled. Threads interleave at atomic steps in one order that all see: memory
-- orders weaker than that are not modelled. An allocation may get any address that is free, so a
-- node's address may be used again. In the Store the stack of continuations is a list, with a push
-- and the consumption as single steps. The calls that are under way are the list `jobs` of
-- the store, the innermost first: a function of the library changes the store up to the point
-- where it calls something that is not its own code (a continuation, a destructor), and leaves that
-- and what follows it as jobs. Requests of callers may come between any two jobs. The jobs of a
-- thread nest, so its innermost goes first; the jobs of the threads that wait stand beside the store,
-- and any thread may take its turn after any job or request. A local shared_ptr is released by a
-- job. Use of a state that is gone is `dangling`, a failed assertion is `undefined`. An exception
-- that leaves a job skips the rest of `task_state::run` (`unwind`), the one function from which it
-- comes to a caller: that is a task which is called again before its first call has ended.
--
-- A function of the user is a function from the result of its parent to a value, an exception, or
-- a future that it has captured; what else it does are requests of their own. A function that
-- is handed a promise gives it a result, leaves it to its destructor or moves it away. A function of
-- no arguments ignores what it is given. Executors of the user have
-- numbers and keep actions; any of the actions that are kept, whichever executor has it, is run or
-- dropped at any later moment.
-- Exceptions are numbers of the user or one of the library's five. Allocators are not modelled:
-- memory does not run out.
--
-- Fuel. `read_result` follows at most as many inner states as there are states. `run_jobs` runs at
-- most as many jobs as it is told; Chain gives it twenty, more than one promise and one continuation
-- make. `run_alone` takes the number of steps of the one push that runs.
--
-- Types are values of a syntax that has those which the library tells apart. What a callable returns
-- for which arguments is a parameter of theirs.
--
-- Not modelled: conversions and the calls of member pointers in invoke.h, coroutines, the examples
-- and the tests.
pub mod Prelude
pub mod OnceStack
pub mod Store
pub mod Owners
pub mod SharedState
pub mod Promise
pub mod Future
pub mod Then
pub mod Interrupt
pub mod PackagedTask
pub mod Machine
pub mod ClosableQueue
pub mod ThreadPool
pub mod WhenAll
pub mod WhenAny
pub mod Latch
pub mod Either
pub mod SmallFunction
pub mod UniqueFunction
pub mod BlockingWait
pub mod TimedWaiter
pub mod Types
