-- ===== src/Machine/Settled.antt =====
-- An invariant of the store: what the states, the pointers and the jobs of a reached store are.
pub mod Defs
mod Parts
pub mod Operations
pub mod Steps
pub mod Promises
pub mod Jobs
pub mod Futures
pub mod Tasks
pub mod Requests
pub use Defs.*
use portable_concurrency.Prelude.{zero, suc, none, []}
use portable_concurrency.Store.{Store, waiting}
