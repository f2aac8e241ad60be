-- ===== src/Machine/Safe.antt =====
-- No state is used when it is gone.
mod Ends
mod Operations
mod Steps
mod Promises
mod Tasks
mod Futures
mod Continuations
mod Jobs
pub mod Requests
use portable_concurrency.Prelude.{◌+◌, ◌≡◌, refl, some, ◌∷◌}
use portable_concurrency.Store.{Store}
