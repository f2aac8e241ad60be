-- ===== src/ThreadPool/System.antt =====
-- Any interleaving of workers, of callers that post, stop and wait, and of spurious wake-ups.

use portable_concurrency.Prelude.{ℕ, false, []}
use portable_concurrency.ClosableQueue.{wake_spuriously}
use portable_concurrency.ThreadPool.{
  Pool, outside, attach_step, post_task, close_queue, begin_stop, begin_wait, join_thread,
  wake_thread,
}

module _ {ℓ} {A : Type ℓ} where
  -- The pool after its constructor, with `n` threads that have not yet entered `attach`.
  abbrev pub init : ℕ → Pool A
  init n = record {
    queue = record { items = []; closed = false; sleeping = 0; woken = 0 };
    stopped = false;
    attached = 0;
    threads = n;
    waiting = false;
    joined = 0;
    workers = λ _. outside;
    started = [];
    accepted = [];
  }

  pub data Reach : Pool A → Type ℓ where
    start : (n : ℕ) → Reach (init n)
    attaches : {s : Pool A} (i : ℕ) → Reach s → Reach (attach_step s i)
    posts : {s : Pool A} (t : A) → Reach s → Reach (post_task t s)
    closes : {s : Pool A} → Reach s → Reach (close_queue s)
    begins_wait : {s : Pool A} → Reach s → Reach (begin_wait s)
    joins : {s : Pool A} → Reach s → Reach (join_thread s)
    rouses : {s : Pool A} (i : ℕ) → Reach s → Reach (wake_thread s i)
    stops : {s : Pool A} → Reach s → Reach (begin_stop s)
    wakes : {s : Pool A} → Reach s → Reach (record s { queue = wake_spuriously s.queue })
