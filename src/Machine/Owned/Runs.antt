-- ===== src/Machine/Owned/Runs.antt =====
-- The system of Machine/System with the client's side of it: the pointers that the user's code
-- holds, those that it hands over in a call, and those that it is given.
use portable_concurrency.Prelude.{ℕ, ◌+◌, ◌≡◌, Bool, true, false, Option, List, [], ◌∷◌, ◌++◌}
use portable_concurrency.Store.{Code, pure, ◌>>=◌, done, thrown, Error, Job, Store}
use portable_concurrency.Promise
use portable_concurrency.Future
use portable_concurrency.PackagedTask
use portable_concurrency.Interrupt.{attach_interruptible, attach_shared_interruptible}
use portable_concurrency.Then.{attach_then, attach_next, attach_shared_then, attach_shared_next}
use portable_concurrency.Machine.{step, run_posted, drop_posted}
use portable_concurrency.Machine.System.{Request, init, unwind}
use portable_concurrency.Machine.Owned.Refs.{pointer, option_refs, frame_refs}
use portable_concurrency.Machine.Owned.Promises.{promise_refs}
use portable_concurrency.Machine.Owned.Continuations.{attach_refs, shared_attach_refs}
use portable_concurrency.Machine.Owned.Tasks.{task_refs}

-- How many pointers there are to each state.
abbrev pub Pointers : Type 0
Pointers = ℕ → ℕ

module _ {V : Type 0} where
  -- What a call takes from its caller: what is moved into it or ends in it.
  abbrev pub takes : Request V → Pointers
  takes (Request.make_promise f) v = frame_refs v f
  takes (Request.make_owning f) v = frame_refs v f
  takes (Request.get_future r) v = promise_refs v r
  takes (Request.destroy_promise r) v = promise_refs v r
  takes (Request.assign_promise r q) v = promise_refs v r
  takes (Request.get f) v = option_refs v f
  takes (Request.destroy_future f) v = option_refs v f
  takes (Request.assign_future f g) v = option_refs v f
  takes (Request.copy_assign_future f g) v = option_refs v f
  takes (Request.then_ f x g) v = attach_refs v f g.captured
  takes (Request.next_ f x g) v = attach_refs v f g.captured
  takes (Request.shared_then f x g) v = shared_attach_refs v f g.captured
  takes (Request.shared_next f x g) v = shared_attach_refs v f g.captured
  takes (Request.interruptible f x g) v = attach_refs v f g.captured
  takes (Request.shared_interruptible f x g) v = attach_refs v f g.captured
  takes (Request.make_task f) v = option_refs v f.captured
  takes (Request.task_future t) v = task_refs v t
  takes (Request.destroy_task t) v = task_refs v t
  takes (Request.assign_task t u) v = task_refs v t
  takes (Request.run_async x f a) v = option_refs v f.captured
  takes _ v = 0

  abbrev pub giving : {A : Type 0} → (A → Pointers) → Code (Store V) A → Code (Store V) Pointers
  giving g m = m >>= λ a. pure (g a)

  abbrev gives_none : {A : Type 0} → Code (Store V) A → Code (Store V) Pointers
  gives_none m = giving (λ _ v. 0) m

  abbrev gives_future : Code (Store V) (Option ℕ) → Code (Store V) Pointers
  gives_future m = giving (λ f v. option_refs v f) m

  -- `serve`, with the pointers that the caller is given: those of the futures, promises and tasks
  -- that are returned, and of what is left of those that are handed over.
  unfoldable pub answer : Request V → Code (Store V) Pointers
  answer (Request.make_promise f) =
      giving (λ y v. promise_refs v y.0 + pointer v y.1) (Promise.make_promise f)
  answer (Request.make_owning f) = giving (λ r v. promise_refs v r) (Promise.make f)
  answer (Request.set_value r x) = gives_none (Promise.set_value r x)
  answer (Request.set_exception r e) = gives_none (Promise.set_exception r e)
  answer (Request.get_future r) =
      giving (λ y v. pointer v y.0 + promise_refs v y.1) (Promise.get_future r)
  answer (Request.destroy_promise r) = gives_none (Promise.destroy r)
  answer (Request.assign_promise r q) = gives_none (Promise.assign r q)
  answer (Request.is_ready f) = gives_none (Future.is_ready f)
  answer (Request.add_notification f n) = gives_none (Future.add_notification f n)
  answer (Request.add_notification_on f x n) = gives_none (Future.add_notification_on f x n)
  answer (Request.detach f) = gives_none (Future.detach f)
  answer (Request.get f) = gives_none (Future.get f)
  answer (Request.get_shared f) = gives_none (Future.get_shared f)
  answer (Request.copy f) = gives_future (Future.copy f)
  answer (Request.assign_future f g) = gives_none (Future.assign f g)
  answer (Request.copy_assign_future f g) = gives_future (Future.copy_assign f g)
  answer (Request.destroy_future f) = gives_none (Future.destroy f)
  answer (Request.make_ready x) = gives_future (Future.make_ready_future x)
  answer (Request.make_exceptional e) = gives_future (Future.make_exceptional_future e)
  answer (Request.then_ f x g) = gives_future (attach_then f x g)
  answer (Request.next_ f x g) = gives_future (attach_next f x g)
  answer (Request.shared_then f x g) = gives_future (attach_shared_then f x g)
  answer (Request.shared_next f x g) = gives_future (attach_shared_next f x g)
  answer (Request.interruptible f x g) = gives_future (attach_interruptible f x g)
  answer (Request.shared_interruptible f x g) = gives_future (attach_shared_interruptible f x g)
  answer (Request.make_task f) = giving (λ t v. task_refs v t) (PackagedTask.make f)
  answer (Request.call_task t a) = gives_none (PackagedTask.call t a)
  answer (Request.task_future t) =
      giving (λ y v. pointer v y.0 + task_refs v y.1) (PackagedTask.get_future t)
  answer (Request.destroy_task t) = gives_none (PackagedTask.destroy t)
  answer (Request.assign_task t u) = gives_none (PackagedTask.assign t u)
  answer (Request.run_async x f a) = gives_future (PackagedTask.async x f a)
  answer (Request.execute_posted i) = gives_none (run_posted i)
  answer (Request.discard_posted i) = gives_none (drop_posted i)

  -- The functions that are made of several calls, with pointers in hand between them.
  abbrev pub is_whole : Request V → Bool
  is_whole (Request.make_ready x) = true
  is_whole (Request.make_exceptional e) = true
  is_whole (Request.run_async x f a) = true
  is_whole _ = false

  -- What the jobs and calls of any number of threads lead to, if they hand over only pointers that
  -- the client holds. The calls that are under way in the threads that wait stand beside the store.
  -- An exception may leave a call, or a job, and what it unwinds is skipped; no assertion fails. The
  -- client may use other pointers as it likes, also the weak ones.
  pub data Run : Pointers → Store V → List (List (Job V)) → Type 0 where
    begun : Run (λ v. 0) init []
    went_on :
        {h : Pointers} {s t : Store V} {ts : List (List (Job V))}
        → Run h s ts
        → step s ≡ (done tt, t)
        → Run h t ts
    threw :
        {h : Pointers} {s t : Store V} {ts : List (List (Job V))} (e : Error)
        → Run h s ts
        → step s ≡ (thrown e, t)
        → Run h (record t { jobs = unwind t.jobs }) ts
    returned :
        {h : Pointers} {s t : Store V} {ts : List (List (Job V))} (r : Request V)
        (rest given : Pointers)
        → Run h s ts
        → ((v : ℕ) → h v ≡ takes r v + rest v)
        → answer r s ≡ (done given, t)
        → Run (λ v. given v + rest v) t ts
    refused :
        {h : Pointers} {s t : Store V} {ts : List (List (Job V))} (r : Request V) (rest : Pointers)
        (e : Error)
        → Run h s ts
        → ((v : ℕ) → h v ≡ takes r v + rest v)
        → is_whole r ≡ false
        → answer r s ≡ (thrown e, t)
        → Run rest t ts
    forked :
        {h : Pointers} {s : Store V} {ts : List (List (Job V))}
        → Run h s ts
        → Run h (record s { jobs = [] }) (s.jobs ∷ ts)
    switched :
        {h : Pointers} {s : Store V} (before : List (List (Job V))) (js : List (Job V))
        (after : List (List (Job V)))
        → Run h s (before ++ js ∷ after)
        → Run h (record s { jobs = js }) (before ++ s.jobs ∷ after)
