-- ===== src/OnceStack/System.antt =====
-- Any number of threads that push, and one that executes, interleaved in any order.
use portable_concurrency.Prelude.{ℕ, ◌≡◌, ◌++◌, none, List, [], ◌∷◌, update}
use portable_concurrency.OnceStack.{
  Memory, Producer, Consumer, Event, null, idle, accepted, rejected, entered, before, visiting,
  taken, consume, push_step, execute_step, push_event, execute_event, allocate_list_node,
}

pub record System {ℓ} (A : Type ℓ) : Type ℓ where
  pub mem : Memory A
  pub producers : ℕ → Producer A
  pub consumer : Consumer

-- A thread that is in no call may make one.
abbrev pub IsOutside {ℓ} : {A : Type ℓ} → Producer A → Type 0
IsOutside idle = Unit
IsOutside accepted = Unit
IsOutside (rejected _) = Unit
IsOutside _ = ⊥

abbrev pub init {ℓ} : {A : Type ℓ} → System A
init = record {
  mem = record { head = null; cell = λ _. none };
  producers = λ _. idle;
  consumer = before;
}

module _ {ℓ} {A : Type ℓ} where
  abbrev pub begin_push : System A → ℕ → ℕ → A → System A
  begin_push s i n v = record s {
    mem = allocate_list_node s.mem n v;
    producers = update s.producers i (entered n);
  }

  abbrev pub continue_push : System A → ℕ → System A
  continue_push s i = record s {
    mem = (push_step s.mem (s.producers i)).0;
    producers = update s.producers i (push_step s.mem (s.producers i)).1;
  }

  abbrev pub begin_execute : System A → System A
  begin_execute s = record s {
    mem = (consume s.mem).0;
    consumer = visiting (consume s.mem).1 (consume s.mem).1;
  }

  abbrev pub continue_execute : System A → System A
  continue_execute s = record s {
    mem = (execute_step s.mem s.consumer).0;
    consumer = (execute_step s.mem s.consumer).1;
  }

  -- The allocator may hand out any address that is free, also one that was in use before.
  pub data Step (s : System A) : List (Event A) → System A → Type ℓ where
    begins_push :
        (i n : ℕ) (v : A)
        → IsOutside (s.producers i)
        → s.mem.cell n ≡ none
        → Step s [] (begin_push s i n v)
    pushes : (i : ℕ) → Step s (push_event s.mem (s.producers i)) (continue_push s i)
    begins_execute : s.consumer ≡ before → Step s (taken ∷ []) (begin_execute s)
    executes : Step s (execute_event s.mem s.consumer) (continue_execute s)

  pub data Reach : List (Event A) → System A → Type ℓ where
    start : Reach [] init
    next : {es fs : List (Event A)} {s t : System A} → Reach es s → Step s fs t → Reach (fs ++ es) t
