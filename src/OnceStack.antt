-- ===== src/OnceStack.antt =====
-- bits/once_consumable_stack.h, bits/once_consumable_stack.hpp and bits/continuations_stack.h with
-- its members in bits/portable_concurrency.cpp: the lock-free stack, an atomic access at a time.
pub mod System
pub mod Spec
pub mod Invariant
pub mod Refinement
pub mod Progress
mod Tests
use portable_concurrency.Prelude.{
  ℕ, Bool, true, false, Option, none, some, List, [], ◌∷◌, ◌==◌, if◌then◌else◌, update,
}

-- A pointer to `forward_list_node`. `marker` is the address of the stack object itself, which
-- `consumed_marker` returns and which no node has.
pub data Ptr : Type 0 where
  null marker : Ptr
  node : ℕ → Ptr

abbrev pub ptr_eq : Ptr → Ptr → Bool
ptr_eq null null = true
ptr_eq marker marker = true
ptr_eq (node m) (node n) = m == n
ptr_eq _ _ = false

pub record Node {ℓ} (A : Type ℓ) : Type ℓ where
  pub val : A
  pub next : Ptr

-- The atomic `head_`, and the nodes that are allocated.
pub record Memory {ℓ} (A : Type ℓ) : Type ℓ where
  pub head : Ptr
  pub cell : ℕ → Option (Node A)

-- Where a call of `push` stands, with its node. `accepted` and `rejected` are the two returns; the
-- second has the value that was moved back into the argument.
pub data Producer {ℓ} (A : Type ℓ) : Type ℓ where
  idle : Producer A
  entered : ℕ → Producer A  -- the node is allocated, before `head_.load`
  trying : ℕ → Producer A  -- before `compare_exchange_strong`
  lost : ℕ → Producer A  -- the exchange failed, before the test of `node->next`
  refused : ℕ → Producer A  -- `push(node)` has returned false
  accepted : Producer A
  rejected : A → Producer A

-- Where `execute` stands: it takes the list, calls each item from the first node on, and then the
-- list's destructor frees the nodes.
pub data Consumer : Type 0 where
  before : Consumer
  visiting : (first current : Ptr) → Consumer
  freeing : Ptr → Consumer

-- What a step shows to the outside: an item goes into the stack, the list is taken, the consumer
-- calls an item, or a refused `push` calls its item in place.
pub data Event {ℓ} (A : Type ℓ) : Type ℓ where
  pushed : A → Event A
  taken : Event A
  called : A → Event A
  called_in_place : A → Event A

module _ {ℓ} {A : Type ℓ} where
  abbrev pub next_at : Memory A → ℕ → Ptr
  next_at m n = elim (m.cell n) [ none ↦ null | some c ↦ c.next ]

  abbrev pub with_next : Option (Node A) → Ptr → Option (Node A)
  with_next none p = none
  with_next (some c) p = some (record c { next = p })

  abbrev pub set_next : Memory A → ℕ → Ptr → Memory A
  set_next m n p = record m { cell = update m.cell n (with_next (m.cell n) p) }

  abbrev pub free : Memory A → ℕ → Memory A
  free m n = record m { cell = update m.cell n none }

  -- `allocate_list_node`, where the allocator returns the address `n`.
  abbrev pub allocate_list_node : Memory A → ℕ → A → Memory A
  allocate_list_node m n v = record m {
    cell = update m.cell n (some (record { val = v; next = null }));
  }

  pub is_consumed : Memory A → Bool
  is_consumed m = ptr_eq m.head marker

  -- `curr_head == consumed_marker()` after the first load.
  pub first_load : Memory A → ℕ → Memory A × Producer A
  first_load m n = if ptr_eq m.head marker then (m, refused n) else (set_next m n m.head, trying n)

  -- `compare_exchange_strong(node->next, node.get())`: on failure it stores the head it has seen
  -- into `node->next`.
  pub exchange : Memory A → ℕ → Memory A × Producer A
  exchange m n =
      if ptr_eq m.head (next_at m n)
      then (record m { head = node n }, accepted)
      else (set_next m n m.head, lost n)

  pub after_lost : Memory A → ℕ → Memory A × Producer A
  after_lost m n =
      if ptr_eq (next_at m n) marker then (set_next m n null, refused n) else (m, trying n)

  -- `val = std::move(node->val); return false;` and the node's destructor.
  pub give_back : Memory A → ℕ → Memory A × Producer A
  give_back m n = elim (m.cell n) [ none ↦ (m, refused n) | some c ↦ (free m n, rejected c.val) ]

  -- One step of a running `push`.
  pub push_step : Memory A → Producer A → Memory A × Producer A
  unfolding first_load exchange after_lost give_back
  push_step m idle = (m, idle)
  push_step m (entered n) = first_load m n
  push_step m (trying n) = exchange m n
  push_step m (lost n) = after_lost m n
  push_step m (refused n) = give_back m n
  push_step m accepted = (m, accepted)
  push_step m (rejected v) = (m, rejected v)

  -- `consume`: the exchange, then null in place of the marker.
  pub consume : Memory A → Memory A × Ptr
  consume m = (record m { head = marker }, if ptr_eq m.head marker then null else m.head)

  -- `forward_list_iterator`: from the node `n` on to the next one; past the last one the loop of
  -- `execute` ends, and its list is destroyed.
  pub visit_step : Memory A → Ptr → Ptr → Consumer
  visit_step m first (node n) = visiting first (next_at m n)
  visit_step m first _ = freeing first

  -- `forward_list_deleter`: reads the next pointer, then deallocates the node.
  pub delete_step : Memory A → Ptr → Memory A × Consumer
  delete_step m (node n) = (free m n, freeing (next_at m n))
  delete_step m p = (m, freeing p)

  -- A step of `execute` after `consume`.
  pub execute_step : Memory A → Consumer → Memory A × Consumer
  unfolding visit_step delete_step
  execute_step m before = (m, before)
  execute_step m (visiting first p) = (m, visit_step m first p)
  execute_step m (freeing p) = delete_step m p

  -- What those steps show.
  pub push_event : Memory A → Producer A → List (Event A)
  push_event m (trying n) = elim (m.cell n) [
    | none ↦ []
    | some c ↦ if ptr_eq m.head c.next then pushed c.val ∷ [] else []
  ]
  push_event m (refused n) = elim (m.cell n) [ none ↦ [] | some c ↦ called_in_place c.val ∷ [] ]
  push_event m _ = []

  pub execute_event : Memory A → Consumer → List (Event A)
  execute_event m (visiting first (node n)) = elim (m.cell n) [
    | none ↦ []
    | some c ↦ called c.val ∷ []
  ]
  execute_event m _ = []
