-- ===== src/Methods/Queue.antt =====
-- modules/cf-core/src/process-queue.ts and methods/queued-execution.ts: a task is put into the queue
-- of each of its locks, and runs when it has come to the front of all of them. The package p-queue is
-- a parameter; the node has no locking service. Where there is one, and it gives every lock that it is
-- asked for in the end, an entry only begins later, which is among the orders of the events here; a
-- lock that it refuses is not modelled.
pub mod Entries
pub mod Invariant
pub mod Order
pub mod Progress
use indra.Prelude.{
  String, ℕ, zero, suc, ◌+◌, ltb, ◌==◌, Bool, true, false, not, ◌&&◌, Option, none, some, List, [],
  ◌∷◌, ◌++◌, length, get_elem?, or_else, if◌then◌else◌, ◌≡◌,
}
use indra.Dict.{Dict, lookup, has, set}

-- A task stands in a queue once for each of its locks: its number, and the number of the lock.
abbrev pub Entry : Type 0
Entry = ℕ × ℕ

-- What the package p-queue offers for a queue with `concurrency: 1`: the entries whose promise has
-- not settled yet, in the order of `add`, of which the first one is executed.
pub record PQueue (Q : Type 0) : Type 0 where
  pub create : Q
  pub add : Q → Entry → Q
  pub first_settles : Q → Q
  pub unsettled : Q → List Entry

abbrev pub behind_first : List Entry → List Entry
behind_first [] = []
behind_first (x ∷ xs) = xs

-- The documented behaviour of such a queue.
pub record IsFifo {Q : Type 0} (p : PQueue Q) : Type 0 where
  pub starts_empty : p.unsettled p.create ≡ []
  pub adds_last : (q : Q) (x : Entry) → p.unsettled (p.add q x) ≡ p.unsettled q ++ (x ∷ [])
  pub drops_first : (q : Q) → p.unsettled (p.first_settles q) ≡ behind_first (p.unsettled q)

-- The promise of the task that `addToManyQueues` keeps.
pub data TaskPromise : Type 0 where
  unset : TaskPromise
  pending : TaskPromise
  settled : TaskPromise

-- One call of `addToManyQueues`: which of its deferreds are resolved, its promise, and how often it
-- has called the task.
pub record Execution : Type 0 where
  pub lock_names : List String
  pub resolved : ℕ → Bool
  pub promise : TaskPromise
  pub calls : ℕ

pub record ProcessQueue (Q : Type 0) : Type 0 where
  pub queues : Dict Q
  pub added : ℕ
  pub executions : ℕ → Execution

-- What can happen: a task is added, an entry is executed up to its wait for the others, the wait is
-- over, the promise of a task settles, and with it the entry in one of the queues.
pub data Event : Type 0 where
  add_task : (lock_names : List String) → Event
  begin : (t i : ℕ) → Event
  run : (t : ℕ) → Event
  settle : (t : ℕ) → Event
  leave : (t i : ℕ) → Event

-- The task is the async function that `createExecutionPromise` of controller.ts makes, so once it has
-- been called there is a promise, also when it throws.
abbrev pub run_task_with_memoization : Execution → Execution
run_task_with_memoization x = elim x.promise [
  | unset ↦ record x { promise = pending; calls = x.calls + 1 }
  | pending ↦ x
  | settled ↦ x
]

abbrev pub is_settled : TaskPromise → Bool
is_settled unset = false
is_settled pending = false
is_settled settled = true

abbrev pub is_pending : TaskPromise → Bool
is_pending unset = false
is_pending pending = true
is_pending settled = false

-- `Promise.all(deferreds)`, of the first `n`.
abbrev pub all_resolved : (ℕ → Bool) → ℕ → Bool
all_resolved resolved zero = true
all_resolved resolved (suc n) = resolved n && all_resolved resolved n

abbrev pub is_first : ℕ → ℕ → List Entry → Bool
is_first t i [] = false
is_first t i ((u, k) ∷ xs) = u == t && k == i

abbrev pub update : (ℕ → Execution) → ℕ → Execution → ℕ → Execution
update executions t x u = if u == t then x else executions u

abbrev pub resolve : Execution → ℕ → Execution
resolve x i = record x { resolved = λ k. if k == i then true else x.resolved k }

abbrev pub at_lock : {A : Type 0} → Option String → (String → A) → Option A
at_lock none f = none
at_lock (some name) f = some (f name)

module _ {Q : Type 0} (p : PQueue Q) where
  abbrev pub queue_of : String → Dict Q → Q
  queue_of name queues = or_else (lookup name queues) p.create

  unfoldable pub get_or_create_lock_queue : Dict Q → String → Dict Q
  get_or_create_lock_queue queues name =
      if has name queues then queues else set name p.create queues

  unfoldable pub create_queues : Dict Q → List String → Dict Q
  unfolding get_or_create_lock_queue
  create_queues queues [] = queues
  create_queues queues (name ∷ names) = create_queues (get_or_create_lock_queue queues name) names

  -- `queues.map((q, i) => q.add(...))`
  unfoldable pub add_to_queues : ℕ → ℕ → List String → Dict Q → Dict Q
  add_to_queues t i [] queues = queues
  add_to_queues t i (name ∷ names) queues =
      add_to_queues t (suc i) names (set name (p.add (queue_of name queues) (t, i)) queues)

  -- With no queue the task is called at once.
  abbrev pub new_execution : List String → Execution
  new_execution [] = record { lock_names = []; resolved = λ _. false; promise = pending; calls = 1 }
  new_execution (name ∷ names) = record {
    lock_names = name ∷ names;
    resolved = λ _. false;
    promise = unset;
    calls = 0;
  }

  unfoldable pub add_to_many_queues : ProcessQueue Q → List String → ProcessQueue Q
  unfolding create_queues add_to_queues
  add_to_many_queues s names = record {
    queues = add_to_queues s.added 0 names (create_queues s.queues names);
    added = s.added + 1;
    executions = update s.executions s.added (new_execution names);
  }

  abbrev pub entries : ProcessQueue Q → String → List Entry
  entries s name = p.unsettled (queue_of name s.queues)

  abbrev pub with_execution : ProcessQueue Q → ℕ → Execution → ProcessQueue Q
  with_execution s t x = record s { executions = update s.executions t x }

  -- The queue of a lock when its first entry has settled.
  abbrev pub without_first : ProcessQueue Q → String → ProcessQueue Q
  without_first s name = record s {
    queues = set name (p.first_settles (queue_of name s.queues)) s.queues;
  }

  -- The lock of a number, if the entry is the first in its queue.
  abbrev pub first_in : ProcessQueue Q → ℕ → ℕ → Option String → Option String
  first_in s t i none = none
  first_in s t i (some name) =
      if ltb t s.added && is_first t i (entries s name) then some name else none

  unfoldable pub first_at : ProcessQueue Q → ℕ → ℕ → Option String
  first_at s t i = first_in s t i (get_elem? (s.executions t).lock_names i)

  -- An event, where it can happen.
  unfoldable pub step : ProcessQueue Q → Event → Option (ProcessQueue Q)
  unfolding add_to_many_queues first_at
  step s (add_task names) = some (add_to_many_queues s names)
  step s (begin t i) =
      at_lock (first_at s t i) (λ name. with_execution s t (resolve (s.executions t) i))
  step s (run t) =
      if ltb t s.added
        && all_resolved (s.executions t).resolved (length (s.executions t).lock_names)
      then some (with_execution s t (run_task_with_memoization (s.executions t)))
      else none
  step s (settle t) =
      if ltb t s.added && is_pending (s.executions t).promise
      then some (with_execution s t (record (s.executions t) { promise = settled }))
      else none
  step s (leave t i) =
      if is_settled (s.executions t).promise
      then at_lock (first_at s t i) (λ name. without_first s name)
      else none

  -- `new ProcessQueue()`
  abbrev pub empty : ProcessQueue Q
  empty = record { queues = []; added = 0; executions = λ _. new_execution [] }

  -- The states that a queue comes to.
  pub data Reach : ProcessQueue Q → Type 0 where
    start : Reach empty
    next : {s s' : ProcessQueue Q} (event : Event) → Reach s → step s event ≡ some s' → Reach s'
