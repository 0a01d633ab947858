-- ===== src/Methods/Queue/Invariant.antt =====
-- What holds in every state of the queues: the order of the entries, and what a task that waits, leads
-- or was called has to do with them.
pub mod Moves
pub mod Add
use indra.Prelude.{
  String, str_eq, eq_iff, ℕ, zero, suc, ◌+◌, ◌≤◌, ◌<◌, ltb, ◌==◌, Bool, true, false, ◌&&◌, ◌||◌,
  ◌≡◌, ◌≢◌, ◌⊎◌, refl, sym, ap, subst, ◌∙◌, inl, inr, Option, none, some, List, [], ◌∷◌, ◌++◌,
  length, get_elem?, if◌then◌else◌, arith, Bool-cases, Option-cases,
}
use indra.Dict.{lookup}
use indra.Methods.Queue.{
  Entry, PQueue, IsFifo, ProcessQueue, Execution, TaskPromise, unset, pending, settled, is_pending,
  is_settled, is_first, behind_first, all_resolved, run_task_with_memoization, resolve, Event,
  add_task, begin, run, settle, leave, queue_of, create_queues, add_to_queues, add_to_many_queues,
  new_execution, entries, at_lock, with_execution, without_first, update, first_in, first_at, step,
  empty, Reach, start, next,
}
use indra.Methods.Queue.Entries.{
  holds, AtLeast, Sorted, places, holds-append, AtLeast-holds, is_first-AtLeast,
  behind_first-Sorted, behind_first-AtLeast, holds-behind_first, behind_first-holds, holds-places,
  places-holds, AtLeast-places, Sorted-places, queue_of-set, queue_of-create_queues,
  unsettled-add_to_queues,
}

pub ==→eq : (a b : ℕ) → (a == b) ≡ true → a ≡ b
==→eq a b same = ground arith

pub some_eq {ℓ} : {A : Type ℓ} {a b : A} → some a ≡ some b → a ≡ b
some_eq same = cc

if-some :
    (b : Bool) {n name : String}
    → (if b then some n else none) ≡ some name
    → (b ≡ true) × (n ≡ name)
if-some true found = (refl, cc)
if-some false found = cc

pub Locks-lt :
    (names : List String) (i : ℕ) {name : String} → get_elem? names i ≡ some name → i < length names
Locks-lt [] i at = cc
Locks-lt (n ∷ ns) zero at = omega arith
Locks-lt (n ∷ ns) (suc i) at = omega (arith, Locks-lt ns i at)

-- A deferred below the number that `Promise.all` waits for.
pub all_resolved-at :
    (resolved : ℕ → Bool) (n i : ℕ) → all_resolved resolved n ≡ true → i < n → resolved i ≡ true
all_resolved-at resolved zero i all lt = absurd (omega arith)
all_resolved-at resolved (suc n) i all lt = elim (Bool-cases (i == n)) [
  | inl same ↦ subst (λ k. resolved k ≡ true) (sym (==→eq i n same)) (ground arith)
  | inr other ↦ all_resolved-at resolved n i (ground arith) (ground arith)
]

-- How often a task has been called when its promise is such.
abbrev pub calls_of : TaskPromise → ℕ
calls_of unset = 0
calls_of pending = 1
calls_of settled = 1

module _ {Q : Type 0} (p : PQueue Q) where
  -- The lock of a task with a given number.
  abbrev pub Locks : ProcessQueue Q → ℕ → ℕ → String → Type 0
  Locks s t i name = get_elem? (s.executions t).lock_names i ≡ some name

  pub record IsOrdered (s : ProcessQueue Q) : Type 0 where
    -- The entries of a queue stand in the order of their tasks, and belong there.
    pub sorted : (name : String) → Sorted (entries p s name)
    pub placed :
        (name : String) (t i : ℕ)
        → holds t i (entries p s name) ≡ true
        → (t < s.added) × Locks s t i name
    -- Until its promise has settled a task is in all of its queues.
    pub waits :
        (name : String) (t i : ℕ)
        → t < s.added
        → Locks s t i name
        → (s.executions t).promise ≢ settled
        → holds t i (entries p s name) ≡ true
    -- No earlier task is in the queue of a resolved deferred, and a task that was called has resolved
    -- them all.
    pub leads :
        (name : String) (t i : ℕ)
        → t < s.added
        → Locks s t i name
        → (s.executions t).resolved i ≡ true
        → AtLeast t (entries p s name)
    pub ready :
        (name : String) (t i : ℕ)
        → t < s.added
        → Locks s t i name
        → (s.executions t).promise ≢ unset
        → (s.executions t).resolved i ≡ true
    -- The memoized task is called once: when its promise is set.
    pub counted : (t : ℕ) → (s.executions t).calls ≡ calls_of (s.executions t).promise

  first_in-some :
      (s : ProcessQueue Q) (t i : ℕ) (o : Option String) {name : String}
      → get_elem? (s.executions t).lock_names i ≡ o
      → first_in p s t i o ≡ some name
      → (t < s.added) × Locks s t i name × (is_first t i (entries p s name) ≡ true)
  first_in-some s t i none at found = cc
  first_in-some s t i (some n) at found =
      let (passed, same) = if-some (ltb t s.added && is_first t i (entries p s n)) found in
      (
        ground arith,
        at ∙ ap some same,
        subst (λ m. is_first t i (entries p s m) ≡ true) same (ground arith),
      )

  pub first_at-some :
      (s : ProcessQueue Q) (t i : ℕ) {name : String}
      → first_at p s t i ≡ some name
      → (t < s.added) × Locks s t i name × (is_first t i (entries p s name) ≡ true)
  unfolding first_at
  first_at-some s t i found =
      first_in-some s t i (get_elem? (s.executions t).lock_names i) refl found

  -- What holds of a new execution and of the others holds of all.
  pub at_new :
      (executions : ℕ → Execution) (t : ℕ) (x : Execution) (P : Execution → Type 0) (u : ℕ)
      → (u ≡ t → P x)
      → (u ≢ t → P (executions u))
      → P (update executions t x u)
  at_new executions t x P u changed other = elim (Bool-cases (u == t)) [
    | inl same ↦ rw same (changed (ground arith))
    | inr different ↦ rw different (other (λ same. ground arith))
  ]

  pub at_update :
      (executions : ℕ → Execution) (t : ℕ) (x : Execution) (P : Execution → Type 0) (u : ℕ)
      → (u ≡ t → P x)
      → P (executions u)
      → P (update executions t x u)
  at_update executions t x P u changed other = at_new executions t x P u changed (λ _. other)

  -- A change of one execution that keeps its locks.
  pub with_execution-IsOrdered :
      (s : ProcessQueue Q) (t : ℕ) (x : Execution)
      → IsOrdered s
      → x.lock_names ≡ (s.executions t).lock_names
      → (x.promise ≢ settled → (s.executions t).promise ≢ settled)
      → ((name : String) (i : ℕ)
          → t < s.added
          → Locks s t i name
          → x.resolved i ≡ true
          → AtLeast t (entries p s name))
      → ((name : String) (i : ℕ)
          → t < s.added
          → Locks s t i name
          → x.promise ≢ unset
          → x.resolved i ≡ true)
      → x.calls ≡ calls_of x.promise
      → IsOrdered (with_execution p s t x)
  with_execution-IsOrdered s t x inv same live led all once = record {
    sorted = inv.sorted;
    placed = λ name u i held.
        let (below, locks) = inv.placed name u i held in
        (
          below,
          at_update s.executions t x (λ y. get_elem? y.lock_names i ≡ some name) u
              (λ at. at_x at i locks) locks,
        );
    waits = λ name u i below.
        at_update s.executions t x
          (λ y.
            get_elem? y.lock_names i ≡ some name
            → y.promise ≢ settled
            → holds u i (entries p s name) ≡ true)
          u
          (λ at locks unsettled.
            inv.waits name u i below (at_t at i locks)
              (subst (λ v. (s.executions v).promise ≢ settled) (sym at) (live unsettled)))
          (inv.waits name u i below);
    leads = λ name u i below.
        at_update s.executions t x
          (λ y.
            get_elem? y.lock_names i ≡ some name
            → y.resolved i ≡ true
            → AtLeast u (entries p s name))
          u
          (λ at locks resolved.
            subst (λ v. AtLeast v (entries p s name)) (sym at)
              (led name i (subst (λ v. v < s.added) at below)
                (ap (λ ns. get_elem? ns i) (sym same) ∙ locks) resolved))
          (inv.leads name u i below);
    ready = λ name u i below.
        at_update s.executions t x
          (λ y. get_elem? y.lock_names i ≡ some name → y.promise ≢ unset → y.resolved i ≡ true) u
          (λ at locks called.
            all name i (subst (λ v. v < s.added) at below)
              (ap (λ ns. get_elem? ns i) (sym same) ∙ locks) called)
          (inv.ready name u i below);
    counted = λ u.
        at_update s.executions t x (λ y. y.calls ≡ calls_of y.promise) u (λ at. once)
          (inv.counted u);
  }
    where
      at_x :
          {u : ℕ}
          → u ≡ t
          → (i : ℕ) {name : String} → Locks s u i name
          → get_elem? x.lock_names i ≡ some name
      at_x at i {name} locks =
          ap (λ ns. get_elem? ns i) same ∙ subst (λ v. Locks s v i name) at locks

      at_t :
          {u : ℕ}
          → u ≡ t
          → (i : ℕ) {name : String} → get_elem? x.lock_names i ≡ some name
          → Locks s u i name
      at_t at i {name} locks =
          subst (λ v. Locks s v i name) (sym at) (ap (λ ns. get_elem? ns i) (sym same) ∙ locks)
