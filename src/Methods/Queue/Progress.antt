-- ===== src/Methods/Queue/Progress.antt =====
-- No deadlock: while a task stands in a queue, something other than a new task can happen.
use indra.Prelude.{
  String, ℕ, zero, suc, ◌≤◌, ◌<◌, ltb, ◌==◌, true, false, ◌&&◌, ◌≡◌, ◌≢◌, ◌⊎◌, refl, sym, eq_refl,
  ◌+◌, ap, subst, ◌∙◌, inl, inr, some, List, [], ◌∷◌, length, get_elem?, arith, Bool-cases,
}
use indra.Methods.Queue.{
  Entry, PQueue, IsFifo, Execution, behind_first, ProcessQueue, TaskPromise, unset, pending,
  settled, is_first, all_resolved, Event, add_task, begin, run, settle, leave, entries, first_in,
  first_at, step, at_lock, with_execution, without_first, run_task_with_memoization, resolve, Reach,
}
use indra.Methods.Queue.Entries.{holds, Sorted, AtLeast-holds}
use indra.Methods.Queue.Invariant.{Locks, IsOrdered, ==→eq, at_new}
use indra.Methods.Queue.Invariant.Moves.{entries-without_first}
use indra.Methods.Queue.Order.{Reach-IsOrdered}

-- The first entry of a queue belongs to no later task than any other.
first_of_queue :
    (u k : ℕ) (xs : List Entry)
    → holds u k xs ≡ true
    → Sorted xs
    → (v : ℕ) × (l : ℕ) × (is_first v l xs ≡ true) × (holds v l xs ≡ true) × (v ≤ u)
first_of_queue u k [] held sorted = cc
first_of_queue u k ((v, l) ∷ xs) held sorted =
    (v, l, ground arith, ground arith, no_later (holds-or v l u k xs held))
  where
    holds-or :
        (v l u k : ℕ) (xs : List Entry)
        → holds u k ((v, l) ∷ xs) ≡ true
        → (v ≡ u) ⊎ (holds u k xs ≡ true)
    holds-or v l u k xs held = elim (Bool-cases (v == u)) [
      | inl same ↦ inl (ground arith)
      | inr different ↦ inr (ground arith)
    ]

    no_later : (v ≡ u) ⊎ (holds u k xs ≡ true) → v ≤ u
    no_later (inl same) = omega arith
    no_later (inr there) = AtLeast-holds v u k xs sorted.0 there

is_first-behind :
    (t i : ℕ) (xs : List Entry) → is_first t i xs ≡ true → xs ≡ (t, i) ∷ behind_first xs
is_first-behind t i [] first = cc
is_first-behind t i ((u, k) ∷ xs) first =
    let task : u ≡ t = ground arith in let number : k ≡ i = ground arith in rw (task, number) refl

module _ {Q : Type 0} (p : PQueue Q) where
  -- An event that brings a task on: the state after it is one step further. A deferred that was open
  -- is resolved, a task is called for the first time, a promise settles, or a queue loses its first
  -- entry.
  abbrev pub Advances : ProcessQueue Q → Event → ProcessQueue Q → Type 0
  Advances s (add_task names) s' = ⊥
  Advances s (begin t i) s' =
      ((s.executions t).resolved i ≡ false) × ((s'.executions t).resolved i ≡ true)
  Advances s (run t) s' =
      ((s.executions t).promise ≡ unset)
      × ((s'.executions t).promise ≡ pending)
      × ((s'.executions t).calls ≡ (s.executions t).calls + 1)
  Advances s (settle t) s' =
      ((s.executions t).promise ≡ pending) × ((s'.executions t).promise ≡ settled)
  Advances s (leave t i) s' =
      ((s.executions t).promise ≡ settled)
      × ((name : String) × Locks p s t i name × (entries p s name ≡ (t, i) ∷ entries p s' name))

  abbrev pub CanAdvance : ProcessQueue Q → Type 0
  CanAdvance s =
      (event : Event) × (s' : ProcessQueue Q) × (step p s event ≡ some s') × Advances s event s'

  execution_of :
      (s : ProcessQueue Q) (t : ℕ) (x : Execution) → (with_execution p s t x).executions t ≡ x
  execution_of s t x =
      at_new p s.executions t x (λ y. y ≡ x) t (λ _. refl) (λ other. absurd (other refl))

  -- No task asks for a lock twice.
  abbrev pub AreDistinct : ProcessQueue Q → Type 0
  AreDistinct s =
      (t i j : ℕ) (name : String) → t < s.added → Locks p s t i name → Locks p s t j name → i ≡ j

  first_at-of :
      (s : ProcessQueue Q) (t i : ℕ) (name : String)
      → t < s.added
      → Locks p s t i name
      → is_first t i (entries p s name) ≡ true
      → first_at p s t i ≡ some name
  unfolding first_at
  first_at-of s t i name lt at first = ap (first_in p s t i) at ∙ passes (ground arith)
    where
      passes :
          (ltb t s.added && is_first t i (entries p s name)) ≡ true
          → first_in p s t i (some name) ≡ some name
      passes may = rw may refl

  module _ (fifo : IsFifo p) (s : ProcessQueue Q) (inv : IsOrdered p s)
      (distinct : AreDistinct s) where
    can_leave :
        (t i : ℕ) (name : String)
        → t < s.added
        → Locks p s t i name
        → is_first t i (entries p s name) ≡ true
        → (s.executions t).promise ≡ settled
        → CanAdvance s
    unfolding step
    can_leave t i name lt at first done = (
      leave t i,
      without_first p s name,
      rw done (ap (λ o. at_lock o (without_first p s)) (first_at-of s t i name lt at first)),
      (
        done,
        (
          name,
          at,
          is_first-behind t i (entries p s name) first
              ∙ ap (λ xs. (t, i) ∷ xs)
                  (sym (entries-without_first p fifo s name name ∙ rw (eq_refl name) refl)),
        ),
      ),
    )

    can_begin :
        (t i : ℕ) (name : String)
        → t < s.added
        → Locks p s t i name
        → is_first t i (entries p s name) ≡ true
        → (s.executions t).resolved i ≡ false
        → CanAdvance s
    unfolding step
    can_begin t i name lt at first open_yet = (
      begin t i,
      with_execution p s t (resolve (s.executions t) i),
      ap (λ o. at_lock o (λ _. with_execution p s t (resolve (s.executions t) i)))
          (first_at-of s t i name lt at first),
      (
        open_yet,
        ap (λ y. y.resolved i) (execution_of s t (resolve (s.executions t) i)) ∙ ground arith,
      ),
    )

    can_go_on :
        (t : ℕ)
        → t < s.added
        → all_resolved (s.executions t).resolved (length (s.executions t).lock_names) ≡ true
        → (s.executions t).promise ≢ settled
        → CanAdvance s
    unfolding step
    can_go_on t lt all live = by_promise (s.executions t).promise refl
      where
        by_promise : (promise : TaskPromise) → (s.executions t).promise ≡ promise → CanAdvance s
        by_promise unset is = (
          run t,
          with_execution p s t (run_task_with_memoization (s.executions t)),
          ground arith,
          (
            is,
            ap (λ y. y.promise) (execution_of s t (run_task_with_memoization (s.executions t)))
                ∙ ground arith,
            ap (λ y. y.calls) (execution_of s t (run_task_with_memoization (s.executions t)))
                ∙ ground arith,
          ),
        )
        by_promise pending is = (
          settle t,
          with_execution p s t (record (s.executions t) { promise = settled }),
          ground arith,
          (
            is,
            ap (λ y. y.promise) (execution_of s t (record (s.executions t) { promise = settled })),
          ),
        )
        by_promise settled is = absurd (live is)

    -- The first entry of a queue in which a task stands: of this task, or of an earlier one.
    first_entry :
        (name : String) (u k : ℕ)
        → holds u k (entries p s name) ≡ true
        → ((is_first u k (entries p s name) ≡ true))
          ⊎ ((v : ℕ) × (l : ℕ) × (v < u) × (holds v l (entries p s name) ≡ true))
    first_entry name u k held =
        let (v, l, first, there, le) =
          first_of_queue u k (entries p s name) held (inv.sorted name) in
        elim (Bool-cases (v == u)) [
          | inl same ↦
              let here = ==→eq v u same in
              let (lt, at) = inv.placed name u k held in
              let number : l ≡ k =
                distinct u l k name lt
                  (subst (λ w. Locks p s w l name) here (inv.placed name v l there).1) at in
              inl (
                subst (λ w. is_first w k (entries p s name) ≡ true) here
                  (subst (λ j. is_first v j (entries p s name) ≡ true) number first))
          | inr different ↦ inr (v, l, ground arith, there)
        ]

    -- The deferreds of a waiting task, one after the other.
    scan :
        (u : ℕ)
        → u < s.added
        → (s.executions u).promise ≢ settled
        → ((v l : ℕ) (name : String) → v < u → holds v l (entries p s name) ≡ true → CanAdvance s)
        → (n : ℕ) → n ≤ length (s.executions u).lock_names
        → CanAdvance s ⊎ (all_resolved (s.executions u).resolved n ≡ true)
    scan u lt live earlier zero le = inr refl
    scan u lt live earlier (suc n) le = elim (Bool-cases ((s.executions u).resolved n)) [
      | inl resolved ↦ elim (scan u lt live earlier n (omega arith)) [
        | inl can ↦ inl can
        | inr rest ↦ inr (ground arith)
      ]
      | inr open_yet ↦
          let (name, at) = lock_at (s.executions u).lock_names n le in
          inl (elim (first_entry name u n (inv.waits name u n lt at live)) [
            | inl first ↦ can_begin u n name lt at first open_yet
            | inr (v, l, before, there) ↦ earlier v l name before there
          ])
    ]
      where
        lock_at :
            (names : List String) (i : ℕ)
            → suc i ≤ length names
            → (name : String) × (get_elem? names i ≡ some name)
        lock_at [] i le = absurd (omega arith)
        lock_at (name ∷ names) zero le = (name, refl)
        lock_at (name ∷ names) (suc i) le = lock_at names i (omega arith)

    some_can :
        (n u k : ℕ) (name : String) → u < n → holds u k (entries p s name) ≡ true → CanAdvance s
    some_can zero u k name lt held = absurd (omega arith)
    some_can (suc n) u k name lt held = elim (first_entry name u k held) [
      | inr (v, l, before, there) ↦ some_can n v l name (omega arith) there
      | inl first ↦ elim (is_settled-or (s.executions u).promise) [
        | inl done ↦
            let (added, at) = inv.placed name u k held in can_leave u k name added at first done
        | inr live ↦
            let (added, at) = inv.placed name u k held in
            elim (scan u added live (λ v l m before there. some_can n v l m (omega arith) there) _
              (omega arith)) [ inl can ↦ can | inr all ↦ can_go_on u added all live ]
      ]
    ]
      where
        is_settled-or : (promise : TaskPromise) → (promise ≡ settled) ⊎ (promise ≢ settled)
        is_settled-or unset = inr (λ same. cc)
        is_settled-or pending = inr (λ same. cc)
        is_settled-or settled = inl refl

  -- In every state that the queue of a node comes to, if no task has asked for a lock twice and some
  -- task stands in a queue, then an event can happen after which a task is further than before: an
  -- open deferred is resolved, a task that waited has been called, a pending promise has settled, or
  -- the first entry of a queue, of a settled task, has left it.
  pub no_deadlock :
      IsFifo p
      → {s : ProcessQueue Q} → Reach p s
      → AreDistinct s
      → (name : String) (t i : ℕ) → holds t i (entries p s name) ≡ true
      → CanAdvance s
  no_deadlock fifo {s} reached distinct name t i held =
      some_can fifo s (Reach-IsOrdered p fifo reached) distinct (suc t) t i name (omega arith) held
