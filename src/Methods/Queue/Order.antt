-- ===== src/Methods/Queue/Order.antt =====
-- What holds in every state that a queue comes to: tasks with a common lock run one after the other,
-- in the order in which they were added.
use indra.Prelude.{
  String, ℕ, ◌<◌, Bool, true, false, ◌≡◌, ◌≢◌, ◌⊎◌, ◌∙◌, ap, refl, subst, inl, inr, Option, none,
  some, if◌then◌else◌, arith, Bool-cases,
}
use indra.Dict.{lookup}
use indra.Methods.Queue.{
  PQueue, IsFifo, ProcessQueue, TaskPromise, unset, pending, settled, is_settled, Event, add_task,
  begin, run, settle, leave, at_lock, without_first, first_at, step, Reach, start, next,
}
use indra.Methods.Queue.Entries.{AtLeast-holds}
use indra.Methods.Queue.Invariant.{some_eq, Locks, IsOrdered, calls_of}
use indra.Methods.Queue.Invariant.Moves.{
  begin-IsOrdered, run-IsOrdered, settle-IsOrdered, leave-IsOrdered,
}
use indra.Methods.Queue.Invariant.Add.{add-IsOrdered}

module _ {Q : Type 0} (p : PQueue Q) where
  -- An event that happens for the first entry of a queue.
  at_first :
      (o : Option String) (f : String → ProcessQueue Q) {s' : ProcessQueue Q}
      → at_lock o f ≡ some s'
      → (name : String) × (o ≡ some name) × (f name ≡ s')
  at_first none f moved = cc
  at_first (some name) f moved = (name, refl, some_eq moved)

  guarded :
      (b : Bool) {s s' : ProcessQueue Q}
      → (if b then some s else none) ≡ some s'
      → (b ≡ true) × (s ≡ s')
  guarded true moved = (refl, some_eq moved)
  guarded false moved = cc

  step-IsOrdered :
      IsFifo p
      → (s s' : ProcessQueue Q) (event : Event) → IsOrdered p s
      → step p s event ≡ some s'
      → IsOrdered p s'
  unfolding step
  step-IsOrdered fifo s s' (add_task names) inv moved =
      subst (IsOrdered p) (some_eq moved) (add-IsOrdered p fifo s names inv)
  step-IsOrdered fifo s s' (begin t i) inv moved =
      let (name, found, same) = at_first (first_at p s t i) _ moved in
      subst (IsOrdered p) same (begin-IsOrdered p s t i name inv found)
  step-IsOrdered fifo s s' (run t) inv moved =
      let (may, same) = guarded _ moved in
      subst (IsOrdered p) same (run-IsOrdered p s t inv (ground arith))
  step-IsOrdered fifo s s' (settle t) inv moved =
      let (may, same) = guarded _ moved in
      subst (IsOrdered p) same (settle-IsOrdered p s t inv (ground arith))
  step-IsOrdered fifo s s' (leave t i) inv moved =
      elim (Bool-cases (is_settled (s.executions t).promise)) [
        | inl done ↦
            let (name, found, same) =
              at_first (first_at p s t i) (without_first p s) (ground arith) in
            subst (IsOrdered p) same (leave-IsOrdered p fifo s t i name inv done found)
        | inr waiting ↦ absurd (ground arith)
      ]

  pub Reach-IsOrdered : IsFifo p → {s : ProcessQueue Q} → Reach p s → IsOrdered p s
  unfolding lookup
  Reach-IsOrdered fifo start = record {
    sorted = λ name. rw (fifo.starts_empty) tt;
    placed = λ name t i held. absurd (ground (arith, fifo.starts_empty));
    waits = λ name t i lt. absurd (omega arith);
    leads = λ name t i lt. absurd (omega arith);
    ready = λ name t i lt. absurd (omega arith);
    counted = λ t. refl;
  }
  Reach-IsOrdered fifo (next event reached moved) =
      step-IsOrdered fifo _ _ event (Reach-IsOrdered fifo reached) moved

  -- Every earlier task with which the task shares a lock has settled.
  abbrev pub ComesAfter : ProcessQueue Q → ℕ → Type 0
  ComesAfter s u =
      (t i j : ℕ) (name : String)
      → t < u
      → Locks p s t i name
      → Locks p s u j name
      → (s.executions t).promise ≡ settled

  -- In every state that the queue of a node comes to, each task that was added either waits and has
  -- not been called, or has been called exactly once, and then every earlier task with which it shares
  -- a lock has settled.
  pub called_in_order :
      IsFifo p
      → {s : ProcessQueue Q} → Reach p s
      → (u : ℕ) → u < s.added
      → (((s.executions u).promise ≡ unset) × ((s.executions u).calls ≡ 0))
        ⊎ (((s.executions u).promise ≢ unset) × ((s.executions u).calls ≡ 1) × ComesAfter s u)
  called_in_order fifo {s} reached u added = by_promise (s.executions u).promise refl
    where
      inv : IsOrdered p s
      inv = Reach-IsOrdered fifo reached

      settled_or :
          (promise : TaskPromise) → (promise ≢ settled → promise ≡ settled) → promise ≡ settled
      settled_or unset other = other (λ same. cc)
      settled_or pending other = other (λ same. cc)
      settled_or settled other = refl

      comes_after : (s.executions u).promise ≢ unset → ComesAfter s u
      comes_after called t i j name earlier locks_t locks_u =
          let least = inv.leads name u j added locks_u (inv.ready name u j added locks_u called) in
          settled_or (s.executions t).promise (λ live. absurd (
            omega
              (arith, AtLeast-holds u t i _ least (inv.waits name t i (omega arith) locks_t live))))

      by_promise :
          (promise : TaskPromise)
          → (s.executions u).promise ≡ promise
          → (((s.executions u).promise ≡ unset) × ((s.executions u).calls ≡ 0))
            ⊎ (((s.executions u).promise ≢ unset) × ((s.executions u).calls ≡ 1) × ComesAfter s u)
      by_promise unset is = inl (is, inv.counted u ∙ ap calls_of is)
      by_promise pending is =
          let called : (s.executions u).promise ≢ unset = λ same. cc in
          inr (called, inv.counted u ∙ ap calls_of is, comes_after called)
      by_promise settled is =
          let called : (s.executions u).promise ≢ unset = λ same. cc in
          inr (called, inv.counted u ∙ ap calls_of is, comes_after called)
