-- ===== src/Methods/Queue/Invariant/Moves.antt =====
-- The events of a task keep the invariant.
use indra.Prelude.{
  String, str_eq, eq_iff, ℕ, ◌<◌, ◌==◌, true, ◌≡◌, refl, sym, ap, subst, ◌∙◌, inl, inr, some, List,
  length, if◌then◌else◌, arith, Bool-cases,
}
use indra.Methods.Queue.{
  Entry, PQueue, IsFifo, ProcessQueue, settled, is_pending, is_settled, is_first, behind_first,
  all_resolved, run_task_with_memoization, resolve, queue_of, entries, with_execution,
  without_first, first_at,
}
use indra.Methods.Queue.Entries.{
  holds, AtLeast, Sorted, is_first-AtLeast, behind_first-Sorted, behind_first-AtLeast,
  holds-behind_first, behind_first-holds, queue_of-set,
}
use indra.Methods.Queue.Invariant.{
  some_eq, ==→eq, Locks, Locks-lt, IsOrdered, first_at-some, all_resolved-at,
  with_execution-IsOrdered,
}

module _ {Q : Type 0} (p : PQueue Q) where
  pub begin-IsOrdered :
      (s : ProcessQueue Q) (t i : ℕ) (name : String)
      → IsOrdered p s
      → first_at p s t i ≡ some name
      → IsOrdered p (with_execution p s t (resolve (s.executions t) i))
  begin-IsOrdered s t i name inv found =
      let (below, locks, first) = first_at-some p s t i found in
      with_execution-IsOrdered p s t (resolve (s.executions t) i) inv refl (λ live. live)
        (λ other k lt at resolved. elim (Bool-cases (k == i)) [
          | inl same ↦
              let here : k ≡ i = ==→eq k i same in
              let name_here : name ≡ other =
                some_eq (sym locks ∙ subst (λ j. Locks p s t j other) here at) in
              subst (λ m. AtLeast t (entries p s m)) name_here
                (is_first-AtLeast t i (entries p s name) first (inv.sorted name))
          | inr different ↦ inv.leads other t k lt at (ground arith)
        ])
        (λ other k lt at called. elim (Bool-cases (k == i)) [
          | inl same ↦ ground arith
          | inr different ↦ rw different (inv.ready other t k lt at called)
        ])
        (inv.counted t)

  pub run-IsOrdered :
      (s : ProcessQueue Q) (t : ℕ)
      → IsOrdered p s
      → all_resolved (s.executions t).resolved (length (s.executions t).lock_names) ≡ true
      → IsOrdered p (with_execution p s t (run_task_with_memoization (s.executions t)))
  run-IsOrdered s t inv all =
      with_execution-IsOrdered p s t (run_task_with_memoization (s.executions t)) inv (ground arith)
        (λ live same. live (ground arith))
        (λ name i lt at resolved. inv.leads name t i lt at (ground arith))
        (λ name i lt at called.
          let resolved = all_resolved-at (s.executions t).resolved _ i all (Locks-lt _ i at) in
          ground arith)
        (ground (arith, inv.counted t))

  pub settle-IsOrdered :
      (s : ProcessQueue Q) (t : ℕ)
      → IsOrdered p s
      → is_pending (s.executions t).promise ≡ true
      → IsOrdered p (with_execution p s t (record (s.executions t) { promise = settled }))
  settle-IsOrdered s t inv is_running =
      with_execution-IsOrdered p s t (record (s.executions t) { promise = settled }) inv refl
        (λ live. absurd (live refl)) (λ name i. inv.leads name t i)
        (λ name i lt at called. inv.ready name t i lt at (λ none_yet. ground arith))
        (ground (arith, inv.counted t))

  pub entries-without_first :
      IsFifo p
      → (s : ProcessQueue Q) (name m : String)
      → entries p (without_first p s name) m
        ≡ (if str_eq name m then behind_first (entries p s m) else entries p s m)
  entries-without_first fifo s name m =
      ap p.unsettled (queue_of-set p m name (p.first_settles (queue_of p name s.queues)) s.queues)
      ∙ elim (Bool-cases (str_eq name m)) [
        | inl same ↦ rw (same, (eq_iff name m).0 same) (fifo.drops_first (queue_of p m s.queues))
        | inr different ↦ rw different refl
      ]

  pub leave-IsOrdered :
      IsFifo p
      → (s : ProcessQueue Q) (t i : ℕ) (name : String) → IsOrdered p s
      → is_settled (s.executions t).promise ≡ true
      → first_at p s t i ≡ some name
      → IsOrdered p (without_first p s name)
  leave-IsOrdered fifo s t i name inv done found = record {
    sorted = λ m. at_queue m Sorted (inv.sorted m) (λ same. behind_first-Sorted _ (inv.sorted m));
    placed = λ m u k.
        at_queue m (λ xs. holds u k xs ≡ true → (u < s.added) × Locks p s u k m) (inv.placed m u k)
          (λ same held. inv.placed m u k (holds-behind_first u k _ held));
    waits = λ m u k lt at live.
        let held = inv.waits m u k lt at live in
        at_queue m (λ xs. holds u k xs ≡ true) held
          (λ same.
            behind_first-holds t i u k _
              (subst (λ n. is_first t i (entries p s n) ≡ true) same
                (first_at-some p s t i found).2)
              (λ here. live (subst (λ v. (s.executions v).promise ≡ settled) (sym here) finished))
              held);
    leads = λ m u k lt at resolved.
        let least = inv.leads m u k lt at resolved in
        at_queue m (AtLeast u) least (λ same. behind_first-AtLeast u _ least);
    ready = inv.ready;
    counted = inv.counted;
  }
    where
      finished : (s.executions t).promise ≡ settled
      finished = ground arith

      at_queue :
          (m : String) (P : List Entry → Type 0)
          → P (entries p s m)
          → (name ≡ m → P (behind_first (entries p s m)))
          → P (entries p (without_first p s name) m)
      at_queue m P other first =
          subst P (sym (entries-without_first fifo s name m)) (elim (Bool-cases (str_eq name m)) [
            | inl same ↦ rw same (first ((eq_iff name m).0 same))
            | inr different ↦ rw different other
          ])
