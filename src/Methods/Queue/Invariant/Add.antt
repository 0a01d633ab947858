-- ===== src/Methods/Queue/Invariant/Add.antt =====
-- A new task keeps the invariant.
use indra.Prelude.{
  String, ℕ, true, ◌≡◌, ◌≢◌, refl, sym, ap, subst, ◌∙◌, inl, inr, some, List, [], ◌∷◌, ◌++◌,
  get_elem?, arith, Bool-cases,
}
use indra.Methods.Queue.{
  Entry, PQueue, IsFifo, ProcessQueue, Execution, unset, settled, create_queues, add_to_many_queues,
  new_execution, entries,
}
use indra.Methods.Queue.Entries.{
  holds, AtLeast, Sorted, places, holds-append, holds-places, places-holds, AtLeast-places,
  Sorted-places, queue_of-create_queues, unsettled-add_to_queues,
}
use indra.Methods.Queue.Invariant.{IsOrdered, at_new, calls_of}

module _ {Q : Type 0} (p : PQueue Q) where
  -- The entries after a task was added.
  entries-add :
      IsFifo p
      → (s : ProcessQueue Q) (names : List String) (m : String)
      → entries p (add_to_many_queues p s names) m ≡ entries p s m ++ places s.added 0 m names
  unfolding add_to_many_queues
  entries-add fifo s names m =
      unsettled-add_to_queues p fifo m s.added 0 names (create_queues p s.queues names)
      ∙ ap (λ q. p.unsettled q ++ places s.added 0 m names)
          (queue_of-create_queues p m s.queues names)

  new-lock_names : (names : List String) → (new_execution p names).lock_names ≡ names
  new-lock_names [] = refl
  new-lock_names (n ∷ ns) = refl

  new-unresolved : (names : List String) (i : ℕ) → (new_execution p names).resolved i ≢ true
  new-unresolved [] i resolved = cc
  new-unresolved (n ∷ ns) i resolved = cc

  new-unset :
      (names : List String) (i : ℕ) {name : String}
      → get_elem? (new_execution p names).lock_names i ≡ some name
      → (new_execution p names).promise ≡ unset
  new-unset [] i at = cc
  new-unset (n ∷ ns) i at = refl

  new-calls :
      (names : List String)
      → (new_execution p names).calls ≡ calls_of (new_execution p names).promise
  new-calls [] = refl
  new-calls (n ∷ ns) = refl

  pub add-IsOrdered :
      IsFifo p
      → (s : ProcessQueue Q) (names : List String) → IsOrdered p s
      → IsOrdered p (add_to_many_queues p s names)
  unfolding add_to_many_queues
  add-IsOrdered fifo s names inv = record {
    sorted = λ m. at_queue m Sorted (
        Sorted-places s.added 0 m names _ (inv.sorted m)
          (λ u k held. omega (arith, (inv.placed m u k held).0)));
    placed = λ m u k held. elim (Bool-cases (holds u k (entries p s m))) [
      | inl old ↦
          let (lt, at) = inv.placed m u k old in
          (
            omega arith,
            at_execution (λ y. get_elem? y.lock_names k ≡ some m) u (λ same. absurd (omega arith))
                (λ _. at),
          )
      | inr other ↦
          let there = at_queue' m (λ xs. holds u k xs ≡ true) held in
          let (task, (j, number, at)) =
            holds-places s.added 0 m names u k
              (ground (arith, holds-append u k (entries p s m) (places s.added 0 m names))) in
          (
            omega arith,
            at_execution (λ y. get_elem? y.lock_names k ≡ some m) u
                (λ _.
                  ap (λ ns. get_elem? ns k) (new-lock_names names)
                  ∙ subst (λ l. get_elem? names l ≡ some m) (omega arith) at)
                (λ different. absurd (different task)),
          )
    ];
    waits = λ m u k lt.
        at_execution
          (λ y.
            get_elem? y.lock_names k ≡ some m
            → y.promise ≢ settled
            → holds u k (entries p s' m) ≡ true)
          u (λ same at live. at_queue m (λ xs. holds u k xs ≡ true) (in_place m k same at))
          (λ different at live.
            at_queue m (λ xs. holds u k xs ≡ true)
              (ground (
                arith,
                holds-append u k (entries p s m) (places s.added 0 m names),
                inv.waits m u k (omega arith) at live,
              )));
    leads = λ m u k lt.
        at_execution
          (λ y.
            get_elem? y.lock_names k ≡ some m → y.resolved k ≡ true → AtLeast u (entries p s' m))
          u (λ same at resolved. absurd (new-unresolved names k resolved))
          (λ different at resolved. at_queue m (AtLeast u) (
            AtLeast-places u s.added 0 m names _ (omega arith)
              (inv.leads m u k (omega arith) at resolved)));
    ready = λ m u k lt.
        at_execution
          (λ y. get_elem? y.lock_names k ≡ some m → y.promise ≢ unset → y.resolved k ≡ true) u
          (λ same at called. absurd (called (new-unset names k at)))
          (λ different. inv.ready m u k (omega arith));
    counted = λ u.
        at_execution (λ y. y.calls ≡ calls_of y.promise) u (λ _. new-calls names)
          (λ _. inv.counted u);
  }
    where
      s' : ProcessQueue Q
      s' = add_to_many_queues p s names

      at_execution :
          (P : Execution → Type 0) (u : ℕ)
          → (u ≡ s.added → P (new_execution p names))
          → (u ≢ s.added → P (s.executions u))
          → P (s'.executions u)
      at_execution P u = at_new p s.executions s.added (new_execution p names) P u

      at_queue :
          (m : String) (P : List Entry → Type 0)
          → P (entries p s m ++ places s.added 0 m names)
          → P (entries p s' m)
      at_queue m P held = subst P (sym (entries-add fifo s names m)) held

      at_queue' :
          (m : String) (P : List Entry → Type 0)
          → P (entries p s' m)
          → P (entries p s m ++ places s.added 0 m names)
      at_queue' m P held = subst P (entries-add fifo s names m) held

      in_place :
          (m : String) (k : ℕ) {u : ℕ}
          → u ≡ s.added
          → get_elem? (new_execution p names).lock_names k ≡ some m
          → holds u k (entries p s m ++ places s.added 0 m names) ≡ true
      in_place m k {u} same at =
          let here : holds s.added k (places s.added 0 m names) ≡ true =
            subst (λ l. holds s.added l (places s.added 0 m names) ≡ true) (omega arith)
              (places-holds s.added 0 m names k
                (ap (λ ns. get_elem? ns k) (sym (new-lock_names names)) ∙ at)) in
          subst (λ v. holds v k (entries p s m ++ places s.added 0 m names) ≡ true) (sym same)
            (ground (arith, holds-append s.added k (entries p s m) (places s.added 0 m names)))
