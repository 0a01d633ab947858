-- ===== src/Methods/Queue/Entries.antt =====
-- The entries of a queue: which are in it, in which order they stand, and what the operations on
-- queues make of them.
use indra.Prelude.{
  String, str_eq, eq_iff, ℕ, zero, suc, ◌+◌, ◌≤◌, ◌==◌, Bool, true, false, ◌&&◌, ◌||◌, ◌≡◌, ◌≢◌,
  ◌⊎◌, refl, sym, ap, subst, ◌∙◌, inl, inr, some, List, [], ◌∷◌, ◌++◌, get_elem?, if◌then◌else◌,
  arith, Bool-cases,
}
use mathlib.Core.List.{append-nil, append_assoc}
use indra.Dict.{Dict, set}
use indra.Dict.Laws.{lookup-set}
use indra.Methods.Queue.{
  Entry, PQueue, IsFifo, behind_first, is_first, queue_of, get_or_create_lock_queue, create_queues,
  add_to_queues,
}

abbrev pub holds : ℕ → ℕ → List Entry → Bool
holds t i [] = false
holds t i ((u, k) ∷ xs) = (u == t && k == i) || holds t i xs

abbrev pub AtLeast : ℕ → List Entry → Type 0
AtLeast t [] = Unit
AtLeast t ((u, k) ∷ xs) = (t ≤ u) × AtLeast t xs

-- By the numbers of the tasks.
abbrev pub Sorted : List Entry → Type 0
Sorted [] = Unit
Sorted ((u, k) ∷ xs) = AtLeast u xs × Sorted xs

-- The entries of a new task in one queue.
abbrev pub places : ℕ → ℕ → String → List String → List Entry
places t i name [] = []
places t i name (n ∷ ns) =
    if str_eq n name then (t, i) ∷ places t (suc i) name ns else places t (suc i) name ns

pub holds-append :
    (t i : ℕ) (xs ys : List Entry) → holds t i (xs ++ ys) ≡ (holds t i xs || holds t i ys)
holds-append t i [] ys = refl
holds-append t i ((u, k) ∷ xs) ys = ground (arith, holds-append t i xs ys)

pub AtLeast-holds : (t u k : ℕ) (xs : List Entry) → AtLeast t xs → holds u k xs ≡ true → t ≤ u
AtLeast-holds t u k [] least held = cc
AtLeast-holds t u k ((v, j) ∷ xs) least held = ground (arith, AtLeast-holds t u k xs least.1)

pub is_first-AtLeast :
    (t i : ℕ) (xs : List Entry) → is_first t i xs ≡ true → Sorted xs → AtLeast t xs
is_first-AtLeast t i [] first sorted = tt
is_first-AtLeast t i ((u, k) ∷ xs) first sorted =
    let same : u ≡ t = ground arith in
    subst (λ v. (v ≤ u) × AtLeast v xs) same (omega arith, sorted.0)

pub behind_first-Sorted : (xs : List Entry) → Sorted xs → Sorted (behind_first xs)
behind_first-Sorted [] sorted = sorted
behind_first-Sorted (x ∷ xs) sorted = sorted.1

pub behind_first-AtLeast : (t : ℕ) (xs : List Entry) → AtLeast t xs → AtLeast t (behind_first xs)
behind_first-AtLeast t [] least = least
behind_first-AtLeast t (x ∷ xs) least = least.1

pub holds-behind_first :
    (u k : ℕ) (xs : List Entry) → holds u k (behind_first xs) ≡ true → holds u k xs ≡ true
holds-behind_first u k [] held = held
holds-behind_first u k ((v, j) ∷ xs) held = ground arith

pub behind_first-holds :
    (t i u k : ℕ) (xs : List Entry)
    → is_first t i xs ≡ true
    → u ≢ t
    → holds u k xs ≡ true
    → holds u k (behind_first xs) ≡ true
behind_first-holds t i u k [] first other held = held
behind_first-holds t i u k ((v, j) ∷ xs) first other held = ground arith

holds-one :
    (b : Bool) (t i u k : ℕ) (rest : List Entry)
    → holds u k (if b then (t, i) ∷ rest else rest) ≡ true
    → ((b ≡ true) × (u ≡ t) × (k ≡ i)) ⊎ (holds u k rest ≡ true)
holds-one true t i u k rest held = elim (Bool-cases (t == u && i == k)) [
  | inl here ↦ inl (refl, ground arith, ground arith)
  | inr there ↦ inr (ground arith)
]
holds-one false t i u k rest held = inr held

pub holds-places :
    (t i : ℕ) (name : String) (ns : List String) (u k : ℕ)
    → holds u k (places t i name ns) ≡ true
    → (u ≡ t) × ((j : ℕ) × (k ≡ i + j) × (get_elem? ns j ≡ some name))
holds-places t i name [] u k held = cc
holds-places t i name (n ∷ ns) u k held =
    elim (holds-one (str_eq n name) t i u k (places t (suc i) name ns) held) [
      | inl (same, task, number) ↦
          (task, (0, omega (arith, number), ap some ((eq_iff n name).0 same)))
      | inr there ↦
          let (task, (j, number, at)) = holds-places t (suc i) name ns u k there in
          (task, (suc j, omega (arith, number), at))
    ]

pub places-holds :
    (t i : ℕ) (name : String) (ns : List String) (j : ℕ)
    → get_elem? ns j ≡ some name
    → holds t (i + j) (places t i name ns) ≡ true
places-holds t i name [] j at = cc
places-holds t i name (n ∷ ns) zero at = ground (arith, eq_iff n name)
places-holds t i name (n ∷ ns) (suc j) at =
    let rest : holds t (suc i + j) (places t (suc i) name ns) ≡ true =
      places-holds t (suc i) name ns j at in
    let number : suc i + j ≡ i + suc j = omega arith in
    ground (arith, subst (λ k. holds t k (places t (suc i) name ns) ≡ true) number rest)

-- Entries of a later task at the end keep the order.
pub AtLeast-places :
    (s t i : ℕ) (name : String) (ns : List String) (xs : List Entry)
    → s ≤ t
    → AtLeast s xs
    → AtLeast s (xs ++ places t i name ns)
AtLeast-places s t i name [] [] le least = tt
AtLeast-places s t i name (n ∷ ns) [] le least = elim (Bool-cases (str_eq n name)) [
  | inl same ↦ rw same (le, AtLeast-places s t (suc i) name ns [] le tt)
  | inr other ↦ rw other (AtLeast-places s t (suc i) name ns [] le tt)
]
AtLeast-places s t i name ns ((u, k) ∷ xs) le least =
    (least.0, AtLeast-places s t i name ns xs le least.1)

pub Sorted-places :
    (t i : ℕ) (name : String) (ns : List String) (xs : List Entry)
    → Sorted xs
    → ((u k : ℕ) → holds u k xs ≡ true → u ≤ t)
    → Sorted (xs ++ places t i name ns)
Sorted-places t i name [] [] sorted earlier = tt
Sorted-places t i name (n ∷ ns) [] sorted earlier = elim (Bool-cases (str_eq n name)) [
  | inl same ↦ rw same (
    AtLeast-places t t (suc i) name ns [] (omega arith) tt,
    Sorted-places t (suc i) name ns [] tt earlier,
  )
  | inr other ↦ rw other (Sorted-places t (suc i) name ns [] tt earlier)
]
Sorted-places t i name ns ((u, k) ∷ xs) sorted earlier = (
  AtLeast-places u t i name ns xs (earlier u k (ground arith)) sorted.0,
  Sorted-places t i name ns xs sorted.1 (λ v j held. earlier v j (ground arith)),
)

module _ {Q : Type 0} (p : PQueue Q) where
  pub queue_of-set :
      (m n : String) (q : Q) (d : Dict Q)
      → queue_of p m (set n q d) ≡ (if str_eq n m then q else queue_of p m d)
  queue_of-set m n q d = rw (lookup-set m n q d) (ground arith)

  queue_of-get_or_create :
      (m n : String) (d : Dict Q) → queue_of p m (get_or_create_lock_queue p d n) ≡ queue_of p m d
  unfolding get_or_create_lock_queue
  queue_of-get_or_create m n d = ground (arith, queue_of-set m n p.create d, eq_iff n m)

  -- Creating queues changes none that a task can see.
  pub queue_of-create_queues :
      (m : String) (d : Dict Q) (ns : List String)
      → queue_of p m (create_queues p d ns) ≡ queue_of p m d
  unfolding create_queues
  queue_of-create_queues m d [] = refl
  queue_of-create_queues m d (n ∷ ns) =
      queue_of-create_queues m (get_or_create_lock_queue p d n) ns ∙ queue_of-get_or_create m n d

  -- A new task comes last in each of its queues.
  pub unsettled-add_to_queues :
      IsFifo p
      → (m : String) (t i : ℕ) (ns : List String) (d : Dict Q)
      → p.unsettled (queue_of p m (add_to_queues p t i ns d))
        ≡ p.unsettled (queue_of p m d) ++ places t i m ns
  unfolding add_to_queues
  unsettled-add_to_queues fifo m t i [] d = sym (append-nil _)
  unsettled-add_to_queues fifo m t i (n ∷ ns) d =
      unsettled-add_to_queues fifo m t (suc i) ns _ ∙ elim (Bool-cases (str_eq n m)) [
        | inl same ↦
            rw
              (
                queue_of-set m n (p.add (queue_of p n d) (t, i)) d,
                same,
                (eq_iff n m).0 same,
                fifo.adds_last (queue_of p m d) (t, i),
              )
              (append_assoc (p.unsettled (queue_of p m d)) ((t, i) ∷ []) (places t (suc i) m ns))
        | inr other ↦ rw (queue_of-set m n (p.add (queue_of p n d) (t, i)) d, other)
      ]
