-- ===== src/Tests/Queue.antt =====
-- Two tasks that share a lock, in queues that are lists.
use indra.Prelude.{
  String, ℕ, zero, suc, some, none, Option, List, [], ◌∷◌, ◌++◌, get_elem?, ◌≡◌, ◌≢◌, ◌⊎◌, refl,
  arith, subst,
}
use indra.Dict.{set, lookup}
use indra.Methods.Queue.{
  Entry, PQueue, IsFifo, ProcessQueue, unset, behind_first, Event, add_task, begin, run, settle,
  leave, add_to_queues, create_queues, get_or_create_lock_queue, add_to_many_queues, first_at, step,
  empty, Reach, start, next,
}
use indra.Methods.Queue.Order.{called_in_order, ComesAfter}
use indra.Methods.Queue.Invariant.{some_eq}
use indra.Methods.Queue.Progress.{AreDistinct, CanAdvance, no_deadlock}

abbrev listed : PQueue (List Entry)
listed = record {
  create = [];
  add = λ q x. q ++ (x ∷ []);
  first_settles = behind_first;
  unsettled = λ q. q;
}

listed-IsFifo : IsFifo listed
listed-IsFifo = record { starts_empty = refl; adds_last = λ q x. refl; drops_first = λ q. refl }

abbrev State : Type 0
State = ProcessQueue (List Entry)

abbrev replay : Option State → List Event → Option State
replay s [] = s
replay none (event ∷ events) = replay none events
replay (some s) (event ∷ events) = replay (step listed s event) events

stuck : (events : List Event) {s' : State} → replay none events ≢ some s'
stuck [] same = cc
stuck (e ∷ es) same = stuck es same

first_step :
    (o : Option State) (events : List Event) {s' : State}
    → replay o events ≡ some s'
    → (s : State) × (o ≡ some s) × (replay (some s) events ≡ some s')
first_step none events replayed = absurd (stuck events replayed)
first_step (some s) events replayed = (s, refl, replayed)

reached :
    (s : State) (events : List Event) {s' : State}
    → Reach listed s
    → replay (some s) events ≡ some s'
    → Reach listed s'
reached s [] so_far replayed = subst (Reach listed) (some_eq replayed) so_far
reached s (event ∷ events) so_far replayed =
    let (s1, moved, goes_on) = first_step (step listed s event) events replayed in
    reached s1 events (next event so_far moved) goes_on

-- A deposit and an update of the same channel.
abbrev added : List Event
added = add_task ("0xdd" ∷ []) ∷ add_task ("0xdd" ∷ "0x11" ∷ []) ∷ []

abbrev both_ran : List Event
both_ran =
    add_task ("0xdd" ∷ [])
    ∷ add_task ("0xdd" ∷ "0x11" ∷ [])
    ∷ begin 0 0
    ∷ begin 1 1
    ∷ run 0
    ∷ settle 0
    ∷ leave 0 0
    ∷ begin 1 0
    ∷ run 1
    ∷ []

abbrev waiting : (s : State) × (replay (some (empty listed)) added ≡ some s)
unfolding step add_to_queues create_queues get_or_create_lock_queue add_to_many_queues first_at set
    lookup
waiting = (_, refl)

abbrev ran : (s : State) × (replay (some (empty listed)) both_ran ≡ some s)
unfolding step add_to_queues create_queues get_or_create_lock_queue add_to_many_queues first_at set
    lookup
ran = (_, refl)

-- The second task runs when the first has settled.
called_in_order_example :
    (((ran.0.executions 1).promise ≡ unset) × ((ran.0.executions 1).calls ≡ 0))
    ⊎ (((ran.0.executions 1).promise ≢ unset)
        × ((ran.0.executions 1).calls ≡ 1)
        × ComesAfter listed ran.0 1)
unfolding ran
called_in_order_example =
    called_in_order listed listed-IsFifo (reached (empty listed) both_ran start ran.1) 1
      (omega arith)

one_lock :
    (i j : ℕ) (name : String)
    → get_elem? ("0xdd" ∷ []) i ≡ some name
    → get_elem? ("0xdd" ∷ []) j ≡ some name
    → i ≡ j
one_lock zero zero name at at' = refl
one_lock zero (suc j) name at at' = cc
one_lock (suc i) j name at at' = cc

two_locks :
    (i j : ℕ) (name : String)
    → get_elem? ("0xdd" ∷ "0x11" ∷ []) i ≡ some name
    → get_elem? ("0xdd" ∷ "0x11" ∷ []) j ≡ some name
    → i ≡ j
two_locks zero zero name at at' = refl
two_locks zero (suc zero) name at at' = cc
two_locks (suc zero) zero name at at' = cc
two_locks (suc zero) (suc zero) name at at' = refl
two_locks zero (suc (suc j)) name at at' = cc
two_locks (suc zero) (suc (suc j)) name at at' = cc
two_locks (suc (suc i)) j name at at' = cc

waiting-AreDistinct : AreDistinct listed waiting.0
unfolding waiting
waiting-AreDistinct zero i j name lt at at' = one_lock i j name at at'
waiting-AreDistinct (suc zero) i j name lt at at' = two_locks i j name at at'
waiting-AreDistinct (suc (suc t)) i j name lt at at' = absurd (omega arith)

no_deadlock_example : CanAdvance listed waiting.0
unfolding lookup waiting
no_deadlock_example =
    no_deadlock listed listed-IsFifo (reached (empty listed) added start waiting.1)
      waiting-AreDistinct "0xdd" 1 0 refl
