-- ===== src/Machine/Runs.antt =====
-- What can be said of every run of a protocol, whatever it is answered.
use indra.Prelude.{List, [], ◌∷◌, Result, ok, err, ◌≡◌, refl, ◌⊎◌, inl, inr, Bool, true, false}
use indra.Machine.{
  Reply, no_reply, Opcode, Process, finished, thrown, yields, yields_all, attempt, run_protocol,
  Script, scripted,
}

-- Every opcode that a process can yield, whatever it is resumed with.
abbrev pub AllYields : (Opcode → Type 0) → Process → Type 0
AllYields Q finished = Unit
AllYields Q (thrown message) = Unit
AllYields Q (yields opcode next) = Q opcode × ((r : Reply) → AllYields Q (next r))

abbrev pub AllOpcodes : (Opcode → Type 0) → List Opcode → Type 0
AllOpcodes Q [] = Unit
AllOpcodes Q (o ∷ os) = Q o × AllOpcodes Q os

-- The opcode stands in the list.
abbrev pub Among : Opcode → List Opcode → Type 0
Among o [] = ⊥
Among o (p ∷ ps) = (o ≡ p) ⊎ Among o ps

pub AllOpcodes-Among :
    (Q : Opcode → Type 0) (os : List Opcode) → ((o : Opcode) → Among o os → Q o) → AllOpcodes Q os
AllOpcodes-Among Q [] h = tt
AllOpcodes-Among Q (o ∷ os) h = (h o (inl refl), AllOpcodes-Among Q os (λ p there. h p (inr there)))

-- A run yields what its process can yield.
pub run_protocol-AllYields :
    (Q : Opcode → Type 0) (p : Process) (w : Script)
    → AllYields Q p
    → AllOpcodes Q w.1
    → AllOpcodes Q (run_protocol scripted p w).1.1
unfolding run_protocol
run_protocol-AllYields Q finished w a t = t
run_protocol-AllYields Q (thrown message) w a t = t
run_protocol-AllYields Q (yields opcode next) ([], trace) a t =
    run_protocol-AllYields Q (next no_reply) _ (a.1 no_reply) (a.0, t)
run_protocol-AllYields Q (yields opcode next) (r ∷ rs, trace) a t =
    run_protocol-AllYields Q (next r) _ (a.1 r) (a.0, t)

pub attempt-AllYields :
    {A : Type 0} (Q : Opcode → Type 0) (outcome : Result A) (next : A → Process)
    → ((a : A) → outcome ≡ ok a → AllYields Q (next a))
    → AllYields Q (attempt outcome next)
attempt-AllYields Q (err message) next h = tt
attempt-AllYields Q (ok value) next h = h value refl

pub yields_all-AllYields :
    (Q : Opcode → Type 0) (os : List Opcode) (last : Process)
    → AllOpcodes Q os
    → AllYields Q last
    → AllYields Q (yields_all os last)
yields_all-AllYields Q [] last a l = l
yields_all-AllYields Q (o ∷ os) last a l = (a.0, λ _. yields_all-AllYields Q os last a.1 l)

pub attempt-ok :
    {A : Type 0} {outcome : Result A} {a : A} (next : A → Process)
    → outcome ≡ ok a
    → attempt outcome next ≡ next a
attempt-ok next h = rw h

-- The opcodes of a list, recorded on top of a trace.
abbrev pub recorded : List Opcode → List Opcode → List Opcode
recorded [] trace = trace
recorded (o ∷ os) trace = recorded os (o ∷ trace)

-- With no replies left, all the opcodes of a list are run.
pub run_protocol-yields_all :
    (os : List Opcode) (last : Process) (trace : List Opcode)
    → run_protocol scripted (yields_all os last) ([], trace)
      ≡ run_protocol scripted last ([], recorded os trace)
unfolding run_protocol
run_protocol-yields_all [] last trace = refl
run_protocol-yields_all (o ∷ os) last trace = run_protocol-yields_all os last (o ∷ trace)

abbrev pub persists : Opcode → Bool
persists (Opcode.op_sign hash index) = false
persists (Opcode.io_send message) = false
persists (Opcode.io_send_and_wait message) = false
persists (Opcode.persist_commitment c hash) = true
persists (Opcode.persist_state_channel channels) = true
persists (Opcode.persist_app_instance ch app) = true

-- The opcodes that persist something.
abbrev pub persisted : List Opcode → List Opcode
persisted [] = []
persisted (o ∷ os) = elim (persists o) [ true ↦ o ∷ persisted os | false ↦ persisted os ]

persisted-cons :
    (o : Opcode) (t t' : List Opcode)
    → persisted t ≡ persisted t'
    → persisted (o ∷ t) ≡ persisted (o ∷ t')
persisted-cons (Opcode.op_sign hash index) t t' h = h
persisted-cons (Opcode.io_send message) t t' h = h
persisted-cons (Opcode.io_send_and_wait message) t t' h = h
persisted-cons _ t t' h = rw h

-- What is persisted on top of a trace does not depend on the rest of it.
pub persisted-recorded :
    (os t t' : List Opcode)
    → persisted t ≡ persisted t'
    → persisted (recorded os t) ≡ persisted (recorded os t')
persisted-recorded [] t t' h = h
persisted-recorded (o ∷ os) t t' h =
    persisted-recorded os (o ∷ t) (o ∷ t') (persisted-cons o t t' h)
