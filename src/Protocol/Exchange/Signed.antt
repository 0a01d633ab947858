-- ===== src/Protocol/Exchange/Signed.antt =====
-- Neither side of an exchange persists anything without a valid signature of the other one.
use indra.Prelude.{
  String, Option, List, [], Result, ok, ◌≡◌, refl, false, ◌⊎◌, inl, inr, Bool-cases,
}
use indra.Ethers.{Ethers}
use indra.Commitment.{Signing}
use indra.Machine.{Reply, Opcode, finished, run_protocol, scripted}
use indra.Machine.Runs.{
  AllYields, AllOpcodes, Among, AllOpcodes-Among, run_protocol-AllYields, attempt-AllYields,
  yields_all-AllYields, persists,
}
use indra.Protocol.Exchange.{Exchange, check, initiating, responding, persist_and_answer}

module _ {P : Type 0} (e : Ethers) (s : Signing) (x : Exchange P) where
  -- What a side may do: it persists only what its protocol persists after a signature of the other
  -- party that is valid.
  abbrev pub Allowed :
      Result P
      → String
      → (P → Option String → Option String → Result (List Opcode))
      → Opcode
      → Type 0
  Allowed prepares xpub found o =
      (persists o ≡ false)
      ⊎ ((p : P) × (mine : Option String) × (theirs : Option String) × (os : List Opcode)
          × (prepares ≡ ok p)
          × (check e s x xpub p theirs ≡ ok tt)
          × (found p mine theirs ≡ ok os)
          × Among o os)

  abbrev pub InitiatorMay : Opcode → Type 0
  InitiatorMay = Allowed x.initiator_prepares x.responder_xpub x.initiator_persists

  abbrev pub ResponderMay : Opcode → Type 0
  ResponderMay = Allowed x.responder_prepares x.initiator_xpub x.responder_persists

  -- It is enough that what the protocol persists is allowed.
  pub initiating-AllYields :
      (Q : Opcode → Type 0)
      → ((o : Opcode) → persists o ≡ false → Q o)
      → ((p : P) (mine theirs : Option String) (os : List Opcode)
          → x.initiator_prepares ≡ ok p
          → check e s x x.responder_xpub p theirs ≡ ok tt
          → x.initiator_persists p mine theirs ≡ ok os
          → AllOpcodes Q os)
      → AllYields Q (initiating e s x)
  unfolding initiating
  initiating-AllYields Q quiet kept = attempt-AllYields Q x.initiator_prepares _ (λ p prepared. (
    quiet _ refl,
    λ mine. (
      quiet _ refl,
      λ theirs. attempt-AllYields Q (check e s x x.responder_xpub p theirs.signature) _ (λ _ valid.
          attempt-AllYields Q (x.initiator_persists p mine.signature theirs.signature) _
            (λ os found.
              yields_all-AllYields Q os finished
                (kept p mine.signature theirs.signature os prepared valid found) tt)),
    ),
  ))

  persist_and_answer-AllYields :
      (Q : Opcode → Type 0)
      → ((o : Opcode) → persists o ≡ false → Q o)
      → (os : List Opcode) (mine : Option String) → AllOpcodes Q os
      → AllYields Q (persist_and_answer e s x os mine)
  persist_and_answer-AllYields Q quiet os mine kept = elim (Bool-cases x.answers_first) [
    | inl first ↦ rw first (quiet _ refl, λ _. yields_all-AllYields Q os finished kept tt)
    | inr last ↦ rw last (yields_all-AllYields Q os _ kept (quiet _ refl, λ _. tt))
  ]

  pub responding-AllYields :
      (Q : Opcode → Type 0) (theirs : Option String)
      → ((o : Opcode) → persists o ≡ false → Q o)
      → ((p : P) (mine : Option String) (os : List Opcode)
          → x.responder_prepares ≡ ok p
          → check e s x x.initiator_xpub p theirs ≡ ok tt
          → x.responder_persists p mine theirs ≡ ok os
          → AllOpcodes Q os)
      → AllYields Q (responding e s x theirs)
  unfolding responding
  responding-AllYields Q theirs quiet kept =
      attempt-AllYields Q x.responder_prepares _ (λ p prepared.
        attempt-AllYields Q (check e s x x.initiator_xpub p theirs) _ (λ _ valid. (
          quiet _ refl,
          λ mine. attempt-AllYields Q (x.responder_persists p mine.signature theirs) _ (λ os found.
              persist_and_answer-AllYields Q quiet os mine.signature
                (kept p mine.signature os prepared valid found)),
        )))

  -- Whatever the initiating side of a setup, a proposal, an update, a take-action or an uninstall is
  -- answered, all that it persists is what its protocol persists for the computed channel, its own
  -- signature and a signature that is valid for the responder.
  pub initiating-InitiatorMay :
      (replies : List Reply)
      → AllOpcodes InitiatorMay (run_protocol scripted (initiating e s x) (replies, [])).1.1
  initiating-InitiatorMay replies =
      run_protocol-AllYields InitiatorMay (initiating e s x) (replies, [])
        (initiating-AllYields InitiatorMay (λ o quiet. inl quiet)
          (λ p mine theirs os prepared valid found.
            AllOpcodes-Among InitiatorMay os
              (λ o there. inr (p, mine, theirs, os, prepared, valid, found, there))))
        tt

  -- Whatever signature the responding side of a setup, a proposal, an update, a take-action or an
  -- uninstall receives, and whatever it is answered, all that it persists is what its protocol
  -- persists for the computed channel, its own signature and a signature that is valid for the
  -- initiator.
  pub responding-ResponderMay :
      (theirs : Option String) (replies : List Reply)
      → AllOpcodes ResponderMay (run_protocol scripted (responding e s x theirs) (replies, [])).1.1
  responding-ResponderMay theirs replies =
      run_protocol-AllYields ResponderMay (responding e s x theirs) (replies, [])
        (responding-AllYields ResponderMay theirs (λ o quiet. inl quiet)
          (λ p mine os prepared valid found.
            AllOpcodes-Among ResponderMay os
              (λ o there. inr (p, mine, theirs, os, prepared, valid, found, there))))
        tt
