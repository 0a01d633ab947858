-- ===== src/Protocol/Exchange/Agreement.antt =====
-- Two honest parties finish an exchange.
use indra.Prelude.{
  String, some, List, [], ◌∷◌, Result, ok, ◌≡◌, refl, ap, ◌∙◌, Bool-cases, inl, inr,
}
use indra.Ethers.{Ethers}
use indra.Commitment.{Signing}
use indra.Machine.{Opcode, signed, finished, run_protocol, Script, scripted}
use indra.Machine.Runs.{
  attempt-ok, recorded, run_protocol-yields_all, persisted, persisted-recorded,
}
use indra.Protocol.Exchange.{
  Exchange, first_message, check, initiating, responding, persist_and_answer,
}

module _ {P : Type 0} (e : Ethers) (s : Signing) (x : Exchange P) (a b : String) where
  -- The run of the initiating side, which signs with `a` and is sent `b`.
  abbrev pub initiated : Result (Unit {0}) × Script
  initiated = run_protocol scripted (initiating e s x) (signed a ∷ signed b ∷ [], [])

  -- The run of the responding side, which is sent `a` and signs with `b`.
  abbrev pub responded : Result (Unit {0}) × Script
  responded = run_protocol scripted (responding e s x (some a)) (signed b ∷ [], [])

  pub initiated_lem :
      (p : P) (os : List Opcode)
      → x.initiator_prepares ≡ ok p
      → check e s x x.responder_xpub p (some b) ≡ ok tt
      → x.initiator_persists p (some a) (some b) ≡ ok os
      → initiated ≡ (
        ok tt,
        (
          [],
          recorded os (
              Opcode.io_send_and_wait (first_message e s x (some a))
              ∷ Opcode.op_sign (x.hash p) (x.signing_index p)
              ∷ []),
        ),
      )
  unfolding initiating run_protocol
  initiated_lem p os prepared valid found =
      ap (λ q. run_protocol scripted q (signed a ∷ signed b ∷ [], [])) (attempt-ok _ prepared)
      ∙ ap
          (λ q. run_protocol scripted q (
            [],
            Opcode.io_send_and_wait (first_message e s x (some a))
                ∷ Opcode.op_sign (x.hash p) (x.signing_index p)
                ∷ [],
          ))
          (attempt-ok _ valid ∙ attempt-ok _ found)
      ∙ run_protocol-yields_all os finished _

  responded_lem :
      (q : P) (os : List Opcode)
      → x.responder_prepares ≡ ok q
      → check e s x x.initiator_xpub q (some a) ≡ ok tt
      → x.responder_persists q (some b) (some a) ≡ ok os
      → responded
        ≡ run_protocol scripted
            (persist_and_answer e s x os (some b))
            ([], Opcode.op_sign (x.hash q) (x.signing_index q) ∷ [])
  unfolding responding run_protocol
  responded_lem q os prepared valid found =
      ap (λ r. run_protocol scripted r (signed b ∷ [], []))
        (attempt-ok _ prepared ∙ attempt-ok _ valid)
      ∙ ap (λ r. run_protocol scripted r ([], Opcode.op_sign (x.hash q) (x.signing_index q) ∷ []))
          (attempt-ok _ found)

  -- Answering and persisting finishes in either order, with the same opcodes persisted.
  answered :
      (os : List Opcode) (trace : List Opcode)
      → persisted trace ≡ []
      → let run = run_protocol scripted (persist_and_answer e s x os (some b)) ([], trace) in
        (run.0 ≡ ok tt) × (persisted run.1.1 ≡ persisted (recorded os []))
  unfolding run_protocol
  answered os trace quiet = elim (Bool-cases x.answers_first) [
    | inl first ↦ rw first (
      ap (λ r. r.0) (run_protocol-yields_all os finished _),
      ap (λ r. persisted r.1.1) (run_protocol-yields_all os finished _)
          ∙ persisted-recorded os _ [] quiet,
    )
    | inr last ↦ rw last (
      ap (λ r. r.0) (run_protocol-yields_all os _ trace),
      ap (λ r. persisted r.1.1) (run_protocol-yields_all os _ trace)
          ∙ persisted-recorded os trace [] quiet,
    )
  ]

  -- When both sides compute their part without an error and both signatures are valid, both finish,
  -- and each persists what its protocol persists for the two signatures.
  pub initiated-and-responded :
      (p q : P) (os os' : List Opcode)
      → x.initiator_prepares ≡ ok p
      → x.responder_prepares ≡ ok q
      → check e s x x.responder_xpub p (some b) ≡ ok tt
      → check e s x x.initiator_xpub q (some a) ≡ ok tt
      → x.initiator_persists p (some a) (some b) ≡ ok os
      → x.responder_persists q (some b) (some a) ≡ ok os'
      → (initiated.0 ≡ ok tt)
        × (responded.0 ≡ ok tt)
        × (persisted initiated.1.1 ≡ persisted (recorded os []))
        × (persisted responded.1.1 ≡ persisted (recorded os' []))
  initiated-and-responded p q os os' prepared prepared' valid valid' found found' =
      let run = initiated_lem p os prepared valid found in
      let run' = responded_lem q os' prepared' valid' found' in
      let (done, kept) = answered os' (Opcode.op_sign (x.hash q) (x.signing_index q) ∷ []) refl in
      (
        ap (λ r. r.0) run,
        ap (λ r. r.0) run' ∙ done,
        ap (λ r. persisted r.1.1) run ∙ persisted-recorded os _ [] refl,
        ap (λ r. persisted r.1.1) run' ∙ kept,
      )
