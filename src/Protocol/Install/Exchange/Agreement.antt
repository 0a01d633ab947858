-- ===== src/Protocol/Install/Exchange/Agreement.antt =====
-- Two honest parties finish an installation, and the deposits were there.
use indra.Prelude.{String, pos, none, some, List, [], ◌∷◌, Result, ok, ◌≡◌, ap, ◌∙◌}
use indra.Ethers.{Ethers}
use indra.AppInstance.{identity_hash}
use indra.Commitment.{Signing, set_signatures}
use indra.Commitment.Multisig
use indra.Commitment.Multisig.{ParamsCoder}
use indra.Machine.{
  no_reply, signed, Opcode, set_state, conditional, app_instance, run_protocol, Script, scripted,
}
use indra.Machine.Runs.{attempt-ok, persisted}
use indra.Protocol.Exchange.{unassigned_seq_no}
use indra.Protocol.Install.Exchange.{
  Install, Installation, FreeBalanceUpdate, prepare_install, prepare_free_balance_update, check,
  message, initiating, responding,
}

module _ (e : Ethers) (s : Signing) (coder : ParamsCoder) (u : Install) (a a2 b b2 : String) where
  -- The run of the initiating side, which signs with `a` and `a2` and is sent `b` and `b2`.
  abbrev pub initiated : Result (Unit {0}) × Script
  initiated = run_protocol scripted (initiating e s coder u) (
    signed a ∷ record { signature = some b; signature2 = some b2 } ∷ no_reply ∷ signed a2 ∷ [],
    [],
  )

  -- The run of the responding side, which is sent `a` and `a2` and signs with `b` and `b2`.
  abbrev pub responded : Result (Unit {0}) × Script
  responded =
      run_protocol scripted (responding e s coder u (some a))
        (signed b ∷ no_reply ∷ signed b2 ∷ signed a2 ∷ [], [])

  -- What has happened up to the first answer; after the first commitment; and up to the second answer.
  abbrev asked : Installation → List Opcode
  asked p =
      Opcode.io_send_and_wait (message e s coder u (pos 1) u.params.responder_xpub (some a) none)
      ∷ Opcode.op_sign p.hash none
      ∷ []

  abbrev conditioned : Installation → String → String → List Opcode → List Opcode
  conditioned p mine theirs trace =
      Opcode.persist_commitment
        (conditional (record (p.commitment) { signatures = some mine ∷ some theirs ∷ [] }))
        (identity_hash e p.app)
      ∷ trace

  abbrev offered : Installation → FreeBalanceUpdate → List Opcode
  offered p f =
      Opcode.io_send_and_wait
        (message e s coder u unassigned_seq_no u.params.initiator_xpub (some b) (some b2))
      ∷ Opcode.op_sign f.hash none
      ∷ conditioned p b a (Opcode.op_sign p.hash none ∷ [])

  -- What a side persists, the latest first: its own signatures are the first ones.
  abbrev pub installed :
      Installation → FreeBalanceUpdate → String → String → String → String → List Opcode
  installed p f mine mine2 theirs theirs2 =
      Opcode.persist_app_instance p.post_channel (app_instance p.app)
      ∷ Opcode.persist_commitment
          (set_state (record (f.commitment) { signatures = some mine2 ∷ some theirs2 ∷ [] }))
          (identity_hash e f.fb)
      ∷ conditioned p mine theirs []

  initiated_lem :
      (p : Installation) (f : FreeBalanceUpdate)
      → prepare_install e s coder u ≡ ok p
      → prepare_free_balance_update e s u p ≡ ok f
      → check e s coder u u.params.responder_xpub p.hash (some b) ≡ ok tt
      → check e s coder u u.params.responder_xpub f.hash (some b2) ≡ ok tt
      → initiated ≡ (
        ok tt,
        (
          [],
          Opcode.io_send_and_wait
                (message e s coder u unassigned_seq_no u.params.responder_xpub (some a2) none)
              ∷ Opcode.persist_app_instance p.post_channel (app_instance p.app)
              ∷ Opcode.persist_commitment
                  (set_state (record (f.commitment) { signatures = some a2 ∷ some b2 ∷ [] }))
                  (identity_hash e f.fb)
              ∷ Opcode.op_sign f.hash none
              ∷ conditioned p a b (asked p),
        ),
      )
  unfolding initiating run_protocol set_signatures Multisig.set_signatures
  initiated_lem p f prepared computed valid_b valid_b2 =
      ap
        (λ q. run_protocol scripted q (
          signed a
              ∷ record { signature = some b; signature2 = some b2 }
              ∷ no_reply
              ∷ signed a2
              ∷ [],
          [],
        ))
        (attempt-ok _ prepared)
      ∙ ap (λ q. run_protocol scripted q (no_reply ∷ signed a2 ∷ [], asked p))
          (attempt-ok _ valid_b)
      ∙ ap (λ q. run_protocol scripted q (signed a2 ∷ [], conditioned p a b (asked p)))
          (attempt-ok _ computed ∙ attempt-ok _ valid_b2)

  responded_lem :
      (p : Installation) (f : FreeBalanceUpdate)
      → prepare_install e s coder u ≡ ok p
      → prepare_free_balance_update e s u p ≡ ok f
      → check e s coder u u.params.initiator_xpub p.hash (some a) ≡ ok tt
      → check e s coder u u.params.initiator_xpub f.hash (some a2) ≡ ok tt
      → responded ≡ (
        ok tt,
        (
          [],
          Opcode.io_send (message e s coder u unassigned_seq_no u.params.initiator_xpub none none)
              ∷ Opcode.persist_app_instance p.post_channel (app_instance p.app)
              ∷ Opcode.persist_commitment
                  (set_state (record (f.commitment) { signatures = some b2 ∷ some a2 ∷ [] }))
                  (identity_hash e f.fb)
              ∷ offered p f,
        ),
      )
  unfolding responding run_protocol set_signatures Multisig.set_signatures
  responded_lem p f prepared computed valid_a valid_a2 =
      ap (λ q. run_protocol scripted q (signed b ∷ no_reply ∷ signed b2 ∷ signed a2 ∷ [], []))
        (attempt-ok _ prepared ∙ attempt-ok _ valid_a)
      ∙ ap
          (λ q.
            run_protocol scripted q
              (signed b2 ∷ signed a2 ∷ [], conditioned p b a (Opcode.op_sign p.hash none ∷ [])))
          (attempt-ok _ computed)
      ∙ ap (λ q. run_protocol scripted q ([], offered p f)) (attempt-ok _ valid_a2)

  -- When the channel with the new app and its free balance are computed without an error and the four
  -- signatures are valid, both sides of an installation finish, and they persist the same but for the
  -- order of the signatures: the conditional transaction, the free balance, and then the channel.
  pub install-initiated-and-responded :
      (p : Installation) (f : FreeBalanceUpdate)
      → prepare_install e s coder u ≡ ok p
      → prepare_free_balance_update e s u p ≡ ok f
      → check e s coder u u.params.initiator_xpub p.hash (some a) ≡ ok tt
      → check e s coder u u.params.responder_xpub p.hash (some b) ≡ ok tt
      → check e s coder u u.params.initiator_xpub f.hash (some a2) ≡ ok tt
      → check e s coder u u.params.responder_xpub f.hash (some b2) ≡ ok tt
      → (initiated.0 ≡ ok tt)
        × (responded.0 ≡ ok tt)
        × (persisted initiated.1.1 ≡ installed p f a a2 b b2)
        × (persisted responded.1.1 ≡ installed p f b b2 a a2)
  install-initiated-and-responded p f prepared computed valid_a valid_b valid_a2 valid_b2 =
      let run = initiated_lem p f prepared computed valid_b valid_b2 in
      let run' = responded_lem p f prepared computed valid_a valid_a2 in
      (
        ap (λ r. r.0) run,
        ap (λ r. r.0) run',
        ap (λ r. persisted r.1.1) run,
        ap (λ r. persisted r.1.1) run',
      )
