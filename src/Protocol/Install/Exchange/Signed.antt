-- ===== src/Protocol/Install/Exchange/Signed.antt =====
-- Neither side of an installation persists anything without the other one's valid signatures.
use indra.Prelude.{Option, List, [], ◌∷◌, ok, ◌≡◌, refl, String}
use indra.Ethers.{Ethers}
use indra.AppInstance.{identity_hash}
use indra.Commitment.{Signing, set_signatures}
use indra.Commitment.Multisig
use indra.Commitment.Multisig.{ParamsCoder}
use indra.Machine.{
  Reply, Opcode, Process, set_state, conditional, setup, app_instance, proposal, uninstall,
  run_protocol, scripted,
}
use indra.Machine.Runs.{AllYields, AllOpcodes, run_protocol-AllYields, attempt-AllYields}
use indra.Protocol.Install.Exchange.{
  Install, Installation, FreeBalanceUpdate, prepare_install, prepare_free_balance_update, check,
  initiating, initiating_free_balance, responding, responding_free_balance, persist_install,
  send_last_signature, send_data_persisted,
}

module _ (e : Ethers) (s : Signing) (coder : ParamsCoder) (u : Install) where
  -- A signature of the conditional transaction of the computed channel, valid for the given party.
  abbrev pub Conditioned : String → Installation → Option String → Type 0
  Conditioned xpub p sig =
      (prepare_install e s coder u ≡ ok p) × (check e s coder u xpub p.hash sig ≡ ok tt)

  -- A signature of the free balance of that channel.
  abbrev pub Paid : String → Installation → FreeBalanceUpdate → Option String → Type 0
  Paid xpub p f sig =
      (prepare_free_balance_update e s u p ≡ ok f) × (check e s coder u xpub f.hash sig ≡ ok tt)

  -- What may be persisted with signatures of the given party: the conditional transaction with a
  -- valid signature of it; the free balance and the channel with the app only with valid signatures
  -- of both. The own signature stands first.
  abbrev pub MayInstall : String → Opcode → Type 0
  MayInstall xpub (Opcode.op_sign hash index) = Unit
  MayInstall xpub (Opcode.io_send message) = Unit
  MayInstall xpub (Opcode.io_send_and_wait message) = Unit
  MayInstall xpub (Opcode.persist_state_channel channels) = ⊥
  MayInstall xpub (Opcode.persist_commitment (conditional c) hash) =
      (p : Installation) × (own sig : Option String) × Conditioned xpub p sig
      × (c ≡ record (p.commitment) { signatures = own ∷ sig ∷ [] })
      × (hash ≡ identity_hash e p.app)
  MayInstall xpub (Opcode.persist_commitment (set_state c) hash) =
      (p : Installation) × (f : FreeBalanceUpdate) × (sig own sig2 : Option String) × Conditioned
        xpub p sig
      × Paid xpub p f sig2
      × (c ≡ record (f.commitment) { signatures = own ∷ sig2 ∷ [] })
      × (hash ≡ identity_hash e f.fb)
  MayInstall xpub (Opcode.persist_commitment (setup c) hash) = ⊥
  MayInstall xpub (Opcode.persist_app_instance ch (app_instance app)) =
      (p : Installation) × (f : FreeBalanceUpdate) × (sig sig2 : Option String) × Conditioned xpub p
        sig
      × Paid xpub p f sig2
      × (ch ≡ p.post_channel)
      × (app ≡ p.app)
  MayInstall xpub (Opcode.persist_app_instance ch (proposal app)) = ⊥
  MayInstall xpub (Opcode.persist_app_instance ch (uninstall app)) = ⊥

  persist_install-MayInstall :
      (xpub : String) (p : Installation) (f : FreeBalanceUpdate) (sig own sig2 : Option String)
      (next : Process)
      → Conditioned xpub p sig
      → Paid xpub p f sig2
      → AllYields (MayInstall xpub) next
      → AllYields (MayInstall xpub) (
          persist_install e s coder u p f
            (record (f.commitment) { signatures = own ∷ sig2 ∷ [] })
            next)
  persist_install-MayInstall xpub p f sig own sig2 next conditioned paid rest = (
    (p, f, sig, own, sig2, conditioned, paid, refl, refl),
    λ _. ((p, f, sig, sig2, conditioned, paid, refl, refl), λ _. rest),
  )

  initiating_free_balance-MayInstall :
      (p : Installation) (theirs : Reply)
      → Conditioned u.params.responder_xpub p theirs.signature
      → AllYields
          (MayInstall u.params.responder_xpub)
          (initiating_free_balance e s coder u p theirs)
  unfolding set_signatures
  initiating_free_balance-MayInstall p theirs conditioned =
      attempt-AllYields _ (prepare_free_balance_update e s u p) _ (λ f computed.
        attempt-AllYields _ (check e s coder u u.params.responder_xpub f.hash theirs.signature2) _
          (λ _ valid. (
            tt,
            λ mine.
                persist_install-MayInstall u.params.responder_xpub p f theirs.signature
                  mine.signature theirs.signature2 (send_last_signature e s coder u mine.signature)
                  conditioned (computed, valid) (tt, λ _. tt),
          )))

  initiating-AllYields : AllYields (MayInstall u.params.responder_xpub) (initiating e s coder u)
  unfolding initiating Multisig.set_signatures
  initiating-AllYields = attempt-AllYields _ (prepare_install e s coder u) _ (λ p prepared. (
    tt,
    λ mine. (
      tt,
      λ theirs.
          attempt-AllYields _ (check e s coder u u.params.responder_xpub p.hash theirs.signature) _
            (λ _ valid. (
              (p, mine.signature, theirs.signature, (prepared, valid), refl, refl),
              λ _. initiating_free_balance-MayInstall p theirs (prepared, valid),
            )),
    ),
  ))

  responding_free_balance-MayInstall :
      (p : Installation) (mine : Reply) (theirs : Option String)
      → Conditioned u.params.initiator_xpub p theirs
      → AllYields (MayInstall u.params.initiator_xpub) (responding_free_balance e s coder u p mine)
  unfolding set_signatures
  responding_free_balance-MayInstall p mine theirs conditioned =
      attempt-AllYields _ (prepare_free_balance_update e s u p) _ (λ f computed. (
        tt,
        λ mine2. (
          tt,
          λ theirs2.
              attempt-AllYields _
                (check e s coder u u.params.initiator_xpub f.hash theirs2.signature) _
                (λ _ valid.
                  persist_install-MayInstall u.params.initiator_xpub p f theirs mine2.signature
                    theirs2.signature (send_data_persisted e s coder u) conditioned
                    (computed, valid) (tt, λ _. tt)),
        ),
      ))

  responding-AllYields :
      (theirs : Option String)
      → AllYields (MayInstall u.params.initiator_xpub) (responding e s coder u theirs)
  unfolding responding Multisig.set_signatures
  responding-AllYields theirs = attempt-AllYields _ (prepare_install e s coder u) _ (λ p prepared.
      attempt-AllYields _ (check e s coder u u.params.initiator_xpub p.hash theirs) _ (λ _ valid. (
        tt,
        λ mine. (
          (p, mine.signature, theirs, (prepared, valid), refl, refl),
          λ _. responding_free_balance-MayInstall p mine theirs (prepared, valid),
        ),
      )))

  -- Whatever the initiating side of an installation is answered, it persists the conditional
  -- transaction only with a signature of it that is valid for the responder, and the new free balance
  -- and the channel with the app only with one of each; its own signature stands first.
  pub initiating-MayInstall :
      (replies : List Reply)
      → AllOpcodes
          (MayInstall u.params.responder_xpub)
          (run_protocol scripted (initiating e s coder u) (replies, [])).1.1
  initiating-MayInstall replies =
      run_protocol-AllYields _ (initiating e s coder u) (replies, []) initiating-AllYields tt

  -- Whatever signature the responding side of an installation receives, and whatever it is answered,
  -- it persists the conditional transaction only with a signature of it that is valid for the
  -- initiator, and the new free balance and the channel with the app only with one of each; its own
  -- signature stands first.
  pub responding-MayInstall :
      (theirs : Option String) (replies : List Reply)
      → AllOpcodes
          (MayInstall u.params.initiator_xpub)
          (run_protocol scripted (responding e s coder u theirs) (replies, [])).1.1
  responding-MayInstall theirs replies =
      run_protocol-AllYields _ (responding e s coder u theirs) (replies, [])
        (responding-AllYields theirs) tt
