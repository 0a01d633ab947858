-- ===== src/Protocol/Install/Exchange.antt =====
-- modules/cf-core/src/protocol/install.ts, the two sides of the protocol: both sign the conditional
-- transaction of the new app and then the free balance that has paid for it.
pub mod Signed
pub mod Agreement
use indra.Prelude.{String, ℤ, pos, Option, none, some, List, [], ◌∷◌, Result, ok, err, ◌>>=◌, ◌>>◌}
use indra.Ethers.{Ethers}
use indra.Keys.{xkey_kth_address}
use indra.AppInstance.{AppInstance, identity_hash}
use indra.StateChannel.Channel.{StateChannel, free_balance}
use indra.StateChannel.Queries.{most_recently_installed_app_instance}
use indra.Commitment.{
  Signing, SetStateCommitment, committed_app, get_set_state_commitment, hash_to_sign,
  set_signatures,
}
use indra.Commitment.Multisig
use indra.Commitment.Multisig.{
  NetworkContext, ParamsCoder, MultisigCommitment, get_conditional_transaction_commitment,
}
use indra.Machine.{
  Message, Opcode, Reply, Process, finished, yields, attempt, conditional, set_state, app_instance,
}
use indra.Protocol.Signature.{assert_is_valid_signature}
use indra.Protocol.Exchange.{unassigned_seq_no}
use indra.Protocol.Install.{
  InstallParams, assert_sufficient_funds_within_free_balance, compute_state_channel_transition,
}

-- What the protocol reads of its parameters, of the message and of the context.
pub record Install : Type 0 where
  pub process_id : String
  pub params : InstallParams
  pub network : NetworkContext
  pub pre_channel : Result StateChannel

-- What both sides compute before the first signature.
pub record Installation : Type 0 where
  pub post_channel : StateChannel
  pub app : AppInstance
  pub commitment : MultisigCommitment
  pub hash : String

-- What both sides compute before the second signature.
pub record FreeBalanceUpdate : Type 0 where
  pub fb : AppInstance
  pub commitment : SetStateCommitment
  pub hash : String

unfoldable pub prepare_install : Ethers → Signing → ParamsCoder → Install → Result Installation
unfolding assert_sufficient_funds_within_free_balance compute_state_channel_transition
    most_recently_installed_app_instance get_conditional_transaction_commitment
    Multisig.hash_to_sign
prepare_install e s coder u = do
  pre ← u.pre_channel
  assert_sufficient_funds_within_free_balance e pre u.params.initiator_xpub
      u.params.initiator_deposit_token_address u.params.initiator_balance_decrement
  assert_sufficient_funds_within_free_balance e pre u.params.responder_xpub
      u.params.responder_deposit_token_address u.params.responder_balance_decrement
  post ← compute_state_channel_transition e pre u.params
  app ← most_recently_installed_app_instance post
  commitment ← get_conditional_transaction_commitment e u.network coder post app
  ok (record {
    post_channel = post;
    app = app;
    commitment = commitment;
    hash = Multisig.hash_to_sign s commitment;
  })

unfoldable pub prepare_free_balance_update :
    Ethers → Signing → Install → Installation → Result FreeBalanceUpdate
unfolding committed_app get_set_state_commitment hash_to_sign free_balance
prepare_free_balance_update e s u p = do
  fb ← free_balance p.post_channel
  let commitment = get_set_state_commitment e u.network.challenge_registry (committed_app s fb)
  ok (record { fb = fb; commitment = commitment; hash = hash_to_sign e s commitment })

module _ (e : Ethers) (s : Signing) (coder : ParamsCoder) (u : Install) where
  abbrev message : ℤ → String → Option String → Option String → Message
  message seq to_xpub signature signature2 = record {
    protocol = "install";
    process_id = u.process_id;
    seq = seq;
    to_xpub = to_xpub;
    signature = signature;
    signature2 = signature2;
  }

  -- The check of a signature by the free balance key of a party.
  abbrev pub check : String → String → Option String → Result (Unit {0})
  check xpub hash signature =
      assert_is_valid_signature e s (xkey_kth_address e xpub 0) (some hash) signature

  -- The free balance with both signatures, and then the channel with the app.
  abbrev pub persist_install :
      Installation → FreeBalanceUpdate → SetStateCommitment → Process → Process
  persist_install p f commitment next =
      yields (Opcode.persist_commitment (set_state commitment) (identity_hash e f.fb))
        (λ _. yields (Opcode.persist_app_instance p.post_channel (app_instance p.app)) (λ _. next))

  -- The last message of the initiating side, and that of the responding one: `dataPersisted`.
  abbrev pub send_last_signature : Option String → Process
  send_last_signature signature =
      yields
        (Opcode.io_send_and_wait (message unassigned_seq_no u.params.responder_xpub signature none))
        (λ _. finished)

  abbrev pub send_data_persisted : Process
  send_data_persisted =
      yields (Opcode.io_send (message unassigned_seq_no u.params.initiator_xpub none none))
        (λ _. finished)

  abbrev pub initiating_free_balance : Installation → Reply → Process
  initiating_free_balance p theirs = attempt (prepare_free_balance_update e s u p) (λ f.
      attempt (check u.params.responder_xpub f.hash theirs.signature2) (λ _.
        yields (Opcode.op_sign f.hash none) (λ mine.
          attempt (set_signatures f.commitment (mine.signature ∷ theirs.signature2 ∷ []))
            (λ commitment. persist_install p f commitment (send_last_signature mine.signature)))))

  unfoldable pub initiating : Process
  unfolding Multisig.set_signatures
  initiating = attempt (prepare_install e s coder u) (λ p.
      yields (Opcode.op_sign p.hash none) (λ mine.
        yields
          (Opcode.io_send_and_wait (message (pos 1) u.params.responder_xpub mine.signature none))
          (λ theirs. attempt (check u.params.responder_xpub p.hash theirs.signature) (λ _.
            attempt (Multisig.set_signatures p.commitment (mine.signature ∷ theirs.signature ∷ []))
              (λ commitment.
                yields (Opcode.persist_commitment (conditional commitment) (identity_hash e p.app))
                  (λ _. initiating_free_balance p theirs))))))

  abbrev pub responding_free_balance : Installation → Reply → Process
  responding_free_balance p mine = attempt (prepare_free_balance_update e s u p) (λ f.
      yields (Opcode.op_sign f.hash none) (λ mine2.
        yields
          (Opcode.io_send_and_wait
            (message unassigned_seq_no u.params.initiator_xpub mine.signature mine2.signature))
          (λ theirs2. attempt (check u.params.initiator_xpub f.hash theirs2.signature) (λ _.
            attempt (set_signatures f.commitment (mine2.signature ∷ theirs2.signature ∷ []))
              (λ commitment. persist_install p f commitment send_data_persisted)))))

  unfoldable pub responding : Option String → Process
  unfolding Multisig.set_signatures
  responding theirs = attempt (prepare_install e s coder u) (λ p.
      attempt (check u.params.initiator_xpub p.hash theirs) (λ _.
        yields (Opcode.op_sign p.hash none) (λ mine.
          attempt (Multisig.set_signatures p.commitment (mine.signature ∷ theirs ∷ []))
            (λ commitment.
              yields (Opcode.persist_commitment (conditional commitment) (identity_hash e p.app))
                (λ _. responding_free_balance p mine)))))
