-- ===== src/Protocol/Uninstall.antt =====
-- modules/cf-core/src/protocol/uninstall.ts: the computation of the new channel and the two sides.
pub mod Signed
pub mod Lifecycle
use indra.Prelude.{String, ℕ, Option, none, some, false, List, [], ◌∷◌, Result, ok, err, ◌>>=◌}
use indra.Ethers.{Ethers}
use indra.AppInstance.{AppInstance}
use indra.StateChannel.Channel.{StateChannel, get_app_instance, free_balance}
use indra.StateChannel.Updates.{uninstall_app}
use indra.Commitment.{
  Signing, SetStateCommitment, committed_app, get_set_state_commitment, hash_to_sign,
  set_signatures,
}
use indra.Machine.{Opcode, set_state, uninstall}
use indra.Protocol.Exchange.{Exchange}
use indra.Protocol.Outcome.{Decoder, Chain, compute_token_indexed_free_balance_increments}

-- `computeStateTransition`: the outcome is never overridden.
unfoldable pub compute_state_transition :
    Ethers → Decoder → Chain → StateChannel → AppInstance → Option ℕ → Result StateChannel
compute_state_transition e d chain ch app block = do
  increments ← compute_token_indexed_free_balance_increments d chain app "" block
  uninstall_app e ch app increments

-- What the protocol reads of its parameters, of the message and of the context.
pub record Uninstall : Type 0 where
  pub process_id : String
  pub app_identity_hash : String
  pub initiator_xpub : String
  pub responder_xpub : String
  pub block_number_to_use_if_necessary : Option ℕ
  pub challenge_registry : String
  pub pre_channel : Result StateChannel

-- What both sides compute before they sign: the new free balance is what is signed.
pub record Uninstalled : Type 0 where
  pub post_channel : StateChannel
  pub app : AppInstance
  pub commitment : SetStateCommitment
  pub hash : String

unfoldable pub prepare_uninstall :
    Ethers → Signing → Decoder → Chain → Uninstall → Result Uninstalled
unfolding compute_state_transition committed_app get_set_state_commitment hash_to_sign
prepare_uninstall e s d chain u = do
  pre ← u.pre_channel
  app ← get_app_instance e pre u.app_identity_hash
  post ← compute_state_transition e d chain pre app u.block_number_to_use_if_necessary
  fb ← free_balance post
  let commitment = get_set_state_commitment e u.challenge_registry (committed_app s fb)
  ok (record {
    post_channel = post;
    app = app;
    commitment = commitment;
    hash = hash_to_sign e s commitment;
  })

-- Each side puts its own signature first.
unfoldable pub persist_uninstall :
    Uninstall → Uninstalled → Option String → Option String → Result (List Opcode)
unfolding set_signatures
persist_uninstall u p mine theirs = do
  commitment ← set_signatures p.commitment (mine ∷ theirs ∷ [])
  ok (
      Opcode.persist_commitment (set_state commitment) u.app_identity_hash
      ∷ Opcode.persist_app_instance p.post_channel (uninstall p.app)
      ∷ [])

unfoldable pub uninstall_exchange :
    Ethers → Signing → Decoder → Chain → Uninstall → Exchange Uninstalled
unfolding prepare_uninstall persist_uninstall
uninstall_exchange e s d chain u = record {
  protocol = "uninstall";
  process_id = u.process_id;
  initiator_xpub = u.initiator_xpub;
  responder_xpub = u.responder_xpub;
  initiator_prepares = prepare_uninstall e s d chain u;
  responder_prepares = prepare_uninstall e s d chain u;
  hash = λ p. p.hash;
  signing_index = λ p. some p.app.app_seq_no;
  key_index = λ p. p.app.app_seq_no;
  initiator_persists = λ p mine theirs. persist_uninstall u p mine theirs;
  responder_persists = λ p mine theirs. persist_uninstall u p mine theirs;
  answers_first = false;
}
