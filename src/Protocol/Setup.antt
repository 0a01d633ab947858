-- ===== src/Protocol/Setup.antt =====
-- modules/cf-core/src/protocol/setup.ts: a new channel, and the transaction that pays out its free
-- balance.
pub mod Signed
use indra.Prelude.{String, ℕ, Option, none, some, false, List, [], ◌∷◌, Result, ok, err, ◌>>=◌}
use indra.Ethers.{Ethers}
use indra.StateChannel.Channel.{StateChannel}
use indra.StateChannel.Updates.{setup_channel}
use indra.Commitment.{Signing}
use indra.Commitment.Multisig.{
  NetworkContext, MultisigCommitment, set_signatures, hash_to_sign, get_setup_commitment,
  get_signed_transaction,
}
use indra.Machine.{Opcode, setup}
use indra.Protocol.Exchange.{Exchange}

-- What the protocol reads of its parameters, of the message and of the context.
pub record Setup : Type 0 where
  pub process_id : String
  pub multisig_address : String
  pub initiator_xpub : String
  pub responder_xpub : String
  pub network : NetworkContext

-- What both sides compute before they sign.
pub record SetUp : Type 0 where
  pub channel : StateChannel
  pub commitment : MultisigCommitment
  pub hash : String

unfoldable pub prepare_setup : Ethers → Signing → Setup → Result SetUp
unfolding setup_channel get_setup_commitment hash_to_sign
prepare_setup e s u = do
  channel ←
      setup_channel e u.network.identity_app
        (record {
          proxy_factory = u.network.proxy_factory;
          multisig_mastercopy = u.network.minimum_viable_multisig;
        })
        u.multisig_address (u.initiator_xpub ∷ u.responder_xpub ∷ []) none
  commitment ← get_setup_commitment e u.network channel
  ok (record { channel = channel; commitment = commitment; hash = hash_to_sign s commitment })

-- The signed transaction, and then the channel.
unfoldable pub persist_setup :
    Signing → SetUp → Option String → Option String → Result (List Opcode)
unfolding set_signatures get_signed_transaction
persist_setup s p initiator responder = do
  commitment ← set_signatures p.commitment (responder ∷ initiator ∷ [])
  transaction ← get_signed_transaction s commitment
  ok (
      Opcode.persist_commitment (setup transaction) p.channel.multisig_address
      ∷ Opcode.persist_state_channel (p.channel ∷ [])
      ∷ [])

unfoldable pub setup_exchange : Ethers → Signing → Setup → Exchange SetUp
unfolding prepare_setup persist_setup
setup_exchange e s u = record {
  protocol = "setup";
  process_id = u.process_id;
  initiator_xpub = u.initiator_xpub;
  responder_xpub = u.responder_xpub;
  initiator_prepares = prepare_setup e s u;
  responder_prepares = prepare_setup e s u;
  hash = λ p. p.hash;
  signing_index = λ p. none;
  key_index = λ p. 0;
  initiator_persists = λ p mine theirs. persist_setup s p mine theirs;
  responder_persists = λ p mine theirs. persist_setup s p theirs mine;
  answers_first = false;
}
