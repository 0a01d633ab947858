-- ===== src/Protocol/Propose.antt =====
-- modules/cf-core/src/protocol/propose.ts: both parties sign the first state of an app that is not
-- installed yet, and keep a proposal of it, each from its own point of view.
pub mod Mirrored
use indra.Prelude.{
  String, ℕ, ◌+◌, ℤ, true, not, Option, none, some, List, [], ◌∷◌, Result, ok, err, ◌>>=◌, ◌>>◌,
  throw_if, or_throw,
}
use indra.States.{AppState}
use indra.Ethers.{Ethers}
use indra.AppInstance.{OutcomeType, app_identity_to_hash}
use indra.FreeBalance.{convention_for_eth_token_address}
use indra.StateChannel.Channel.{
  StateChannel, AppInstanceProposal, get_signing_keys_for, or_own_text,
}
use indra.StateChannel.Updates.{add_proposal}
use indra.Commitment.{
  Signing, AppIdentity, CommittedApp, SetStateCommitment, get_set_state_commitment, hash_to_sign,
  set_signatures,
}
use indra.Machine.{Opcode, set_state, proposal}
use indra.Protocol.Exchange.{Exchange}

-- What the protocol reads of its parameters (ProtocolParams.Propose), of the message and of the
-- context.
pub record Propose : Type 0 where
  pub process_id : String
  pub initiator_xpub : String
  pub responder_xpub : String
  pub app_definition : String
  pub abi_encodings : String × Option String
  pub initiator_deposit : ℤ
  pub initiator_deposit_token_address : Option String
  pub responder_deposit : ℤ
  pub responder_deposit_token_address : Option String
  pub timeout : ℤ
  pub initial_state : AppState
  pub outcome_type : OutcomeType
  pub meta : Option String
  pub challenge_registry : String
  pub pre_channel : Result StateChannel

-- What a side computes before it signs.
pub record Proposed : Type 0 where
  pub post_channel : StateChannel
  pub app_proposal : AppInstanceProposal
  pub commitment : SetStateCommitment
  pub hash : String

-- The identity of the next app of the channel.
unfoldable pub next_identity : Ethers → StateChannel → AppIdentity
unfolding get_signing_keys_for
next_identity e pre = record {
  channel_nonce = pre.monotonic_num_proposed_apps + 1;
  participants = get_signing_keys_for e pre (pre.monotonic_num_proposed_apps + 1);
}

unfoldable pub initiator_proposal : Ethers → Propose → StateChannel → AppInstanceProposal
unfolding next_identity app_identity_to_hash
initiator_proposal e u pre = record {
  identity_hash =
      app_identity_to_hash e (next_identity e pre).channel_nonce (next_identity e pre).participants;
  app_definition = u.app_definition;
  abi_encodings = u.abi_encodings;
  initiator_deposit = e.to_hex_string u.initiator_deposit;
  initiator_deposit_token_address =
      or_own_text u.initiator_deposit_token_address convention_for_eth_token_address;
  responder_deposit = e.to_hex_string u.responder_deposit;
  responder_deposit_token_address =
      or_own_text u.responder_deposit_token_address convention_for_eth_token_address;
  timeout = e.to_hex_string u.timeout;
  initial_state = u.initial_state;
  app_seq_no = pre.monotonic_num_proposed_apps + 1;
  proposed_by_identifier = u.initiator_xpub;
  proposed_to_identifier = u.responder_xpub;
  outcome_type = u.outcome_type;
  meta = u.meta;
}

unfoldable pub responder_proposal : Ethers → Propose → StateChannel → AppInstanceProposal
unfolding next_identity app_identity_to_hash
responder_proposal e u pre = record {
  identity_hash =
      app_identity_to_hash e (next_identity e pre).channel_nonce (next_identity e pre).participants;
  app_definition = u.app_definition;
  abi_encodings = u.abi_encodings;
  initiator_deposit = e.to_hex_string u.responder_deposit;
  initiator_deposit_token_address =
      or_own_text u.responder_deposit_token_address convention_for_eth_token_address;
  responder_deposit = e.to_hex_string u.initiator_deposit;
  responder_deposit_token_address =
      or_own_text u.initiator_deposit_token_address convention_for_eth_token_address;
  timeout = e.to_hex_string u.timeout;
  initial_state = u.initial_state;
  app_seq_no = pre.monotonic_num_proposed_apps + 1;
  proposed_by_identifier = u.initiator_xpub;
  proposed_to_identifier = u.responder_xpub;
  outcome_type = u.outcome_type;
  meta = u.meta;
}

-- The first state of the app, in the form that a commitment reads.
unfoldable pub proposed_app_instance :
    Ethers → Signing → Propose → StateChannel → ℕ → Result CommittedApp
unfolding next_identity
proposed_app_instance e s u pre timeout = do
  throw_if (not (e.encodes u.abi_encodings.0 u.initial_state)) "invalid initial state"
  ok (record {
    identity = next_identity e pre;
    hash_of_latest_state = s.state_hash u.abi_encodings.0 u.initial_state;
    version_number = 0;
    timeout = timeout;
  })

unfoldable pub initiator_prepares : Ethers → Signing → Propose → Result Proposed
unfolding initiator_proposal add_proposal proposed_app_instance get_set_state_commitment
    hash_to_sign
initiator_prepares e s u = do
  pre ← u.pre_channel
  timeout ← or_throw (e.to_number u.timeout) "overflow"
  post ← add_proposal pre (initiator_proposal e u pre)
  app ← proposed_app_instance e s u pre timeout
  let commitment = get_set_state_commitment e u.challenge_registry app
  ok (record {
    post_channel = post;
    app_proposal = initiator_proposal e u pre;
    commitment = commitment;
    hash = hash_to_sign e s commitment;
  })

unfoldable pub responder_prepares : Ethers → Signing → Propose → Result Proposed
unfolding responder_proposal add_proposal proposed_app_instance get_set_state_commitment
    hash_to_sign
responder_prepares e s u = do
  pre ← u.pre_channel
  timeout ← or_throw (e.to_number u.timeout) "overflow"
  app ← proposed_app_instance e s u pre timeout
  let commitment = get_set_state_commitment e u.challenge_registry app
  post ← add_proposal pre (responder_proposal e u pre)
  ok (record {
    post_channel = post;
    app_proposal = responder_proposal e u pre;
    commitment = commitment;
    hash = hash_to_sign e s commitment;
  })

-- The proposal in its channel, and then the commitment with the initiator's signature first.
unfoldable pub persist_proposal : Proposed → Option String → Option String → Result (List Opcode)
unfolding set_signatures
persist_proposal p initiator responder = do
  commitment ← set_signatures p.commitment (initiator ∷ responder ∷ [])
  ok (
      Opcode.persist_app_instance p.post_channel (proposal p.app_proposal)
      ∷ Opcode.persist_commitment (set_state commitment) p.app_proposal.identity_hash
      ∷ [])

unfoldable pub propose_exchange : Ethers → Signing → Propose → Exchange Proposed
unfolding initiator_prepares responder_prepares persist_proposal
propose_exchange e s u = record {
  protocol = "propose";
  process_id = u.process_id;
  initiator_xpub = u.initiator_xpub;
  responder_xpub = u.responder_xpub;
  initiator_prepares = initiator_prepares e s u;
  responder_prepares = responder_prepares e s u;
  hash = λ p. p.hash;
  signing_index = λ p. some p.app_proposal.app_seq_no;
  key_index = λ p. p.app_proposal.app_seq_no;
  initiator_persists = λ p mine theirs. persist_proposal p mine theirs;
  responder_persists = λ p mine theirs. persist_proposal p theirs mine;
  answers_first = true;
}
