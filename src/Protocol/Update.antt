-- ===== src/Protocol/Update.antt =====
-- modules/cf-core/src/protocol/update.ts and take-action.ts: two parties sign the next state of an app
-- and persist it. The two protocols differ in how the new state is found.
pub mod Persisted
use indra.Prelude.{String, false, Option, some, List, [], ◌∷◌, Result, ok, err, ◌>>=◌}
use indra.States.{AppState}
use indra.Ethers.{Ethers}
use indra.AppInstance.{AppInstance}
use indra.StateChannel.Channel.{StateChannel, get_app_instance}
use indra.StateChannel.Updates.{set_app_state}
use indra.Commitment.{
  Signing, SetStateCommitment, committed_app, get_set_state_commitment, hash_to_sign,
  set_signatures,
}
use indra.Machine.{Opcode, set_state, app_instance}
use indra.Protocol.Exchange.{Exchange}

-- What the protocols read of their parameters, of the message and of the context.
pub record Update : Type 0 where
  pub protocol : String
  pub process_id : String
  pub app_identity_hash : String
  pub initiator_xpub : String
  pub responder_xpub : String
  pub challenge_registry : String
  pub pre_channel : Result StateChannel
  pub new_state : AppInstance → Result AppState

-- What both sides compute before they sign.
pub record Prepared : Type 0 where
  pub post_channel : StateChannel
  pub app : AppInstance
  pub commitment : SetStateCommitment
  pub hash : String

unfoldable pub prepare : Ethers → Signing → Update → Result Prepared
unfolding committed_app get_set_state_commitment hash_to_sign
prepare e s u = do
  pre ← u.pre_channel
  pre_app ← get_app_instance e pre u.app_identity_hash
  state ← u.new_state pre_app
  post ← set_app_state e pre pre_app state
  app ← get_app_instance e post u.app_identity_hash
  let commitment = get_set_state_commitment e u.challenge_registry (committed_app s app)
  ok (record {
    post_channel = post;
    app = app;
    commitment = commitment;
    hash = hash_to_sign e s commitment;
  })

-- The commitment with the initiator's signature first, and the channel.
unfoldable pub persist_update :
    Update → Prepared → Option String → Option String → Result (List Opcode)
unfolding set_signatures
persist_update u p initiator responder = do
  commitment ← set_signatures p.commitment (initiator ∷ responder ∷ [])
  ok (
      Opcode.persist_commitment (set_state commitment) u.app_identity_hash
      ∷ Opcode.persist_app_instance p.post_channel (app_instance p.app)
      ∷ [])

unfoldable pub update_exchange : Ethers → Signing → Update → Exchange Prepared
unfolding prepare persist_update
update_exchange e s u = record {
  protocol = u.protocol;
  process_id = u.process_id;
  initiator_xpub = u.initiator_xpub;
  responder_xpub = u.responder_xpub;
  initiator_prepares = prepare e s u;
  responder_prepares = prepare e s u;
  hash = λ p. p.hash;
  signing_index = λ p. some p.app.app_seq_no;
  key_index = λ p. p.app.app_seq_no;
  initiator_persists = λ p mine theirs. persist_update u p mine theirs;
  responder_persists = λ p mine theirs. persist_update u p theirs mine;
  answers_first = false;
}

-- The update protocol: the new state is a parameter of the protocol.
abbrev pub update : Update → AppState → Update
update u state = record u { protocol = "update"; new_state = λ app. ok state }

-- The take-action protocol: the new state is what the app's contract makes of the action.
abbrev pub take_action : Update → (AppInstance → String → Result AppState) → String → Update
take_action u compute_state_transition action = record u {
  protocol = "takeAction";
  new_state = λ app. compute_state_transition app action;
}
