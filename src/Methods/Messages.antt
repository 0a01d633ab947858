-- ===== src/Methods/Messages.antt =====
-- modules/cf-core/src/message-handling/handle-protocol-message.ts, with the choice of a protocol and its
-- step: runProtocolWithMessage of machine/protocol-runner.ts and protocol/get-protocol-from-name.ts.
pub mod Forged
use text.Mathlib.Text.{find?}
use indra.Prelude.{
  String, str_eq, ℕ, ℤ, pos, eqb_ℤ, Option, none, some, is_some, List, Result, ok, err,
  if◌then◌else◌,
}
use indra.States.{AppState}
use indra.AppInstance.{identity_hash}
use indra.StateChannel.Channel.{StateChannel, AppInstanceProposal, multisig_owners}
use indra.StateChannel.Queries.{
  most_recently_proposed_app_instance, most_recently_installed_app_instance,
}
use indra.StateChannel.Updates.{remove_proposal}
use indra.Machine.{Process, thrown}
use indra.Protocol.Install.{InstallParams}
use indra.Protocol.Install.Exchange as InstallExchange
use indra.Protocol.Install.Exchange.{Install}
use indra.Protocol.Exchange.{Exchange, initiating, responding, unassigned_seq_no}
use indra.Protocol.Propose.{Propose, propose_exchange}
use indra.Protocol.Uninstall.{Uninstall, uninstall_exchange}
use indra.Protocol.Update.{Update, update, take_action, update_exchange}
use indra.Protocol.Setup.{Setup, setup_exchange}
use indra.Store.Persist.{get_state_channel, remove_app_proposal}
use indra.Store.Lookup.{
  get_app_instance_proposal, get_state_channel_from_app_instance_id, get_app_instance_of,
}
use indra.Methods.Request.{Request, ◌>>=◌, ◌>>◌, lift, ask, RequestHandler, run, save}

-- The parameters of a message, by the protocol that it names.
pub data ProtocolParam : Type 0 where
  setup : (multisig_address initiator_xpub responder_xpub : String) → ProtocolParam
  propose : (multisig_address : String) (params : Propose) → ProtocolParam
  install : (multisig_address : String) (params : InstallParams) → ProtocolParam
  uninstall :
      (multisig_address initiator_xpub responder_xpub app_identity_hash : String)
      (block_number : Option ℕ)
      → ProtocolParam
  update_state :
      (multisig_address initiator_xpub responder_xpub app_identity_hash : String)
      (new_state : AppState)
      → ProtocolParam
  take_action_on :
      (multisig_address initiator_xpub responder_xpub app_identity_hash : String) (action : String)
      → ProtocolParam
  unknown : (protocol : String) → ProtocolParam

-- A message of a protocol; its signature is in `customData`.
pub record ProtocolMessage : Type 0 where
  pub process_id : String
  pub seq : ℤ
  pub params : ProtocolParam
  pub signature : Option String

-- What a node emits when it has handled a message. Of the parameters of a proposal the address of the
-- channel and the two identifiers are not emitted.
pub data EventData : Type 0 where
  proposed : (proposed_to_identifier : String) (params : Propose) (id : String) → EventData
  installed : (id : String) → EventData
  uninstalled : (id : String) → EventData
  channel_created :
      (multisig_address : String) (owners : List String) (counterparty_xpub : String) → EventData
  state_updated : (new_state : AppState) (id : String) (action : Option String) → EventData

pub record EventEmittedMessage : Type 0 where
  pub from : String
  pub event_data : EventData

module _ {W : Type 0} (h : RequestHandler W) where
  -- The step of a number of a protocol: there are two.
  abbrev pub step_of : ℤ → Process → Process → Process
  step_of seq first second =
      if eqb_ℤ seq (pos 0)
      then first
      else if eqb_ℤ seq (pos 1)
      then second
      else thrown "Received invalid seq"

  abbrev pub exchange_step : {P : Type 0} → ProtocolMessage → Exchange P → Process
  unfolding initiating responding
  exchange_step msg x =
      step_of msg.seq (initiating h.ethers h.signing x)
        (responding h.ethers h.signing x msg.signature)

  abbrev pub update_of : ProtocolMessage → Result StateChannel → String → String → String → Update
  update_of msg pre initiator_xpub responder_xpub id = record {
    protocol = "";
    process_id = msg.process_id;
    app_identity_hash = id;
    initiator_xpub = initiator_xpub;
    responder_xpub = responder_xpub;
    challenge_registry = h.network.challenge_registry;
    pre_channel = pre;
    new_state = λ app. ok app.latest_state;
  }

  abbrev pub install_of : ProtocolMessage → Result StateChannel → InstallParams → Install
  install_of msg pre params = record {
    process_id = msg.process_id;
    params = params;
    network = h.network;
    pre_channel = pre;
  }

  abbrev pub setup_of : ProtocolMessage → String → String → String → Setup
  setup_of msg multisig_address initiator_xpub responder_xpub = record {
    process_id = msg.process_id;
    multisig_address = multisig_address;
    initiator_xpub = initiator_xpub;
    responder_xpub = responder_xpub;
    network = h.network;
  }

  abbrev pub propose_of : ProtocolMessage → Result StateChannel → Propose → Propose
  propose_of msg pre params = record params {
    process_id = msg.process_id;
    challenge_registry = h.network.challenge_registry;
    pre_channel = pre;
  }

  abbrev pub uninstall_of :
      ProtocolMessage → Result StateChannel → String → String → String → Option ℕ → Uninstall
  uninstall_of msg pre initiator_xpub responder_xpub id block = record {
    process_id = msg.process_id;
    app_identity_hash = id;
    initiator_xpub = initiator_xpub;
    responder_xpub = responder_xpub;
    block_number_to_use_if_necessary = block;
    challenge_registry = h.network.challenge_registry;
    pre_channel = pre;
  }

  -- `getProtocolFromName(msg.protocol)[msg.seq]`, with the channel of the store.
  unfoldable pub protocol_step :
      ProtocolMessage → (String → Result StateChannel) → ProtocolParam → Process
  unfolding exchange_step setup_exchange propose_exchange uninstall_exchange update_exchange
      InstallExchange.initiating InstallExchange.responding
  protocol_step msg stored (setup m from to) =
      exchange_step msg (setup_exchange h.ethers h.signing (setup_of msg m from to))
  protocol_step msg stored (propose m params) =
      exchange_step msg (propose_exchange h.ethers h.signing (propose_of msg (stored m) params))
  protocol_step msg stored (install m params) =
      step_of msg.seq
        (InstallExchange.initiating h.ethers h.signing h.coder (install_of msg (stored m) params))
        (InstallExchange.responding h.ethers h.signing h.coder (install_of msg (stored m) params)
          msg.signature)
  protocol_step msg stored (uninstall m from to id block) = exchange_step msg (
      uninstall_exchange h.ethers h.signing h.decoder h.chain
        (uninstall_of msg (stored m) from to id block))
  protocol_step msg stored (update_state m from to id new_state) =
      exchange_step msg (
        update_exchange h.ethers h.signing (update (update_of msg (stored m) from to id) new_state))
  protocol_step msg stored (take_action_on m from to id action) = exchange_step msg (
      update_exchange h.ethers h.signing
        (take_action (update_of msg (stored m) from to id) h.compute_state_transition action))
  protocol_step msg stored (unknown protocol) = thrown "Received invalid protocol type"

  unfoldable pub run_protocol_with_message : ProtocolMessage → Request W (Unit {0})
  unfolding protocol_step get_state_channel
  run_protocol_with_message msg w =
      run h (protocol_step msg (get_state_channel h.ethers h.svc w.store) msg.params) w

  abbrev pub stored_channel : String → Request W StateChannel
  stored_channel m = ask (λ w. get_state_channel h.ethers h.svc w m)

  abbrev pub emitted : String → EventData → Request W EventEmittedMessage
  emitted from event_data = lift (ok (record { from = from; event_data = event_data }))

  abbrev pub state_update_event : String → String → Option String → Request W EventEmittedMessage
  unfolding get_app_instance_of
  state_update_event from id action = do
    app ← ask (λ w. get_app_instance_of h.ethers h.svc h.search w id)
    emitted from (state_updated app.latest_state id action)

  -- `getOutgoingEventDataFromProtocol`
  unfoldable pub outgoing_event : ProtocolParam → Request W EventEmittedMessage
  unfolding most_recently_proposed_app_instance most_recently_installed_app_instance identity_hash
      multisig_owners state_update_event get_state_channel
  outgoing_event (propose m params) = do
    ch ← stored_channel m
    p ← lift (most_recently_proposed_app_instance ch)
    emitted params.initiator_xpub (proposed params.responder_xpub params p.identity_hash)
  outgoing_event (install m params) = do
    ch ← stored_channel m
    app ← lift (most_recently_installed_app_instance ch)
    emitted params.initiator_xpub (installed (identity_hash h.ethers app))
  outgoing_event (uninstall m from to id block) = emitted from (uninstalled id)
  outgoing_event (setup m from to) = do
    ch ← stored_channel m
    emitted from (channel_created m (multisig_owners h.ethers ch) from)
  outgoing_event (take_action_on m from to id action) = state_update_event from id (some action)
  outgoing_event (update_state m from to id new_state) = state_update_event from id none
  outgoing_event (unknown protocol) =
      lift (err "handleReceivedProtocolMessage received invalid protocol message")

  -- The proposal of an installed app, if the store still has it.
  abbrev pub remove_proposal_of : String → Result AppInstanceProposal → Request W (Unit {0})
  unfolding get_state_channel_from_app_instance_id remove_proposal remove_app_proposal
  remove_proposal_of id (ok p) = do
    ch ← ask (λ w. get_state_channel_from_app_instance_id h.ethers h.svc h.search w id)
    without ← lift (remove_proposal ch p.identity_hash)
    save (λ w. remove_app_proposal h.ethers h.svc w without p)
  remove_proposal_of id (err message) =
      if is_some (find? "No proposed AppInstance exists for the given appInstanceId" message)
      then lift (ok tt)
      else lift (err message)

  abbrev pub after_install : EventData → Request W (Unit {0})
  unfolding get_app_instance_proposal remove_proposal_of
  after_install (installed id) w =
      if str_eq id ""
      then (ok tt, w)
      else remove_proposal_of id (get_app_instance_proposal h.ethers h.svc h.search w.store id) w
  after_install (proposed to params id) w = (ok tt, w)
  after_install (uninstalled id) w = (ok tt, w)
  after_install (channel_created m owners xpub) w = (ok tt, w)
  after_install (state_updated new_state id action) w = (ok tt, w)

  -- With the event that is emitted; a message that some step waits for is not for this function.
  unfoldable pub handle_received_protocol_message :
      ProtocolMessage → Request W (Option EventEmittedMessage)
  unfolding run_protocol_with_message outgoing_event after_install
  handle_received_protocol_message msg =
      if eqb_ℤ msg.seq unassigned_seq_no then lift (ok none) else (do
        run_protocol_with_message msg
        event ← outgoing_event msg.params
        after_install event.event_data
        lift (ok (some event)))
