-- ===== src/Methods/Install.antt =====
-- modules/cf-core/src/methods/app-instance/install.ts, propose-install.ts and reject-install.ts, and
-- message-handling/handle-node-message.ts: what becomes of a proposal.
pub mod Deposits
pub mod Rejected
pub mod Installed
use indra.Prelude.{
  String, str_eq, ℤ, Bool, not, is_some, Option, none, some, List, [], ◌∷◌, Result, ok, err,
  if◌then◌else◌, or_throw,
}
use indra.States.{AppState, opaque_state}
use indra.AppInstance
use indra.AppInstance.{AppInstanceJson, OutcomeType}
use indra.FreeBalance.{convention_for_eth_token_address}
use indra.StateChannel.Channel.{AppInstanceProposal, or_own_text}
use indra.StateChannel.Queries.{most_recently_proposed_app_instance}
use indra.StateChannel.Updates.{remove_proposal}
use indra.Store.Persist.{get_state_channel, remove_app_proposal}
use indra.Store.Lookup.{
  get_app_instance_proposal, get_state_channel_from_app_instance_id, get_app_instance_of,
  get_multisig_address_with_counterparty,
}
use indra.Methods.Params.{is_blank, install_params}
use indra.Methods.Request.{
  Request, ◌>>=◌, ◌>>◌, lift, check, ask, save, RequestHandler, Controller, execute_method,
}
use indra.Methods.Initiate.{initiate_install, initiate_propose}

-- `MethodParams.ProposeInstall`
pub record ProposeInstallParams : Type 0 where
  pub app_definition : String
  pub abi_encodings : String × Option String
  pub initiator_deposit : ℤ
  pub initiator_deposit_token_address : Option String
  pub responder_deposit : ℤ
  pub responder_deposit_token_address : Option String
  pub timeout : ℤ
  pub initial_state : Option AppState
  pub outcome_type : OutcomeType
  pub proposed_to_identifier : String
  pub meta : Option String

-- A message to the other node: that a proposal is rejected.
pub record RejectProposalMessage : Type 0 where
  pub to : String
  pub from : String
  pub app_instance_id : String

module _ {W : Type 0} (h : RequestHandler W) where
  -- The removal of a proposal, from the channel that was read and from the store.
  unfoldable pub drop_proposal : String → AppInstanceProposal → Request W (Unit {0})
  unfolding get_state_channel_from_app_instance_id remove_proposal remove_app_proposal
  drop_proposal id p = do
    ch ← ask (λ w. get_state_channel_from_app_instance_id h.ethers h.svc h.search w id)
    without ← lift (remove_proposal ch id)
    save (λ w. remove_app_proposal h.ethers h.svc w without p)

  -- `install`: the proposal is removed from the channel as it was before the protocol.
  unfoldable pub install : String → Request W AppInstanceProposal
  unfolding is_blank get_app_instance_proposal get_state_channel_from_app_instance_id install_params
      initiate_install remove_proposal remove_app_proposal
  install id = do
    check (is_blank id) "No AppInstanceId specified to install"
    p ← ask (λ w. get_app_instance_proposal h.ethers h.svc h.search w id)
    ch ← ask (λ w. get_state_channel_from_app_instance_id h.ethers h.svc h.search w id)
    params ← lift (install_params h.ethers h.public_identifier ch p)
    initiate_install h ch.multisig_address params
    without ← lift (remove_proposal ch id)
    save (λ w. remove_app_proposal h.ethers h.svc w without p)
    lift (ok p)

  unfoldable pub install_controller : Controller W String AppInstanceJson
  unfolding get_state_channel_from_app_instance_id install get_app_instance_of AppInstance.to_json
  install_controller = record {
    before_execution = λ id. lift (ok id);
    get_required_lock_names = λ id. do
      sc ← ask (λ w. get_state_channel_from_app_instance_id h.ethers h.svc h.search w id)
      lift (ok (sc.multisig_address ∷ []));
    execute_method_implementation = λ id. do
      p ← install id
      app ← ask (λ w. get_app_instance_of h.ethers h.svc h.search w p.identity_hash)
      lift (ok (AppInstance.to_json h.ethers app));
    after_execution = λ id. lift (ok tt);
  }

  abbrev pub multisig_with : String → Request W String
  unfolding get_multisig_address_with_counterparty
  multisig_with xpub = ask (λ w.
      get_multisig_address_with_counterparty h.ethers h.svc h.search w
        (h.public_identifier ∷ xpub ∷ []) h.create2_multisig_address)

  -- A token that is not given is ETH.
  abbrev pub token_or_eth : Option String → Option String
  token_or_eth token = some (or_own_text token convention_for_eth_token_address)

  unfoldable pub propose_install_controller : Controller W ProposeInstallParams String
  unfolding initiate_propose get_state_channel most_recently_proposed_app_instance
  propose_install_controller = record {
    before_execution = λ params. do
      check (not (is_some params.initial_state))
          "A proposed AppInstance cannot have an empty initial state"
      lift (
          ok (record params {
            initiator_deposit_token_address = token_or_eth params.initiator_deposit_token_address;
            responder_deposit_token_address = token_or_eth params.responder_deposit_token_address;
          }));
    get_required_lock_names = λ params. do
      m ← multisig_with params.proposed_to_identifier
      lift (ok (m ∷ []));
    execute_method_implementation = λ params. do
      m ← multisig_with params.proposed_to_identifier
      state ← lift (or_throw params.initial_state "unreachable")
      initiate_propose h m (record {
        process_id = h.process_id;
        initiator_xpub = h.public_identifier;
        responder_xpub = params.proposed_to_identifier;
        app_definition = params.app_definition;
        abi_encodings = params.abi_encodings;
        initiator_deposit = params.initiator_deposit;
        initiator_deposit_token_address = params.initiator_deposit_token_address;
        responder_deposit = params.responder_deposit;
        responder_deposit_token_address = params.responder_deposit_token_address;
        timeout = params.timeout;
        initial_state = state;
        outcome_type = params.outcome_type;
        meta = params.meta;
        challenge_registry = h.network.challenge_registry;
        pre_channel = err "";
      })
      sc ← ask (λ w. get_state_channel h.ethers h.svc w m)
      p ← lift (most_recently_proposed_app_instance sc)
      lift (ok p.identity_hash);
    after_execution = λ params. lift (ok tt);
  }

  -- The method is registered with the implementation itself, and so takes no lock.
  unfoldable pub reject_install : String → Request W RejectProposalMessage
  unfolding get_app_instance_proposal drop_proposal
  reject_install id = do
    p ← ask (λ w. get_app_instance_proposal h.ethers h.svc h.search w id)
    drop_proposal id p
    lift (
        ok (record {
          to =
              if str_eq h.public_identifier p.proposed_by_identifier
              then p.proposed_to_identifier
              else p.proposed_by_identifier;
          from = h.public_identifier;
          app_instance_id = id;
        }))

  -- The other node's side of a rejection.
  unfoldable pub handle_reject_proposal_message : RejectProposalMessage → Request W (Unit {0})
  unfolding get_state_channel_from_app_instance_id get_app_instance_proposal remove_proposal
      remove_app_proposal
  handle_reject_proposal_message message = do
    ch ← ask (λ w.
        get_state_channel_from_app_instance_id h.ethers h.svc h.search w message.app_instance_id)
    p ← ask (λ w. get_app_instance_proposal h.ethers h.svc h.search w message.app_instance_id)
    without ← lift (remove_proposal ch message.app_instance_id)
    save (λ w. remove_app_proposal h.ethers h.svc w without p)
