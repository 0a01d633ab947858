-- ===== src/Methods/Initiate.antt =====
-- `initiateProtocol` and `runSetupProtocol` of modules/cf-core/src/machine/protocol-runner.ts: the
-- first step of a protocol, which reads the channel of its parameters from the store. The functions
-- take the parameters of their protocol.
use indra.Prelude.{String, ℕ, Option, ok}
use indra.States.{AppState}
use indra.Protocol.Install.{InstallParams}
use indra.Protocol.Install.Exchange.{initiating as initiating_install}
use indra.Protocol.Exchange.{initiating}
use indra.Protocol.Propose.{Propose, propose_exchange}
use indra.Protocol.Uninstall.{uninstall_exchange}
use indra.Protocol.Update.{Update, update, take_action, update_exchange}
use indra.Protocol.Setup.{setup_exchange}
use indra.Store.Persist.{get_state_channel}
use indra.Methods.Request.{Request, ◌>>=◌, ask, RequestHandler, run}

module _ {W : Type 0} (h : RequestHandler W) where
  unfoldable pub initiate_install : String → InstallParams → Request W (Unit {0})
  unfolding get_state_channel initiating_install
  initiate_install multisig_address params = do
    pre ← ask (λ w. ok (get_state_channel h.ethers h.svc w multisig_address))
    run h (
        initiating_install h.ethers h.signing h.coder (record {
          process_id = h.process_id;
          params = params;
          network = h.network;
          pre_channel = pre;
        }))

  -- The channel and the node's own constants are filled in here.
  unfoldable pub initiate_propose : String → Propose → Request W (Unit {0})
  unfolding get_state_channel initiating propose_exchange
  initiate_propose multisig_address u = do
    pre ← ask (λ w. ok (get_state_channel h.ethers h.svc w multisig_address))
    run h (
        initiating h.ethers h.signing (
          propose_exchange h.ethers h.signing (record u {
            process_id = h.process_id;
            challenge_registry = h.network.challenge_registry;
            pre_channel = pre;
          })))

  unfoldable pub initiate_uninstall : String → String → String → Option ℕ → Request W (Unit {0})
  unfolding get_state_channel initiating uninstall_exchange
  initiate_uninstall responder_xpub multisig_address app_identity_hash block = do
    pre ← ask (λ w. ok (get_state_channel h.ethers h.svc w multisig_address))
    run h (
        initiating h.ethers h.signing (
          uninstall_exchange h.ethers h.signing h.decoder h.chain (record {
            process_id = h.process_id;
            app_identity_hash = app_identity_hash;
            initiator_xpub = h.public_identifier;
            responder_xpub = responder_xpub;
            block_number_to_use_if_necessary = block;
            challenge_registry = h.network.challenge_registry;
            pre_channel = pre;
          })))

  -- The two protocols that give an app a new state.
  unfoldable pub initiate_update :
      (Update → Update) → String → String → String → Request W (Unit {0})
  unfolding get_state_channel initiating update_exchange
  initiate_update of_kind responder_xpub multisig_address app_identity_hash = do
    pre ← ask (λ w. ok (get_state_channel h.ethers h.svc w multisig_address))
    run h (
        initiating h.ethers h.signing (
          update_exchange h.ethers h.signing (
            of_kind (record {
              protocol = "";
              process_id = h.process_id;
              app_identity_hash = app_identity_hash;
              initiator_xpub = h.public_identifier;
              responder_xpub = responder_xpub;
              challenge_registry = h.network.challenge_registry;
              pre_channel = pre;
              new_state = λ app. ok app.latest_state;
            }))))

  unfoldable pub initiate_take_action : String → String → String → String → Request W (Unit {0})
  unfolding initiate_update
  initiate_take_action responder_xpub multisig_address app_identity_hash action =
      initiate_update (λ u. take_action u h.compute_state_transition action) responder_xpub
        multisig_address app_identity_hash

  unfoldable pub initiate_update_state : String → String → String → AppState → Request W (Unit {0})
  unfolding initiate_update
  initiate_update_state responder_xpub multisig_address app_identity_hash new_state =
      initiate_update (λ u. update u new_state) responder_xpub multisig_address app_identity_hash

  unfoldable pub run_setup_protocol : String → String → Request W (Unit {0})
  unfolding initiating setup_exchange
  run_setup_protocol responder_xpub multisig_address = run h (
      initiating h.ethers h.signing (
        setup_exchange h.ethers h.signing (record {
          process_id = h.process_id;
          multisig_address = multisig_address;
          initiator_xpub = h.public_identifier;
          responder_xpub = responder_xpub;
          network = h.network;
        })))
