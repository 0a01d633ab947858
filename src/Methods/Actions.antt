-- ===== src/Methods/Actions.antt =====
-- modules/cf-core/src/methods/app-instance/take-action.ts and update-state.ts.
use text.Mathlib.Text.{find?}
use indra.Prelude.{String, str_eq, is_some, [], ◌∷◌, Result, ok, err, if◌then◌else◌}
use indra.States.{AppState}
use indra.Store.Lookup.{
  get_state_channel_from_app_instance_id, get_app_instance_of,
  get_multisig_address_from_app_instance,
}
use indra.Methods.Params.{first_not_equal_to}
use indra.Methods.Request.{Request, ◌>>=◌, ◌>>◌, lift, check, ask, RequestHandler, Controller}
use indra.Methods.Initiate.{initiate_take_action, initiate_update_state}

-- `MethodParams.TakeAction` and `MethodParams.UpdateState`.
pub record TakeActionParams : Type 0 where
  pub app_instance_id : String
  pub action : String

pub record UpdateStateParams : Type 0 where
  pub app_instance_id : String
  pub new_state : AppState

-- The event that an action leads to.
pub record UpdateStateMessage : Type 0 where
  pub from : String
  pub app_instance_id : String
  pub action : String
  pub new_state : AppState

-- What the handlers make of an error of the encoder, which is given by its code.
abbrev pub encodable : Result String → Result (Unit {0})
encodable (ok encoded) = ok tt
encodable (err code) =
    if str_eq code "INVALID_ARGUMENT"
    then err "Improperly formatted ABIEncoderV2 struct"
    else err "The state object is not encodable by the AppInstance's state encoding"

module _ {W : Type 0} (h : RequestHandler W) where
  -- An error of the protocol, with the text that it is replaced by.
  abbrev pub invalid_action : {A : Type 0} → Result A → Result A
  invalid_action (ok value) = ok value
  invalid_action (err message) =
      if is_some (find? "VM Exception" message)
      then err "Invalid action taken"
      else err "Couldn't run TakeAction protocol"

  unfoldable pub run_take_action_protocol : String → String → String → Request W (Unit {0})
  unfolding get_state_channel_from_app_instance_id initiate_take_action
  run_take_action_protocol id responder_xpub action = do
    ch ← ask (λ w. get_state_channel_from_app_instance_id h.ethers h.svc h.search w id)
    λ w.
        let (outcome, w') = initiate_take_action h responder_xpub ch.multisig_address id action w in
        (invalid_action outcome, w')

  -- The event that `afterExecution` emits.
  unfoldable pub update_state_event : TakeActionParams → Request W UpdateStateMessage
  unfolding get_app_instance_of
  update_state_event params = do
    app ← ask (λ w. get_app_instance_of h.ethers h.svc h.search w params.app_instance_id)
    lift (
        ok (record {
          from = h.public_identifier;
          app_instance_id = params.app_instance_id;
          action = params.action;
          new_state = app.latest_state;
        }))

  unfoldable pub take_action_controller : Controller W TakeActionParams AppState
  unfolding get_multisig_address_from_app_instance get_app_instance_of first_not_equal_to
      get_state_channel_from_app_instance_id run_take_action_protocol update_state_event
  take_action_controller = record {
    before_execution = λ params. do
      check (str_eq params.app_instance_id "") "No AppInstanceId specified to takeAction on"
      app ← ask (λ w. get_app_instance_of h.ethers h.svc h.search w params.app_instance_id)
      lift (encodable (h.encode_action app params.action))
      lift (ok params);
    get_required_lock_names = λ params. do
      m ← ask (λ w.
          get_multisig_address_from_app_instance h.ethers h.svc h.search w params.app_instance_id)
      lift (ok (m ∷ params.app_instance_id ∷ []));
    execute_method_implementation = λ params. do
      sc ← ask (λ w.
          get_state_channel_from_app_instance_id h.ethers h.svc h.search w params.app_instance_id)
      to ← lift (first_not_equal_to h.public_identifier sc.user_neutered_extended_keys)
      run_take_action_protocol params.app_instance_id to params.action
      app ← ask (λ w. get_app_instance_of h.ethers h.svc h.search w params.app_instance_id)
      lift (ok app.latest_state);
    after_execution = λ params. do
      event ← update_state_event params
      lift (ok tt);
  }

  unfoldable pub run_update_state_protocol : String → String → AppState → Request W (Unit {0})
  unfolding get_state_channel_from_app_instance_id initiate_update_state
  run_update_state_protocol id responder_xpub new_state = do
    ch ← ask (λ w. get_state_channel_from_app_instance_id h.ethers h.svc h.search w id)
    initiate_update_state h responder_xpub ch.multisig_address id new_state

  unfoldable pub update_state_controller : Controller W UpdateStateParams AppState
  unfolding get_app_instance_of first_not_equal_to get_state_channel_from_app_instance_id
      run_update_state_protocol
  update_state_controller = record {
    before_execution = λ params. do
      check (str_eq params.app_instance_id "") "No AppInstanceId specified to takeAction on"
      app ← ask (λ w. get_app_instance_of h.ethers h.svc h.search w params.app_instance_id)
      lift (encodable (h.encode_state app params.new_state))
      lift (ok params);
    get_required_lock_names = λ params. lift (ok (params.app_instance_id ∷ []));
    execute_method_implementation = λ params. do
      sc ← ask (λ w.
          get_state_channel_from_app_instance_id h.ethers h.svc h.search w params.app_instance_id)
      to ← lift (first_not_equal_to h.public_identifier sc.user_neutered_extended_keys)
      run_update_state_protocol params.app_instance_id to params.new_state
      lift (ok params.new_state);
    after_execution = λ params. lift (ok tt);
  }
