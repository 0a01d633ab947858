-- ===== src/Tests/Handled.antt =====
-- A node that is asked to uninstall an app, and to deposit.
use indra.Prelude.{String, none, ok, pos, ◌≡◌, ◌↔◌, refl}
use indra.AppInstance.{AppInstance, identity_hash}
use indra.States.{opaque_state}
use indra.StateChannel.Channel.{StateChannel, free_balance}
use indra.StateChannel.Json.{to_json, from_json, map_values}
use indra.Store.KeyValue.{
  key_value_storage, get_state_channel, save_state_channel, save_free_balance, channel_key,
  channels_of, properly_convert_channel_null_vals, get_all_channels, find_channel,
  get_state_channel_by_app_instance_id,
}
use indra.Store.Lookup.{get_state_channel_from_app_instance_id}
use indra.Store.Persist.{get_state_channel as get_state_channel_of}
use indra.Methods.Deposit.{DepositParams, Funding, deposit_controller}
use indra.Methods.Deposit.Checks.{MayDeposit, deposit_checks_iff}
use indra.Methods.Params.{first_not_equal_to}
use indra.Methods.Uninstall.{uninstall_controller}
use indra.Methods.Uninstall.Guards.{uninstall-outcome, uninstall_outcome}
use indra.Methods.Request.{execute_method}
use indra.Tests.Evaluation.{evaluation}
use indra.Tests.Fixture.{ethers, app, channel, value_or}
use indra.Tests.Signing.{before}
use indra.Tests.Stores.{service, stored}
use indra.Tests.Requests.{found_by_hash, node, holding}

-- An app of the fixture is uninstalled.
abbrev with_app : StateChannel
unfolding evaluation
with_app = before

abbrev app_id : String
unfolding evaluation
app_id = identity_hash ethers app

abbrev funds_after : AppInstance
unfolding evaluation with_app
funds_after = value_or (free_balance with_app) app

finds_app :
    get_state_channel_from_app_instance_id ethers service found_by_hash (stored with_app) app_id
    ≡ ok with_app
unfolding evaluation app_id with_app get_state_channel_from_app_instance_id key_value_storage
    get_state_channel save_state_channel save_free_balance channel_key
    properly_convert_channel_null_vals channels_of get_all_channels find_channel
    get_state_channel_by_app_instance_id map_values to_json from_json
finds_app = refl

uninstall-outcome_example :
    execute_method (uninstall_controller (node "xpubA")) app_id (holding with_app)
    ≡ uninstall_outcome (node "xpubA") app_id with_app funds_after "xpubB" (holding with_app)
unfolding evaluation app_id with_app first_not_equal_to
uninstall-outcome_example =
    uninstall-outcome (node "xpubA") app_id (holding with_app) with_app funds_after "xpubB" refl
      finds_app refl refl

-- A deposit into the channel, before a refund app was proposed.
abbrev funding : Funding
funding = record {
  create2 = record {
    address_of_key = λ legacy key. "0xaa";
    proxy_creation_code = λ factory. ok "0x60";
    hashed_address = λ owners factory bytecode mastercopy. ok "0xdd";
  };
  signer_address = "0xaa";
  balance_of = λ token address. ok (pos 7);
  balance_after = λ token address. ok (pos 8);
  send_transaction = λ attempt token params. ok "0x99";
  wait = λ hash. ok tt;
}

abbrev depositing : DepositParams
depositing = record { multisig_address = "0xdd"; amount = pos 7; token_address = none }

stored_channel : get_state_channel_of ethers service (stored channel) "0xdd" ≡ ok channel
unfolding evaluation get_state_channel_of key_value_storage get_state_channel save_state_channel
    channel_key properly_convert_channel_null_vals map_values to_json from_json
stored_channel = refl

deposit_checks_iff_example :
    (((deposit_controller
            (node "xpubA")
            funding
            (λ token balance. opaque_state "refund")
            "").before_execution
          depositing
          (holding channel)
        ≡ (ok depositing, holding channel))
      ↔ MayDeposit (node "xpubA") funding channel depositing)
    × (((deposit_controller
            (node "xpubA")
            funding
            (λ token balance. opaque_state "refund")
            "").before_execution
          depositing
          (holding channel)).1
        ≡ holding channel)
deposit_checks_iff_example =
    deposit_checks_iff (node "xpubA") funding (λ token balance. opaque_state "refund") "" channel
      depositing (holding channel) stored_channel
