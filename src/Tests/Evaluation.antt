-- ===== src/Tests/Evaluation.antt =====
-- One name that a test puts on its `unfolding` line to run the model.
use indra.Prelude.{ℕ, ◌+ℤ◌, ◌-ℤ◌, half}
use indra.Dict.{lookup, set, delete, keys, values, set_all, add_keys}
use indra.Coins.{
  amount_of, convert_coin_transfers_map_to_coin_transfers,
  convert_coin_transfers_to_coin_transfers_map, flip, flip_token_indexed_balances, merge,
  merge_keys, merged_keys,
}
use indra.Keys.{
  sort_addresses, comes_before, number_lt, parse_int_16, xkey_kth_address, hex_digit, hex_digits,
  insert_address, round_to, sort_onto, strip_prefix, to_double, xkeys_to_sorted_kth_addresses,
}
use indra.AppInstance
use indra.AppInstance.{app_identity_to_hash, from_json, identity_hash, or_null, set_state, to_json}
use indra.FreeBalance.{
  from_app_instance, deserialize_free_balance_state, deserialize_balances,
  serialize_free_balance_state, deserialize_transfers, increment, increment_tokens, increment_token,
  add_active_app, remove_active_app, has_negative, serialize_balances, serialize_transfer,
  serialize_transfers, to_app_instance, create_free_balance, get_free_balance_app_interface,
  initial_free_balance, zero_balance_of,
}
use indra.StateChannel.Channel.{get_signing_keys_for, all_xpubs, build, construct, free_balance}
use indra.StateChannel.Queries.{latest_app, latest_of, most_recently_installed_app_instance}
use indra.StateChannel.Updates.{
  install_app, uninstall_app, add_active_app_and_increment_free_balance,
  remove_active_app_and_increment_free_balance, every_same, get_free_balance_class, remove_proposal,
  set_free_balance, without_proposal, set_app_state, add_proposal, owner_address,
  get_free_balance_addr_of,
}
use indra.StateChannel.Json.{proposal_to_json}
use indra.FreeBalance.{get_balance}
use indra.Protocol.Install.{
  assert_sufficient_funds_within_free_balance, balance_decrement, compute_interpreter_parameters,
  compute_state_channel_transition, multi_asset_parameters, single_asset_parameters,
  two_party_parameters,
}
use indra.Protocol.Outcome.{
  compute_token_indexed_free_balance_increments, decode_two_party_fixed_outcome,
  handle_multi_asset_multi_party_coin_transfer, handle_refund_app_outcome_special_case,
  handle_single_asset_two_party_coin_transfer, handle_two_party_fixed_outcome, outcome_or_override,
  pay_by_outcome_type, pay_fixed_outcome, pay_tokens, refund_loop, refund_round, refund_to,
  specified_and_elapsed, two_payouts,
}
use indra.AppInstance.{get_two_party_params, get_multi_asset_params, get_single_asset_params}
use indra.Protocol.Uninstall.{compute_state_transition}
use indra.Commitment.{committed_app, get_set_state_commitment, hash_to_sign, set_signatures}
use indra.Commitment.Multisig
use indra.Commitment.Multisig.{
  with_signers, insert_signer, sort_signers, sort_signatures_by_signer_address,
  get_signed_transaction, interpreter_of, encoded_interpreter_params,
  get_conditional_transaction_commitment, get_setup_commitment,
}
use indra.Machine.{run_protocol}
use indra.Protocol.Signature.{assert_is_valid_signature}
use indra.Protocol.Exchange.{initiating, responding}
use indra.Protocol.Update.{prepare, persist_update, update_exchange}
use indra.Protocol.Uninstall.{prepare_uninstall, persist_uninstall, uninstall_exchange}
use indra.Protocol.Setup.{prepare_setup, persist_setup, setup_exchange}
use indra.Protocol.Propose.{
  next_identity, initiator_proposal, responder_proposal, proposed_app_instance, initiator_prepares,
  responder_prepares, persist_proposal, propose_exchange,
}
use indra.Protocol.Install.Exchange as InstallExchange
use indra.Protocol.Install.Exchange.{prepare_install, prepare_free_balance_update}
use indra.StateChannel.Channel.{get_app_instance, multisig_owners}
use indra.StateChannel.Updates.{setup_channel}

unfoldable pub evaluation : ℕ
unfolding ◌+ℤ◌ ◌-ℤ◌ lookup set delete keys values set_all add_keys amount_of
    convert_coin_transfers_map_to_coin_transfers convert_coin_transfers_to_coin_transfers_map flip
    flip_token_indexed_balances merge merge_keys merged_keys sort_addresses comes_before number_lt
    parse_int_16 xkey_kth_address hex_digit hex_digits insert_address round_to sort_onto
    strip_prefix to_double xkeys_to_sorted_kth_addresses app_identity_to_hash from_json
    identity_hash or_null set_state to_json AppInstance.construct from_app_instance
    deserialize_free_balance_state deserialize_balances serialize_free_balance_state
    deserialize_transfers increment increment_tokens increment_token add_active_app
    remove_active_app has_negative serialize_balances serialize_transfer serialize_transfers
    to_app_instance create_free_balance get_free_balance_app_interface initial_free_balance
    zero_balance_of get_signing_keys_for all_xpubs build construct free_balance install_app
    uninstall_app add_active_app_and_increment_free_balance
    remove_active_app_and_increment_free_balance every_same get_free_balance_class remove_proposal
    set_free_balance without_proposal set_app_state add_proposal latest_app latest_of
    most_recently_installed_app_instance half owner_address get_free_balance_addr_of get_balance
    assert_sufficient_funds_within_free_balance balance_decrement compute_interpreter_parameters
    compute_state_channel_transition multi_asset_parameters single_asset_parameters
    two_party_parameters compute_token_indexed_free_balance_increments
    decode_two_party_fixed_outcome handle_multi_asset_multi_party_coin_transfer
    handle_refund_app_outcome_special_case handle_single_asset_two_party_coin_transfer
    handle_two_party_fixed_outcome outcome_or_override pay_by_outcome_type pay_fixed_outcome
    pay_tokens refund_loop refund_round refund_to specified_and_elapsed two_payouts
    get_two_party_params get_multi_asset_params get_single_asset_params compute_state_transition
    committed_app get_set_state_commitment hash_to_sign set_signatures run_protocol
    assert_is_valid_signature initiating prepare responding get_app_instance Multisig.set_signatures
    Multisig.hash_to_sign with_signers insert_signer sort_signers sort_signatures_by_signer_address
    get_signed_transaction interpreter_of encoded_interpreter_params
    get_conditional_transaction_commitment get_setup_commitment persist_update update_exchange
    prepare_uninstall persist_uninstall uninstall_exchange prepare_setup persist_setup
    setup_exchange next_identity initiator_proposal responder_proposal proposed_app_instance
    initiator_prepares responder_prepares persist_proposal propose_exchange prepare_install
    prepare_free_balance_update InstallExchange.initiating InstallExchange.responding
    multisig_owners setup_channel proposal_to_json
evaluation = 0
