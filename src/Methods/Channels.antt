-- ===== src/Methods/Channels.antt =====
-- modules/cf-core/src/methods/state-channel/create.ts and get.ts, the methods of methods/app-instance and
-- methods/proposed-app-instance that only read, and get-state-deposit-holder-address.ts.
use indra.Prelude.{String, str_eq, not, Option, none, some, is_some, List, [], ok, if◌then◌else◌}
use indra.States.{AppState}
use indra.Coins.{CoinTransferMap, TokenIndexedCoinTransferMap}
use indra.Keys.{xkeys_to_sorted_kth_addresses}
use indra.AppInstance
use indra.AppInstance.{AppInstanceJson}
use indra.FreeBalance.{
  convention_for_eth_token_address, with_token_address, to_token_indexed_coin_transfer_map,
}
use indra.StateChannel.Channel.{AppInstanceProposal, or_own_text}
use indra.StateChannel.Json.{StateChannelJson, to_json}
use indra.StateChannel.Updates.{get_free_balance_class}
use indra.Store.Persist.{get_state_channel}
use indra.Store.Lookup.{
  get_multisig_address_with_counterparty, has_state_channel, get_app_instances, get_app_instance_of,
  get_multisig_address_from_app_instance, get_proposed_app_instances, get_app_instance_proposal,
  sort_texts,
}
use indra.Methods.Params.{first_not_equal_to}
use indra.Methods.Request.{Request, ◌>>=◌, ◌>>◌, lift, check, ask, RequestHandler}
use indra.Methods.Initiate.{run_setup_protocol}

-- The message and the result of a creation.
pub record CreateChannelData : Type 0 where
  pub multisig_address : String
  pub owners : List String
  pub counterparty_xpub : String

module _ {W : Type 0} (h : RequestHandler W) where
  unfoldable pub setup_and_create_channel : String → List String → Request W CreateChannelData
  unfolding first_not_equal_to run_setup_protocol xkeys_to_sorted_kth_addresses
  setup_and_create_channel multisig_address owners = do
    responder_xpub ← lift (first_not_equal_to h.public_identifier owners)
    run_setup_protocol h responder_xpub multisig_address
    lift (
        ok (record {
          multisig_address = multisig_address;
          owners = xkeys_to_sorted_kth_addresses h.ethers owners 0;
          counterparty_xpub = responder_xpub;
        }))

  -- The implementation, with the message that it emits; the parameters were sorted when the lock was
  -- named.
  unfoldable pub create_channel : List String → Request W (String × Option CreateChannelData)
  unfolding sort_texts get_multisig_address_with_counterparty has_state_channel
      setup_and_create_channel
  create_channel owners =
      let sorted = sort_texts [] owners in
      (do
        m ← ask (λ w.
            get_multisig_address_with_counterparty h.ethers h.svc h.search w sorted
              h.create2_multisig_address)
        known ← ask (λ w. ok (has_state_channel h.ethers h.svc h.search w m))
        if known
            then lift (ok (m, none))
            else (do created ← setup_and_create_channel m sorted; lift (ok (m, some created))))

  unfoldable pub get_state_deposit_holder_address : List String → Request W String
  unfolding get_multisig_address_with_counterparty
  get_state_deposit_holder_address owners = do
    check (not (is_some h.create2_multisig_address)) "No network provider"
    ask (λ w.
        get_multisig_address_with_counterparty h.ethers h.svc h.search w owners
          h.create2_multisig_address)

  unfoldable pub get_state_channel_json : String → Request W StateChannelJson
  unfolding get_state_channel to_json
  get_state_channel_json m = do
    ch ← ask (λ w. get_state_channel h.ethers h.svc w m)
    lift (ok (to_json h.ethers ch))

  unfoldable pub get_installed_app_instances : String → Request W (List AppInstanceJson)
  unfolding get_app_instances
  get_installed_app_instances m = do
    check (str_eq m "") "Multisig address must be provided"
    ask (λ w. get_app_instances h.ethers h.svc h.search w m)

  -- The address of the channel is put into the JSON form.
  unfoldable pub get_app_instance_details : String → Request W AppInstanceJson
  unfolding get_app_instance_of get_multisig_address_from_app_instance AppInstance.to_json
  get_app_instance_details id = do
    check (str_eq id "") "No AppInstanceId specified to get details for"
    app ← ask (λ w. get_app_instance_of h.ethers h.svc h.search w id)
    m ← ask (λ w. get_multisig_address_from_app_instance h.ethers h.svc h.search w id)
    let json = AppInstance.to_json h.ethers app
    lift (ok (record json { fields = record json.fields { multisig_address = m } }))

  unfoldable pub get_app_instance_state : String → Request W AppState
  unfolding get_app_instance_of
  get_app_instance_state id = do
    check (str_eq id "") "No AppInstanceId specified to get state for"
    app ← ask (λ w. get_app_instance_of h.ethers h.svc h.search w id)
    lift (ok app.latest_state)

  unfoldable pub get_free_balance_state : String → Option String → Request W CoinTransferMap
  unfolding get_state_channel get_free_balance_class with_token_address
  get_free_balance_state m token = do
    check (str_eq m "") "getFreeBalanceState method was given undefined multisigAddress"
    ch ← ask (λ w. get_state_channel h.ethers h.svc w m)
    fb ← lift (get_free_balance_class h.ethers ch)
    lift (ok (with_token_address fb (or_own_text token convention_for_eth_token_address)))

  unfoldable pub get_token_indexed_free_balance_states :
      String → Request W TokenIndexedCoinTransferMap
  unfolding get_state_channel get_free_balance_class to_token_indexed_coin_transfer_map
  get_token_indexed_free_balance_states m = do
    check (str_eq m "")
        "getTokenIndexedFreeBalanceStates method was given undefined multisigAddress"
    ch ← ask (λ w. get_state_channel h.ethers h.svc w m)
    fb ← lift (get_free_balance_class h.ethers ch)
    lift (ok (to_token_indexed_coin_transfer_map fb))

  unfoldable pub get_proposed_app_instances_of : String → Request W (List AppInstanceProposal)
  unfolding get_proposed_app_instances
  get_proposed_app_instances_of m = do
    check (str_eq m "") "Multisig address is required."
    ask (λ w. get_proposed_app_instances h.ethers h.svc h.search w m)

  unfoldable pub get_proposed_app_instance : String → Request W AppInstanceProposal
  unfolding get_app_instance_proposal
  get_proposed_app_instance id = ask (λ w. get_app_instance_proposal h.ethers h.svc h.search w id)
