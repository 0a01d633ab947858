-- ===== src/Methods/Uninstall.antt =====
-- modules/cf-core/src/methods/app-instance/uninstall.ts, and the installation and uninstallation of the
-- coin balance refund app around a deposit: methods/state-channel/deposit.ts,
-- request-deposit-rights.ts and rescind-deposit-rights.ts.
pub mod Guards
use indra.Prelude.{
  String, str_eq, ℕ, ℤ, pos, eqb_ℤ, ltb_ℤ, Bool, true, false, not, ◌&&◌, Option, none, some, List,
  [], ◌∷◌, Result, ok, err, if◌then◌else◌,
}
use indra.States.{AppState}
use indra.Keys.{xkey_kth_address}
use indra.AppInstance.{AppInstance, OutcomeType, identity_hash}
use indra.FreeBalance.{convention_for_eth_token_address}
use indra.StateChannel.Channel.{
  StateChannel, get_app_instance, has_app_instance, get_next_signing_keys, free_balance,
  or_own_text,
}
use indra.StateChannel.Queries.{
  has_app_instance_of_kind, has_balance_refund_app_instance, get_balance_refund_app_instance,
  has_proposed_balance_refund_app_instance,
}
use indra.Store.Persist.{get_state_channel}
use indra.Store.Lookup.{
  get_state_channel_from_app_instance_id, get_app_instance_of, get_peers_address_from_channel,
}
use indra.Methods.Params.{first_not_equal_to}
use indra.Methods.Request.{Request, ◌>>=◌, ◌>>◌, lift, check, ask, RequestHandler, Controller}
use indra.Methods.Initiate.{initiate_uninstall, initiate_install}

module _ {W : Type 0} (h : RequestHandler W) where
  unfoldable pub uninstall_app_instance_from_channel : String → String → Request W (Unit {0})
  unfolding get_state_channel_from_app_instance_id get_app_instance initiate_uninstall
  uninstall_app_instance_from_channel responder_xpub id = do
    ch ← ask (λ w. get_state_channel_from_app_instance_id h.ethers h.svc h.search w id)
    app ← lift (get_app_instance h.ethers ch id)
    initiate_uninstall h responder_xpub ch.multisig_address (identity_hash h.ethers app) none

  unfoldable pub uninstall_controller : Controller W String String
  unfolding get_state_channel_from_app_instance_id get_app_instance_of free_balance has_app_instance
      first_not_equal_to uninstall_app_instance_from_channel
  uninstall_controller = record {
    before_execution = λ id. do
      check (str_eq id "") "No AppInstanceId specified to uninstall"
      sc ← ask (λ w. get_state_channel_from_app_instance_id h.ethers h.svc h.search w id)
      fb ← lift (free_balance sc)
      check (str_eq (identity_hash h.ethers fb) id) "Cannot uninstall the FreeBalance of channel"
      app ← ask (λ w. get_app_instance_of h.ethers h.svc h.search w id)
      check (str_eq app.app_interface.addr h.coin_balance_refund_app)
          "Use `rescindDepositRights` to uninstall coin balance refund app."
      lift (ok id);
    get_required_lock_names = λ id. do
      sc ← ask (λ w. get_state_channel_from_app_instance_id h.ethers h.svc h.search w id)
      lift (ok (sc.multisig_address ∷ id ∷ []));
    execute_method_implementation = λ id. do
      check (str_eq id "") "No AppInstanceId specified to uninstall"
      sc ← ask (λ w. get_state_channel_from_app_instance_id h.ethers h.svc h.search w id)
      check (not (has_app_instance sc id)) "Cannot uninstall app, it has already been uninstalled"
      to ← lift (first_not_equal_to h.public_identifier sc.user_neutered_extended_keys)
      uninstall_app_instance_from_channel to id
      lift (ok id);
    after_execution = λ id. lift (ok tt);
  }

  -- `const [peerAddress] = ...`, with a peer.
  abbrev pub peer_of : String → Request W String
  unfolding get_peers_address_from_channel
  peer_of multisig_address = do
    peers ← ask (λ w.
        get_peers_address_from_channel h.ethers h.svc h.search h.public_identifier w
          multisig_address)
    lift (elim peers [ [] ↦ err "no counterparty" | peer ∷ rest ↦ ok peer ])

  abbrev pub same_text : Option String → String → Bool
  same_text none t = false
  same_text (some s) t = str_eq s t

  -- `uninstallBalanceRefundApp`: nothing is done where no refund app of the token is installed; any
  -- other error of the search is thrown again.
  abbrev pub uninstall_refund_app :
      String → StateChannel → Option ℕ → AppInstance → Request W (Unit {0})
  unfolding xkey_kth_address initiate_uninstall
  uninstall_refund_app peer ch block app = do
    check
        (not (
          same_text (h.recipient_of app.latest_state)
            (xkey_kth_address h.ethers h.public_identifier 0)))
        "Cannot uninstall a balance refund app without being the recipient"
    initiate_uninstall h peer ch.multisig_address (identity_hash h.ethers app) block

  unfoldable pub uninstall_balance_refund_app : String → String → Option ℕ → Request W (Unit {0})
  unfolding get_state_channel get_balance_refund_app_instance
  uninstall_balance_refund_app multisig_address token_address block = do
    peer ← peer_of multisig_address
    ch ← ask (λ w. get_state_channel h.ethers h.svc w multisig_address)
    elim (get_balance_refund_app_instance ch h.coin_balance_refund_app token_address) [
      | ok app ↦ uninstall_refund_app peer ch block app
      | err message ↦
          if str_eq message "No CoinBalanceRefund app instance of tokenAddress exists on channel"
          then lift (ok tt)
          else lift (err message)
    ]

  -- `installBalanceRefundApp`. The state that `getDepositContext` builds from the multisig's balance
  -- is an argument.
  unfoldable pub install_balance_refund_app :
      String → String → (ℤ → AppState) → Result ℤ → String → Request W (Unit {0})
  unfolding get_state_channel get_next_signing_keys initiate_install
  install_balance_refund_app multisig_address token_address state_of balance state_encoding = do
    peer ← peer_of multisig_address
    ch ← ask (λ w. get_state_channel h.ethers h.svc w multisig_address)
    threshold ← lift balance
    initiate_install h ch.multisig_address (record {
      initiator_xpub = h.public_identifier;
      responder_xpub = peer;
      initiator_balance_decrement = pos 0;
      responder_balance_decrement = pos 0;
      initiator_deposit_token_address = token_address;
      responder_deposit_token_address = token_address;
      participants = get_next_signing_keys h.ethers ch;
      initial_state = state_of threshold;
      app_interface = record {
        addr = h.coin_balance_refund_app;
        state_encoding = state_encoding;
        action_encoding = none;
      };
      default_timeout = 1008;
      app_seq_no = ch.monotonic_num_proposed_apps;
      outcome_type = OutcomeType.single_asset_two_party_coin_transfer;
      disable_limit = true;
      meta = none;
    })

  abbrev pub same_number : Option ℤ → ℤ → Bool
  same_number none n = false
  same_number (some m) n = eqb_ℤ n m

  abbrev pub is_correctly_installed : ℤ → AppInstance → Bool
  unfolding xkey_kth_address
  is_correctly_installed balance app =
      same_text (h.recipient_of app.latest_state) (xkey_kth_address h.ethers h.public_identifier 0)
      && same_number app.latest_state.threshold balance

  -- `RequestDepositRightsController`, its implementation: a refund app in the wrong state is
  -- installed again.
  unfoldable pub request_deposit_rights :
      String
      → Option String
      → (String → ℤ → AppState)
      → (String → Result ℤ)
      → String
      → Request W (Unit {0})
  unfolding get_state_channel has_balance_refund_app_instance get_balance_refund_app_instance
      uninstall_balance_refund_app install_balance_refund_app
  request_deposit_rights multisig_address token state_of balance_of state_encoding =
      let token_address = or_own_text token convention_for_eth_token_address in
      let reinstall =
        install_balance_refund_app multisig_address token_address (state_of token_address)
          (balance_of token_address) state_encoding in
      (do
        ch ← ask (λ w. get_state_channel h.ethers h.svc w multisig_address)
        balance ← lift (balance_of token_address)
        if not (has_balance_refund_app_instance ch h.coin_balance_refund_app token_address)
            then reinstall
            else (do
              app ←
                  lift (get_balance_refund_app_instance ch h.coin_balance_refund_app token_address)
              if is_correctly_installed balance app then lift (ok tt) else (do
                uninstall_balance_refund_app multisig_address token_address none
                reinstall)))

  -- `RescindDepositRightsController`, its implementation.
  unfoldable pub rescind_deposit_rights :
      String → Option String → (String → Result ℤ) → Result ℕ → Request W (ℤ × String)
  unfolding get_state_channel has_app_instance_of_kind uninstall_balance_refund_app
  rescind_deposit_rights multisig_address token balance_of block_number =
      let token_address = or_own_text token convention_for_eth_token_address in
      (do
        balance ← lift (balance_of token_address)
        ch ← ask (λ w. get_state_channel h.ethers h.svc w multisig_address)
        if not (has_app_instance_of_kind ch h.coin_balance_refund_app)
            then lift (ok (balance, token_address))
            else (do
              block ← lift block_number
              uninstall_balance_refund_app multisig_address token_address (some block)
              lift (ok (balance, token_address))))
