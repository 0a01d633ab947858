-- ===== src/Methods/Deposit.antt =====
-- modules/cf-core/src/methods/state-channel/deposit.ts: the checks before a deposit, its transaction, and
-- the installation of the refund app around it.
pub mod Checks
use text.Mathlib.Text.{find?}
use indra.Prelude.{
  String, str_eq, ℕ, zero, suc, ◌==◌, ℤ, ltb_ℤ, Bool, false, not, ◌||◌, Option, none, some, is_some,
  List, [], ◌∷◌, ◌++◌, Result, ok, err, if◌then◌else◌,
}
use indra.States.{AppState}
use indra.FreeBalance.{convention_for_eth_token_address}
use indra.StateChannel.Channel.{StateChannel, or_own_text}
use indra.StateChannel.Queries.{
  has_balance_refund_app_instance, has_proposed_balance_refund_app_instance,
}
use indra.Store.Persist.{get_state_channel}
use indra.Scan.{Create2, get_create2_multisig_address}
use indra.Methods.Request.{Request, ◌>>=◌, ◌>>◌, lift, check, ask, RequestHandler, Controller}
use indra.Methods.Uninstall.{peer_of, uninstall_balance_refund_app, install_balance_refund_app}

-- `MethodParams.Deposit`
pub record DepositParams : Type 0 where
  pub multisig_address : String
  pub amount : ℤ
  pub token_address : Option String

-- What a deposit asks of the chain and of the signer: balances by token and address, before and after
-- it; the hash of the transaction that an attempt sends; its confirmation.
pub record Funding : Type 0 where
  pub create2 : Create2
  pub signer_address : String
  pub balance_of : String → String → Result ℤ
  pub balance_after : String → String → Result ℤ
  pub send_transaction : (attempt : ℕ) → String → DepositParams → Result String
  pub wait : String → Result (Unit {0})

pub data DepositEvent : Type 0 where
  deposit_failed : (errors : List String) → DepositEvent
  deposit_started : (amount : ℤ) (tx_hash : String) → DepositEvent

-- The message to the counterparty.
pub record DepositConfirmation : Type 0 where
  pub to : String
  pub from : String
  pub params : DepositParams

pub record DepositResult : Type 0 where
  pub multisig_balance : ℤ
  pub token_address : String
  pub transaction_hash : String
  pub confirmation : DepositConfirmation

-- `params.tokenAddress || CONVENTION_FOR_ETH_TOKEN_ADDRESS`
abbrev pub deposit_token : DepositParams → String
deposit_token params = or_own_text params.token_address convention_for_eth_token_address

abbrev pub expected_multisig_address : Funding → StateChannel → Result String
expected_multisig_address f ch =
    get_create2_multisig_address f.create2 ch.user_neutered_extended_keys (record {
      legacy_keygen = false;
      multisig_mastercopy = ch.addresses.multisig_mastercopy;
      proxy_factory = ch.addresses.proxy_factory;
      toxic_bytecode = "";
    })

-- The balance of the signer; where that in a token cannot be read, the error is replaced.
abbrev pub signer_balance : Funding → String → Result ℤ
signer_balance f token =
    if str_eq token convention_for_eth_token_address
    then f.balance_of token f.signer_address
    else elim (f.balance_of token f.signer_address) [
      | ok balance ↦ ok balance
      | err message ↦ err "Failed to get the balance of the address for the token"
    ]

abbrev pub insufficient : String → String
insufficient token =
    if str_eq token convention_for_eth_token_address
    then "Node's default signer does not have enough funds for this action"
    else "Node's default signer does not have enough of the token"

-- An error by which the signer has refused.
abbrev pub is_refusal : String → Bool
is_refusal message = is_some (find? "reject" message) || is_some (find? "denied" message)

-- The loop of `makeDeposit`: `retries` attempts from that of a number, with the errors so far. With
-- none there would be no transaction.
unfoldable pub send_deposit :
    Funding → DepositParams → ℕ → ℕ → List String → Result String × List DepositEvent
send_deposit f params attempt zero errors = (err "no transaction", [])
send_deposit f params attempt (suc retries) errors =
    let sent = f.send_transaction attempt (deposit_token params) params in
    elim sent [
      | ok hash ↦ (ok hash, deposit_started params.amount hash ∷ [])
      | err message ↦
          let next = send_deposit f params (suc attempt) retries (errors ++ (message ∷ [])) in
          if is_refusal message || retries == 0
          then (
            err "Failed to send funds to the multisig contract",
            deposit_failed (errors ++ (message ∷ [])) ∷ [],
          )
          else next
    ]

abbrev pub deposit_retry_count : ℕ
deposit_retry_count = 1

module _ {W : Type 0} (h : RequestHandler W) (f : Funding) where
  unfoldable pub make_deposit : DepositParams → Request W String
  unfolding send_deposit
  make_deposit params = do
    hash ← lift (send_deposit f params 0 deposit_retry_count []).0
    lift (f.wait hash)
    lift (ok hash)

  -- The state of the refund app is made by `getDepositContext` from the balance, an argument.
  unfoldable pub deposit :
      (String → ℤ → AppState) → String → DepositParams → Request W DepositResult
  unfolding install_balance_refund_app make_deposit uninstall_balance_refund_app
  deposit state_of state_encoding params =
      let token = deposit_token params in
      (do
        install_balance_refund_app h params.multisig_address token (state_of token)
            (f.balance_of token params.multisig_address) state_encoding
        hash ← make_deposit params
        uninstall_balance_refund_app h params.multisig_address token none
        to ← peer_of h params.multisig_address
        balance ← lift (f.balance_after token params.multisig_address)
        lift (
            ok (record {
              multisig_balance = balance;
              token_address = token;
              transaction_hash = hash;
              confirmation = record {
                to = to;
                from = h.public_identifier;
                params = record params { token_address = some token };
              };
            })))

  unfoldable pub deposit_controller :
      (String → ℤ → AppState) → String → Controller W DepositParams DepositResult
  unfolding get_state_channel get_create2_multisig_address has_balance_refund_app_instance
      has_proposed_balance_refund_app_instance deposit
  deposit_controller state_of state_encoding = record {
    before_execution = λ params. do
      ch ← ask (λ w. get_state_channel h.ethers h.svc w params.multisig_address)
      check (str_eq ch.addresses.proxy_factory "") "Channel factory address is invalid"
      check (str_eq ch.addresses.multisig_mastercopy "") "Multisig master address is invalid"
      expected ← lift (expected_multisig_address f ch)
      check (not (str_eq expected ch.multisig_address))
          "Channel multisig address does not match expected"
      check (has_balance_refund_app_instance ch h.coin_balance_refund_app (deposit_token params))
          "Cannot deposit while another deposit is occurring in the channel."
      check
          (not (
            has_proposed_balance_refund_app_instance ch h.coin_balance_refund_app
              (deposit_token params)))
          "No coin balance refund app proposed in channel."
      balance ← lift (signer_balance f (deposit_token params))
      check (ltb_ℤ balance params.amount) (insufficient (deposit_token params))
      lift (ok params);
    get_required_lock_names = λ params. lift (ok (params.multisig_address ∷ []));
    execute_method_implementation = deposit state_of state_encoding;
    after_execution = λ params. lift (ok tt);
  }
