-- ===== src/Protocol/Install.antt =====
-- modules/cf-core/src/protocol/install.ts, the computation of the new channel: the interpreter
-- parameters, the new app and the amounts that leave the free balance; and the check of the funds
-- in modules/cf-core/src/utils.ts.
pub mod Decrements
pub mod Sufficient
pub mod Exchange
pub mod Prepared
use indra.Prelude.{
  String, str_eq, ℕ, ◌-◌, ◌^◌, ℤ, pos, ◌+ℤ◌, ltb_ℤ, Bool, Option, none, some, List, [], ◌∷◌, Result,
  ok, err, ◌>>=◌, ◌>>◌, throw_if, or_else, not, if◌then◌else◌,
}
use indra.Dict.{set}
use indra.Coins.{TokenIndexedCoinTransferMap}
use indra.States.{AppState}
use indra.Ethers.{Ethers}
use indra.Keys.{xkey_kth_address}
use indra.AppInstance.{
  AppInstance, AppInterface, OutcomeType, TwoPartyFixedOutcomeInterpreterParams,
  MultiAssetMultiPartyCoinTransferInterpreterParams,
  SingleAssetTwoPartyCoinTransferInterpreterParams, construct,
}
use indra.FreeBalance.{get_balance}
use indra.StateChannel.Channel.{StateChannel}
use indra.StateChannel.Updates.{get_free_balance_class, get_free_balance_addr_of, install_app}

-- `assertSufficientFundsWithinFreeBalance`
unfoldable pub assert_sufficient_funds_within_free_balance :
    Ethers → StateChannel → String → String → ℤ → Result (Unit {0})
assert_sufficient_funds_within_free_balance e ch public_identifier token_address deposit_amount = do
  fb ← get_free_balance_class e ch
  throw_if
      (ltb_ℤ
        (or_else (get_balance fb token_address (xkey_kth_address e public_identifier 0)) (pos 0))
        deposit_amount)
      "INSUFFICIENT_FUNDS_IN_FREE_BALANCE_FOR_ASSET"

-- `MaxUint256`
unfoldable pub max_uint256 : ℤ
max_uint256 = pos (2 ^ 256 - 1)

-- What `computeInterpreterParameters` returns: at most one is there.
pub record InterpreterParameters : Type 0 where
  pub two_party : Option TwoPartyFixedOutcomeInterpreterParams
  pub multi_asset : Option MultiAssetMultiPartyCoinTransferInterpreterParams
  pub single_asset : Option SingleAssetTwoPartyCoinTransferInterpreterParams

abbrev pub no_parameters : InterpreterParameters
no_parameters = record { two_party = none; multi_asset = none; single_asset = none }

-- The parameters of the install protocol that this file reads (ProtocolParams.Install).
pub record InstallParams : Type 0 where
  pub initiator_xpub : String
  pub responder_xpub : String
  pub initiator_balance_decrement : ℤ
  pub responder_balance_decrement : ℤ
  pub initiator_deposit_token_address : String
  pub responder_deposit_token_address : String
  pub participants : List String
  pub initial_state : AppState
  pub app_interface : AppInterface
  pub default_timeout : ℕ
  pub app_seq_no : ℕ
  pub outcome_type : OutcomeType
  pub disable_limit : Bool
  pub meta : Option String

unfoldable pub two_party_parameters :
    String → String → ℤ → ℤ → String → String → Result InterpreterParameters
two_party_parameters initiator_token responder_token initiator_amount responder_amount initiator
      responder =
    throw_if (not (str_eq initiator_token responder_token)) "TWO_PARTY_OUTCOME_DIFFERENT_ASSETS"
    >> ok (record no_parameters {
      two_party = some (record {
        player_addrs = (initiator, responder);
        amount = initiator_amount +ℤ responder_amount;
        token_address = initiator_token;
      });
    })

unfoldable pub multi_asset_parameters : String → String → ℤ → ℤ → Result InterpreterParameters
multi_asset_parameters initiator_token responder_token initiator_amount responder_amount =
    ok (record no_parameters {
      multi_asset = some (
          if str_eq initiator_token responder_token
          then record {
            limit = (initiator_amount +ℤ responder_amount) ∷ [];
            token_addresses = initiator_token ∷ [];
          }
          else record {
            limit = initiator_amount ∷ responder_amount ∷ [];
            token_addresses = initiator_token ∷ responder_token ∷ [];
          });
    })

unfoldable pub single_asset_parameters :
    String → String → ℤ → ℤ → Bool → Result InterpreterParameters
single_asset_parameters initiator_token responder_token initiator_amount responder_amount
      disable_limit =
    throw_if (not (str_eq initiator_token responder_token)) "TWO_PARTY_OUTCOME_DIFFERENT_ASSETS"
    >> ok (record no_parameters {
      single_asset = some (record {
        limit = if disable_limit then max_uint256 else initiator_amount +ℤ responder_amount;
        token_address = initiator_token;
      });
    })

unfoldable pub compute_interpreter_parameters :
    OutcomeType → String → String → ℤ → ℤ → String → String → Bool → Result InterpreterParameters
unfolding two_party_parameters multi_asset_parameters single_asset_parameters
compute_interpreter_parameters OutcomeType.two_party_fixed_outcome it rt ia ra initiator responder
      disable_limit =
    two_party_parameters it rt ia ra initiator responder
compute_interpreter_parameters OutcomeType.multi_asset_multi_party_coin_transfer it rt ia ra
      initiator responder disable_limit =
    multi_asset_parameters it rt ia ra
compute_interpreter_parameters OutcomeType.single_asset_two_party_coin_transfer it rt ia ra
      initiator responder disable_limit =
    single_asset_parameters it rt ia ra disable_limit

-- `tokenIndexedBalanceDecrement`: object literals whose later keys may repeat earlier ones.
unfoldable pub balance_decrement :
    String → String → String → String → ℤ → ℤ → TokenIndexedCoinTransferMap
balance_decrement initiator_token responder_token initiator responder initiator_amount
      responder_amount =
    if not (str_eq initiator_token responder_token)
    then set responder_token ((responder, responder_amount) ∷ [])
        ((initiator_token, (initiator, initiator_amount) ∷ []) ∷ [])
    else (initiator_token, set responder responder_amount ((initiator, initiator_amount) ∷ [])) ∷ []

abbrev pub app_to_be_installed : StateChannel → InstallParams → InterpreterParameters → AppInstance
app_to_be_installed ch params interpreter = record {
  participants = params.participants;
  default_timeout = params.default_timeout;
  app_interface = params.app_interface;
  app_seq_no = params.app_seq_no;
  latest_state = params.initial_state;
  latest_version_number = 0;
  latest_timeout = params.default_timeout;
  outcome_type = params.outcome_type;
  multisig_address = ch.multisig_address;
  meta = params.meta;
  two_party_params = interpreter.two_party;
  multi_asset_params = interpreter.multi_asset;
  single_asset_params = interpreter.single_asset;
}

-- `computeStateChannelTransition` of the install protocol.
unfoldable pub compute_state_channel_transition :
    Ethers → StateChannel → InstallParams → Result StateChannel
compute_state_channel_transition e ch params = do
  initiator ← get_free_balance_addr_of e ch params.initiator_xpub
  responder ← get_free_balance_addr_of e ch params.responder_xpub
  interpreter ←
      compute_interpreter_parameters params.outcome_type params.initiator_deposit_token_address
        params.responder_deposit_token_address params.initiator_balance_decrement
        params.responder_balance_decrement initiator responder params.disable_limit
  install_app e ch (construct (app_to_be_installed ch params interpreter)) (
      balance_decrement params.initiator_deposit_token_address
        params.responder_deposit_token_address initiator responder
        params.initiator_balance_decrement params.responder_balance_decrement)
