-- ===== src/Protocol/Outcome.antt =====
-- modules/cf-core/src/protocol/utils.ts: what an app's outcome adds to the free balance. The decoder
-- of the outcomes and the chain are parameters.
pub mod Payout
pub mod Refund
use indra.Prelude.{
  String, str_eq, ℕ, ◌+◌, suc, zero, ℤ, pos, ◌-ℤ◌, half, ltb, leb, ltb_ℤ, eqb_ℤ, Bool, true, false,
  ◌||◌, ◌&&◌, not, Option, none, some, List, [], ◌∷◌, get_elem?, Result, ok, err, ◌>>=◌, or_throw,
  or_else, if◌then◌else◌,
}
use indra.Dict.{set}
use indra.Coins.{
  CoinTransfer, CoinTransferMap, TokenIndexedCoinTransferMap,
  convert_coin_transfers_to_coin_transfers_map as to_map,
}
use indra.AppInstance.{
  AppInstance, OutcomeType, TwoPartyFixedOutcomeInterpreterParams,
  MultiAssetMultiPartyCoinTransferInterpreterParams,
  SingleAssetTwoPartyCoinTransferInterpreterParams, get_two_party_params, get_multi_asset_params,
  get_single_asset_params,
}

-- `defaultAbiCoder.decode` at the three types of outcomes; it throws on other encodings.
pub record Decoder : Type 0 where
  pub decode_number : String → Option ℤ
  pub decode_pair : String → Option (CoinTransfer × CoinTransfer)
  pub decode_lists : String → Option (List (List CoinTransfer))

-- What the chain answers in the rounds of a loop: a contract call and the block's number.
pub record Chain : Type 0 where
  pub compute_outcome : ℕ → Result String
  pub block_number : ℕ → Result ℕ

-- `enum TwoPartyFixedOutcome`
abbrev pub send_to_addr_one : ℤ
send_to_addr_one = pos 0

abbrev pub send_to_addr_two : ℤ
send_to_addr_two = pos 1

abbrev pub max_safe_integer : ℤ
max_safe_integer = pos 9007199254740991

-- `toNumber` throws outside the numbers that a double holds exactly.
unfoldable pub decode_two_party_fixed_outcome : Decoder → String → Result ℤ
decode_two_party_fixed_outcome d encoded = do
  n ← or_throw (d.decode_number encoded) "invalid encoding"
  if ltb_ℤ max_safe_integer n then err "overflow" else ok n

-- A later key of an object literal replaces an equal one.
unfoldable pub two_payouts : String → String → ℤ → String → ℤ → TokenIndexedCoinTransferMap
two_payouts token first x second y = (token, set second y ((first, x) ∷ [])) ∷ []

unfoldable pub pay_fixed_outcome :
    ℤ → TwoPartyFixedOutcomeInterpreterParams → TokenIndexedCoinTransferMap
unfolding two_payouts
pay_fixed_outcome outcome params =
    if eqb_ℤ outcome send_to_addr_one
    then (params.token_address, (params.player_addrs.0, params.amount) ∷ []) ∷ []
    else (if eqb_ℤ outcome send_to_addr_two
        then (params.token_address, (params.player_addrs.1, params.amount) ∷ []) ∷ []
        else two_payouts params.token_address params.player_addrs.0 (half params.amount)
            params.player_addrs.1 (params.amount -ℤ half params.amount))

unfoldable pub handle_two_party_fixed_outcome :
    Decoder
    → String
    → Option TwoPartyFixedOutcomeInterpreterParams
    → Result TokenIndexedCoinTransferMap
unfolding decode_two_party_fixed_outcome pay_fixed_outcome
handle_two_party_fixed_outcome d encoded interpreter_params = do
  params ← or_throw interpreter_params "Cannot destructure property `amount` of 'undefined'"
  outcome ← decode_two_party_fixed_outcome d encoded
  ok (pay_fixed_outcome outcome params)

-- The `reduce` over the token addresses, each with the transfers at its index.
unfoldable pub pay_tokens :
    List String
    → ℕ
    → List (List CoinTransfer)
    → TokenIndexedCoinTransferMap
    → TokenIndexedCoinTransferMap
pay_tokens [] index transfers acc = acc
pay_tokens (t ∷ ts) index transfers acc =
    pay_tokens ts (index + 1) transfers (set t (to_map (get_elem? transfers index)) acc)

unfoldable pub handle_multi_asset_multi_party_coin_transfer :
    Decoder
    → String
    → Option MultiAssetMultiPartyCoinTransferInterpreterParams
    → Result TokenIndexedCoinTransferMap
unfolding pay_tokens
handle_multi_asset_multi_party_coin_transfer d encoded interpreter_params = do
  transfers ← or_throw (d.decode_lists encoded) "invalid encoding"
  params ← or_throw interpreter_params "Cannot read property 'tokenAddresses' of undefined"
  ok (pay_tokens params.token_addresses 0 transfers [])

unfoldable pub handle_single_asset_two_party_coin_transfer :
    Decoder
    → String
    → Option SingleAssetTwoPartyCoinTransferInterpreterParams
    → Result TokenIndexedCoinTransferMap
unfolding two_payouts
handle_single_asset_two_party_coin_transfer d encoded interpreter_params = do
  params ← or_throw interpreter_params "Cannot destructure property `tokenAddress` of 'undefined'"
  pair ← or_throw (d.decode_pair encoded) "invalid encoding"
  ok (two_payouts params.token_address pair.0.to pair.0.amount pair.1.to pair.1.amount)

-- `blockNumberToUseIfNecessary && currentBlockNumber >= blockNumberToUseIfNecessary`: the number 0
-- counts as not specified.
unfoldable pub specified_and_elapsed : Option ℕ → ℕ → Bool
specified_and_elapsed none current = false
specified_and_elapsed (some n) current = ltb 0 n && leb n current

unfoldable pub refund_to : AppInstance → CoinTransfer → TokenIndexedCoinTransferMap
refund_to app transfer =
    (or_else app.latest_state.token_address "undefined", (transfer.to, transfer.amount) ∷ []) ∷ []

-- What one round of the loop comes to: the increments, or nothing and another round.
unfoldable pub refund_round :
    Decoder
    → Chain
    → AppInstance
    → Option ℕ
    → ℕ
    → String
    → Result (Option TokenIndexedCoinTransferMap)
unfolding specified_and_elapsed refund_to
refund_round d chain app block attempts outcome = do
  pair ← or_throw (d.decode_pair outcome) "invalid encoding"
  current ← chain.block_number attempts
  if ltb_ℤ (pos 0) pair.0.amount || specified_and_elapsed block current
      then ok (some (refund_to app pair.0))
      else ok none

-- The loop `while (attempts <= 10)` on fuel.
unfoldable pub refund_loop :
    ℕ → Decoder → Chain → AppInstance → Option ℕ → ℕ → String → Result TokenIndexedCoinTransferMap
unfolding refund_round
refund_loop zero d chain app block attempts outcome = err "out of fuel"
refund_loop (suc fuel) d chain app block attempts outcome =
    if leb attempts 10
    then (do
      increments ← refund_round d chain app block attempts outcome
      elim increments [
        | some found ↦ ok found
        | none ↦ do
          outcome' ← chain.compute_outcome (attempts + 1)
          refund_loop fuel d chain app block (attempts + 1) outcome'
      ])
    else err "When attempting to check for a deposit, did not find any non-zero deposits."

unfoldable pub handle_refund_app_outcome_special_case :
    Decoder → Chain → String → AppInstance → Option ℕ → Result TokenIndexedCoinTransferMap
unfolding refund_loop
handle_refund_app_outcome_special_case d chain encoded app block =
    refund_loop 11 d chain app block 1 encoded

unfoldable pub pay_by_outcome_type :
    Decoder → String → AppInstance → Result TokenIndexedCoinTransferMap
unfolding get_two_party_params get_multi_asset_params get_single_asset_params
    handle_two_party_fixed_outcome handle_multi_asset_multi_party_coin_transfer
    handle_single_asset_two_party_coin_transfer
pay_by_outcome_type d encoded app = elim app.outcome_type [
  | OutcomeType.two_party_fixed_outcome ↦ do
    params ← get_two_party_params app
    handle_two_party_fixed_outcome d encoded params
  | OutcomeType.single_asset_two_party_coin_transfer ↦ do
    params ← get_single_asset_params app
    handle_single_asset_two_party_coin_transfer d encoded params
  | OutcomeType.multi_asset_multi_party_coin_transfer ↦ do
    params ← get_multi_asset_params app
    handle_multi_asset_multi_party_coin_transfer d encoded params
]

-- `encodedOutcomeOverride || (await appInstance.computeOutcomeWithCurrentState(provider))`
unfoldable pub outcome_or_override : Chain → String → Result String
outcome_or_override chain override =
    if str_eq override "" then chain.compute_outcome 1 else ok override

-- `computeTokenIndexedFreeBalanceIncrements`
unfoldable pub compute_token_indexed_free_balance_increments :
    Decoder → Chain → AppInstance → String → Option ℕ → Result TokenIndexedCoinTransferMap
unfolding outcome_or_override handle_refund_app_outcome_special_case pay_by_outcome_type
compute_token_indexed_free_balance_increments d chain app override block = do
  encoded ← outcome_or_override chain override
  elim app.latest_state.threshold [
    | some _ ↦ handle_refund_app_outcome_special_case d chain encoded app block
    | none ↦ pay_by_outcome_type d encoded app
  ]
