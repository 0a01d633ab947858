-- ===== src/Apps/Validation.antt =====
-- modules/apps/src/shared/validation.ts
use indra.Prelude.{
  String, str_eq, ℤ, pos, eqb_ℤ, leb_ℤ, Bool, true, false, not, ◌&&◌, ◌||◌, Option, none, some,
  List, includes, Result, ok, err, ◌>>=◌, ◌>>◌, throw_if,
}
use indra.Coins.{CoinTransfer}

-- The part of MethodParams.ProposeInstall that the checks read.
pub record ProposeInstall : Type 0 where
  pub state_encoding : String
  pub action_encoding : Option String
  pub initiator_deposit : ℤ
  pub initiator_deposit_token_address : String
  pub responder_deposit : ℤ
  pub responder_deposit_token_address : String

pub record AppRegistryInfo : Type 0 where
  pub action_encoding : Option String
  pub name : String
  pub state_encoding : String

-- `CoinBalanceRefundAppName`
abbrev pub coin_balance_refund_app_name : String
coin_balance_refund_app_name = "CoinBalanceRefundApp"

-- `===` of texts that may be undefined.
abbrev same_text : Option String → Option String → Bool
same_text none none = true
same_text (some a) (some b) = str_eq a b
same_text _ _ = false

unfoldable pub app_proposal_matches_registry : ProposeInstall → AppRegistryInfo → Result (Unit {0})
app_proposal_matches_registry p info =
    throw_if
      (not (
        same_text p.action_encoding info.action_encoding
        && str_eq p.state_encoding info.state_encoding))
      "Proposed app details do not match registry"

unfoldable pub base_coin_transfer_validation :
    ℤ → ℤ → Option CoinTransfer → Option CoinTransfer → Result (CoinTransfer × CoinTransfer)
base_coin_transfer_validation initiator_deposit responder_deposit (some i) (some r) =
    throw_if (not (eqb_ℤ i.amount initiator_deposit) || not (eqb_ℤ r.amount responder_deposit))
      "Mismatch between deposits and initial state, refusing to install."
    >> ok (i, r)
base_coin_transfer_validation initiator_deposit responder_deposit _ _ =
    err "Transfers do not match participants"

unfoldable pub unidirectional_coin_transfer_validation :
    ℤ → ℤ → Option CoinTransfer → Option CoinTransfer → Result (Unit {0})
unfolding base_coin_transfer_validation
unidirectional_coin_transfer_validation initiator_deposit responder_deposit initiator responder = do
  (i, r) ← base_coin_transfer_validation initiator_deposit responder_deposit initiator responder
  throw_if (not (eqb_ℤ responder_deposit (pos 0)))
      "Will not accept transfer install where responder deposit is != 0"
  throw_if (leb_ℤ initiator_deposit (pos 0))
      "Will not accept transfer install where initiator deposit is <=0"
  throw_if (leb_ℤ i.amount (pos 0))
      "Cannot install a linked transfer app with a sender transfer of <= 0."
  throw_if (not (eqb_ℤ r.amount (pos 0)))
      "Cannot install a linked transfer app with a redeemer transfer of != 0."

unfoldable pub common_app_proposal_validation :
    ProposeInstall → AppRegistryInfo → List String → Result (Unit {0})
unfolding app_proposal_matches_registry
common_app_proposal_validation p info supported = do
  app_proposal_matches_registry p info
  throw_if (not (includes p.initiator_deposit_token_address supported))
      "Unsupported initiatorDepositTokenAddress provided"
  throw_if (not (includes p.responder_deposit_token_address supported))
      "Unsupported responderDepositTokenAddress provided"
  throw_if
      (eqb_ℤ p.responder_deposit (pos 0)
        && eqb_ℤ p.initiator_deposit (pos 0)
        && not (str_eq info.name coin_balance_refund_app_name))
      "Cannot install an app with zero valued deposits for both initiator and responder."
