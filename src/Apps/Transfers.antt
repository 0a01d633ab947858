-- ===== src/Apps/Transfers.antt =====
-- The checks of the transfer apps and of the withdraw app: modules/apps/src/SimpleLinkedTransferApp,
-- HashLockTransferApp, SimpleSignedTransferApp, FastSignedTransferApp and WithdrawApp, validation.ts.
use indra.Prelude.{
  String, str_eq, ℕ, ℤ, pos, ltb_ℤ, eqb_ℤ, Bool, false, not, ◌||◌, Option, none, some, List,
  get_elem?, filter, Result, ◌>>=◌, ◌>>◌, throw_if, or_throw,
}
use indra.Coins.{CoinTransfer}
use indra.Ethers.{Ethers}
use indra.Keys.{xkey_kth_address}
use indra.Commitment.{Signing}
use indra.Apps.Validation.{ProposeInstall, unidirectional_coin_transfer_validation}

-- `HashZero` of ethers
abbrev hash_zero : String
hash_zero = "0x0000000000000000000000000000000000000000000000000000000000000000"

-- The first transfer to an address.
abbrev first_transfer_to : String → List CoinTransfer → Option CoinTransfer
first_transfer_to address transfers = get_elem? (filter (λ t. str_eq t.to address) transfers) 0

-- The transfers to the two parties, checked against their deposits.
unfoldable pub transfer_validation :
    Ethers → ProposeInstall → List CoinTransfer → String → String → Result (Unit {0})
unfolding unidirectional_coin_transfer_validation
transfer_validation e p transfers initiator responder =
    unidirectional_coin_transfer_validation p.initiator_deposit p.responder_deposit
      (first_transfer_to (xkey_kth_address e initiator 0) transfers)
      (first_transfer_to (xkey_kth_address e responder 0) transfers)

unfoldable pub validate_simple_linked_transfer_app :
    Ethers → ProposeInstall → List CoinTransfer → ℤ → String → String → Result (Unit {0})
unfolding transfer_validation
validate_simple_linked_transfer_app e p transfers amount initiator responder = do
  transfer_validation e p transfers initiator responder
  throw_if (not (eqb_ℤ amount p.initiator_deposit))
      "Payment amount bust be the same as initiator deposit"

unfoldable pub validate_hash_lock_transfer_app :
    Ethers → ProposeInstall → List CoinTransfer → ℤ → ℕ → String → String → Result (Unit {0})
unfolding transfer_validation
validate_hash_lock_transfer_app e p transfers timelock block_number initiator responder = do
  throw_if (ltb_ℤ timelock (pos block_number)) "Cannot install an app with an expired timelock."
  transfer_validation e p transfers initiator responder

unfoldable pub validate_signed_transfer_app :
    Ethers → ProposeInstall → List CoinTransfer → String → String → Result (Unit {0})
unfolding transfer_validation
validate_signed_transfer_app e p transfers initiator responder =
    transfer_validation e p transfers initiator responder

unfoldable pub validate_fast_signed_transfer_app :
    Ethers → ProposeInstall → List CoinTransfer → String → String → String → Result (Unit {0})
unfolding transfer_validation
validate_fast_signed_transfer_app e p transfers payment_id initiator responder = do
  throw_if (not (str_eq payment_id hash_zero)) "Cannot install with pre-populated paymentId"
  transfer_validation e p transfers initiator responder

-- WithdrawAppState of modules/types/src/contracts/apps/WithdrawApp.ts, what the check reads.
pub record WithdrawAppState : Type 0 where
  pub transfers : List CoinTransfer
  pub signatures : List String
  pub signers : List String
  pub data_hash : String
  pub finalized : Bool

abbrev is_text : Option String → String → Bool
is_text none expected = false
is_text (some text) expected = str_eq text expected

unfoldable pub validate_withdraw_app :
    Ethers → Signing → ProposeInstall → WithdrawAppState → String → String → Result (Unit {0})
unfolding unidirectional_coin_transfer_validation
validate_withdraw_app e s p state initiator responder = do
  unidirectional_coin_transfer_validation p.initiator_deposit p.responder_deposit
      (get_elem? state.transfers 0) (get_elem? state.transfers 1)
  throw_if state.finalized "Cannot install a withdraw app with a finalized state."
  throw_if (not (is_text (get_elem? state.signatures 1) hash_zero))
      "Cannot install a withdraw app with a populated signatures[1] field."
  throw_if
      (not (is_text (get_elem? state.signers 0) (xkey_kth_address e initiator 0))
        || not (is_text (get_elem? state.signers 1) (xkey_kth_address e responder 0)))
      "Cannot install a withdraw app if signers[] do not match multisig participant addresses."
  received ← or_throw (get_elem? state.transfers 1) "Cannot read property 'amount' of undefined"
  throw_if (not (eqb_ℤ received.amount (pos 0)))
      "Cannot install a withdraw app with nonzero recipient amount."
  signature ← or_throw (get_elem? state.signatures 0) "invalid signature"
  recovered ← s.recover state.data_hash signature
  throw_if (not (is_text (get_elem? state.signers 0) recovered))
      "Cannot install withdraw app - incorrect signer recovered from initiator sig on data."
