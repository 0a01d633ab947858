-- ===== src/Commitment/Multisig.antt =====
-- modules/cf-core/src/ethereum/multisig-commitment.ts, conditional-tx-commitment.ts and
-- setup-commitment.ts: what the owners of a multisig sign, and the signed transaction.
pub mod Order
use indra.Prelude.{
  String, str_eq, ℕ, ltb, Option, none, some, List, [], ◌∷◌, map, length, Result, ok, err, ◌>>=◌,
  ◌>>◌, throw_if, or_throw, if◌then◌else◌, ◌==◌,
}
use indra.Ethers.{Ethers}
use indra.AppInstance.{
  AppInstance, OutcomeType, identity_hash, TwoPartyFixedOutcomeInterpreterParams,
  MultiAssetMultiPartyCoinTransferInterpreterParams,
  SingleAssetTwoPartyCoinTransferInterpreterParams, get_two_party_params, get_multi_asset_params,
  get_single_asset_params,
}
use indra.FreeBalance.{convention_for_eth_token_address as address_zero}
use indra.StateChannel.Channel.{StateChannel, multisig_owners, free_balance}
use indra.Commitment.{
  CallData, execute_effect_of_interpreted_app_outcome, execute_effect_of_free_balance,
  MultisigTransaction, Signing,
}

-- The addresses of a NetworkContext that the commitments read.
pub record NetworkContext : Type 0 where
  pub challenge_registry : String
  pub conditional_transaction_delegate_target : String
  pub multi_asset_interpreter : String
  pub single_asset_interpreter : String
  pub two_party_interpreter : String
  pub identity_app : String
  pub proxy_factory : String
  pub minimum_viable_multisig : String

-- A commitment with the transaction that `getTransactionDetails` gives.
pub record MultisigCommitment : Type 0 where
  pub multisig_address : String
  pub multisig_owners : List String
  pub details : MultisigTransaction
  pub signatures : List (Option String)

unfoldable pub set_signatures :
    MultisigCommitment → List (Option String) → Result MultisigCommitment
set_signatures c sigs =
    throw_if (ltb (length sigs) 2) "Incorrect number of signatures supplied"
    >> ok (record c { signatures = sigs })

unfoldable pub hash_to_sign : Signing → MultisigCommitment → String
hash_to_sign s c = s.multisig_hash c.multisig_owners c.details

-- The signature with the number of the address that made it.
unfoldable pub with_signers : Signing → String → List (Option String) → Result (List (String × ℕ))
with_signers s digest [] = ok []
with_signers s digest (sig ∷ sigs) = do
  text ← or_throw sig "invalid signature"
  addr ← s.recover digest text
  rest ← with_signers s digest sigs
  ok ((text, s.address_number addr) ∷ rest)

-- `sort` by `A.addr < B.addr ? -1 : 1`, as an insertion from the right: an element stands before
-- those that it is below of.
unfoldable pub insert_signer : String × ℕ → List (String × ℕ) → List (String × ℕ)
insert_signer a [] = a ∷ []
insert_signer a (b ∷ bs) = if ltb a.1 b.1 then a ∷ b ∷ bs else b ∷ insert_signer a bs

unfoldable pub sort_signers : List (String × ℕ) → List (String × ℕ)
unfolding insert_signer
sort_signers [] = []
sort_signers (a ∷ as') = insert_signer a (sort_signers as')

abbrev pub signature_of : String × ℕ → String
signature_of signer = signer.0

-- `sortSignaturesBySignerAddress` of modules/types/src/utils.ts
unfoldable pub sort_signatures_by_signer_address :
    Signing → String → List (Option String) → Result (List String)
unfolding with_signers sort_signers
sort_signatures_by_signer_address s digest signatures = do
  signers ← with_signers s digest signatures
  ok (map signature_of (sort_signers signers))

-- The call of `execTransaction` with the sorted signatures.
pub record SignedTransaction : Type 0 where
  pub to : String
  pub details : MultisigTransaction
  pub signatures : List String

unfoldable pub get_signed_transaction : Signing → MultisigCommitment → Result SignedTransaction
unfolding hash_to_sign sort_signatures_by_signer_address
get_signed_transaction s c = do
  throw_if (length c.signatures == 0) "No signatures detected"
  sorted ← sort_signatures_by_signer_address s (hash_to_sign s c) c.signatures
  ok (record { to = c.multisig_address; details = c.details; signatures = sorted })

unfoldable pub interpreter_of : NetworkContext → OutcomeType → String
interpreter_of network OutcomeType.multi_asset_multi_party_coin_transfer =
    network.multi_asset_interpreter
interpreter_of network OutcomeType.single_asset_two_party_coin_transfer =
    network.single_asset_interpreter
interpreter_of network OutcomeType.two_party_fixed_outcome = network.two_party_interpreter

-- The encoding of interpreter parameters by `defaultAbiCoder`.
pub record ParamsCoder : Type 0 where
  pub encode_single_asset : Option SingleAssetTwoPartyCoinTransferInterpreterParams → Result String
  pub encode_multi_asset : Option MultiAssetMultiPartyCoinTransferInterpreterParams → Result String
  pub encode_two_party : Option TwoPartyFixedOutcomeInterpreterParams → Result String

-- `encodedInterpreterParams` of an app instance
unfoldable pub encoded_interpreter_params : ParamsCoder → AppInstance → Result String
unfolding get_single_asset_params get_multi_asset_params get_two_party_params
encoded_interpreter_params coder app = elim app.outcome_type [
  | OutcomeType.single_asset_two_party_coin_transfer ↦ do
    params ← get_single_asset_params app
    coder.encode_single_asset params
  | OutcomeType.multi_asset_multi_party_coin_transfer ↦ do
    params ← get_multi_asset_params app
    coder.encode_multi_asset params
  | OutcomeType.two_party_fixed_outcome ↦ do
    params ← get_two_party_params app
    coder.encode_two_party params
]

unfoldable pub get_conditional_transaction_commitment :
    Ethers → NetworkContext → ParamsCoder → StateChannel → AppInstance → Result MultisigCommitment
unfolding interpreter_of encoded_interpreter_params
get_conditional_transaction_commitment e network coder ch app = do
  fb ← free_balance ch
  params ← encoded_interpreter_params coder app
  throw_if (str_eq (interpreter_of network app.outcome_type) address_zero)
      "The outcome type in this application logic contract is not supported yet."
  ok (record {
    multisig_address = ch.multisig_address;
    multisig_owners = multisig_owners e ch;
    details = record {
      to = network.conditional_transaction_delegate_target;
      call_data =
          execute_effect_of_interpreted_app_outcome network.challenge_registry (identity_hash e fb)
            (identity_hash e app) (interpreter_of network app.outcome_type) params;
    };
    signatures = [];
  })

unfoldable pub get_setup_commitment :
    Ethers → NetworkContext → StateChannel → Result MultisigCommitment
get_setup_commitment e network ch = do
  fb ← free_balance ch
  ok (record {
    multisig_address = ch.multisig_address;
    multisig_owners = multisig_owners e ch;
    details = record {
      to = network.conditional_transaction_delegate_target;
      call_data =
          execute_effect_of_free_balance network.challenge_registry (identity_hash e fb)
            network.multi_asset_interpreter;
    };
    signatures = [];
  })
