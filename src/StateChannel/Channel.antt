-- ===== src/StateChannel/Channel.antt =====
-- The record of a channel, its constructor and the parts that all operations use:
-- modules/cf-core/src/models/state-channel.ts and app-instance-proposal.ts.
use text.Mathlib.Text.{starts_with}
use indra.Prelude.{
  String, str_eq, ℕ, ◌==◌, Bool, true, not, ◌&&◌, Option, none, some, List, [], ◌∷◌, map, Result,
  ok, ◌>>◌, throw_if, or_throw, or_else, is_some, if◌then◌else◌,
}
use indra.Dict.{Dict, lookup, has}
use indra.States.{AppState}
use indra.Ethers.{Ethers}
use indra.Keys.{xkey_kth_address, sort_addresses}
use indra.AppInstance.{AppInstance, OutcomeType, identity_hash}

-- modules/cf-core/src/models/app-instance-proposal.ts
pub record AppInstanceProposal : Type 0 where
  pub identity_hash : String
  pub app_definition : String
  pub abi_encodings : String × Option String
  pub initiator_deposit : String
  pub initiator_deposit_token_address : String
  pub responder_deposit : String
  pub responder_deposit_token_address : String
  pub timeout : String
  pub initial_state : AppState
  pub app_seq_no : ℕ
  pub proposed_by_identifier : String
  pub proposed_to_identifier : String
  pub outcome_type : OutcomeType
  pub meta : Option String

pub record CriticalStateChannelAddresses : Type 0 where
  pub proxy_factory : String
  pub multisig_mastercopy : String

pub record StateChannel : Type 0 where
  pub multisig_address : String
  pub addresses : CriticalStateChannelAddresses
  pub user_neutered_extended_keys : List String
  pub proposed_app_instances : Dict AppInstanceProposal
  pub app_instances : Dict AppInstance
  pub free_balance_app_instance : Option AppInstance
  pub monotonic_num_proposed_apps : ℕ
  pub schema_version : ℕ

-- `StateSchemaVersion`
abbrev pub state_schema_version : ℕ
state_schema_version = 1

unfoldable pub all_xpubs : List String → Bool
all_xpubs [] = true
all_xpubs (x ∷ xs) = starts_with x "xpub" && all_xpubs xs

-- The constructor checks the extended keys.
unfoldable pub construct : StateChannel → Result StateChannel
construct ch =
    throw_if (not (all_xpubs ch.user_neutered_extended_keys))
      "StateChannel constructor given invalid extended keys"
    >> ok ch

-- The arguments of `build`; one that is left out keeps the channel's own value.
pub record BuildArgs : Type 0 where
  pub new_multisig_address : Option String
  pub new_addresses : Option CriticalStateChannelAddresses
  pub new_keys : Option (List String)
  pub new_apps : Option (Dict AppInstance)
  pub new_proposals : Option (Dict AppInstanceProposal)
  pub new_free_balance : Option AppInstance
  pub new_num_proposed_apps : Option ℕ
  pub new_schema_version : Option ℕ

abbrev pub unchanged : BuildArgs
unchanged = record {
  new_multisig_address = none;
  new_addresses = none;
  new_keys = none;
  new_apps = none;
  new_proposals = none;
  new_free_balance = none;
  new_num_proposed_apps = none;
  new_schema_version = none;
}

-- `given || own`: the empty string and the number 0 count as left out.
abbrev pub or_own_text : Option String → String → String
or_own_text none own = own
or_own_text (some s) own = if str_eq s "" then own else s

abbrev pub or_own_number : Option ℕ → ℕ → ℕ
or_own_number none own = own
or_own_number (some n) own = if n == 0 then own else n

unfoldable pub build : StateChannel → BuildArgs → Result StateChannel
unfolding construct
build ch args = construct (record {
  multisig_address = or_own_text args.new_multisig_address ch.multisig_address;
  addresses = or_else args.new_addresses ch.addresses;
  user_neutered_extended_keys = or_else args.new_keys ch.user_neutered_extended_keys;
  proposed_app_instances = or_else args.new_proposals ch.proposed_app_instances;
  app_instances = or_else args.new_apps ch.app_instances;
  free_balance_app_instance = (elim args.new_free_balance [
    | none ↦ ch.free_balance_app_instance
    | some a ↦ some a
  ]);
  monotonic_num_proposed_apps =
      or_own_number args.new_num_proposed_apps ch.monotonic_num_proposed_apps;
  schema_version = or_own_number args.new_schema_version ch.schema_version;
})

unfoldable pub get_signing_keys_for : Ethers → StateChannel → ℕ → List String
get_signing_keys_for e ch index =
    sort_addresses (map (λ xpub. xkey_kth_address e xpub index) ch.user_neutered_extended_keys)

unfoldable pub multisig_owners : Ethers → StateChannel → List String
multisig_owners e ch = get_signing_keys_for e ch 0

unfoldable pub get_next_signing_keys : Ethers → StateChannel → List String
get_next_signing_keys e ch = get_signing_keys_for e ch ch.monotonic_num_proposed_apps

unfoldable pub has_free_balance : StateChannel → Bool
has_free_balance ch = is_some ch.free_balance_app_instance

unfoldable pub free_balance : StateChannel → Result AppInstance
free_balance ch =
    or_throw ch.free_balance_app_instance
      "There is no free balance app instance installed in this state channel"

unfoldable pub get_app_instance : Ethers → StateChannel → String → Result AppInstance
get_app_instance e ch hash =
    let installed =
      or_throw (lookup hash ch.app_instances)
        "Attempted to edit an appInstance that does not exist" in
    elim ch.free_balance_app_instance [
      | none ↦ installed
      | some fb ↦ if str_eq hash (identity_hash e fb) then ok fb else installed
    ]

-- `hasAppInstance` and `isAppInstanceInstalled`
unfoldable pub has_app_instance : StateChannel → String → Bool
has_app_instance ch hash = has hash ch.app_instances

unfoldable pub has_app_proposal : StateChannel → String → Bool
has_app_proposal ch hash = has hash ch.proposed_app_instances
