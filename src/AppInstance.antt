-- ===== src/AppInstance.antt =====
-- modules/cf-core/src/models/app-instance.ts: an installed app, its identity and its updates. The
-- `meta` object and the ABI encodings are strings that are only carried along.
use indra.Prelude.{
  String, str_eq, ℕ, ◌+◌, ℤ, not, Option, none, some, List, Result, ok, err, ◌>>◌, throw_if,
  or_else, if◌then◌else◌,
}
use indra.States.{AppState, big_numberify_json, de_big_numberify_json}
use indra.Ethers.{Ethers}
use indra.Keys.{sort_addresses}

pub data OutcomeType : Type 0 where
  two_party_fixed_outcome : OutcomeType
  multi_asset_multi_party_coin_transfer : OutcomeType
  single_asset_two_party_coin_transfer : OutcomeType

pub record AppInterface : Type 0 where
  pub addr : String
  pub state_encoding : String
  pub action_encoding : Option String

pub record TwoPartyFixedOutcomeInterpreterParams : Type 0 where
  pub player_addrs : String × String
  pub amount : ℤ
  pub token_address : String

pub record MultiAssetMultiPartyCoinTransferInterpreterParams : Type 0 where
  pub limit : List ℤ
  pub token_addresses : List String

pub record SingleAssetTwoPartyCoinTransferInterpreterParams : Type 0 where
  pub limit : ℤ
  pub token_address : String

pub record AppInstance : Type 0 where
  pub participants : List String
  pub default_timeout : ℕ
  pub app_interface : AppInterface
  pub app_seq_no : ℕ
  pub latest_state : AppState
  pub latest_version_number : ℕ
  pub latest_timeout : ℕ
  pub outcome_type : OutcomeType
  pub multisig_address : String
  pub meta : Option String
  pub two_party_params : Option TwoPartyFixedOutcomeInterpreterParams
  pub multi_asset_params : Option MultiAssetMultiPartyCoinTransferInterpreterParams
  pub single_asset_params : Option SingleAssetTwoPartyCoinTransferInterpreterParams

-- The JSON form has the fields of the instance and its identity hash. The numbers of the interpreter
-- parameters are the same in both, as `fromJson` makes big numbers of them again.
pub record AppInstanceJson : Type 0 where
  pub identity_hash : String
  pub fields : AppInstance

-- The constructor, on the arguments that it is given.
unfoldable pub construct : AppInstance → AppInstance
construct a = record a { participants = sort_addresses a.participants }

-- The accessors of the interpreter parameters throw unless the outcome type is theirs.
unfoldable pub get_two_party_params :
    AppInstance → Result (Option TwoPartyFixedOutcomeInterpreterParams)
get_two_party_params a = elim a.outcome_type [
  | OutcomeType.two_party_fixed_outcome ↦ ok a.two_party_params
  | _ ↦ err "Invalid Accessor"
]

unfoldable pub get_multi_asset_params :
    AppInstance → Result (Option MultiAssetMultiPartyCoinTransferInterpreterParams)
get_multi_asset_params a = elim a.outcome_type [
  | OutcomeType.multi_asset_multi_party_coin_transfer ↦ ok a.multi_asset_params
  | _ ↦ err "Invalid Accessor"
]

unfoldable pub get_single_asset_params :
    AppInstance → Result (Option SingleAssetTwoPartyCoinTransferInterpreterParams)
get_single_asset_params a = elim a.outcome_type [
  | OutcomeType.single_asset_two_party_coin_transfer ↦ ok a.single_asset_params
  | _ ↦ err "Invalid Accessor"
]

-- `encoding || null`, which drops the empty string too.
unfoldable pub or_null : Option String → Option String
or_null none = none
or_null (some s) = if str_eq s "" then none else some s

-- `appIdentityToHash` reads the nonce and the participants of an identity.
unfoldable pub app_identity_to_hash : Ethers → ℕ → List String → String
app_identity_to_hash e nonce participants = e.hash_of_identity nonce participants

unfoldable pub identity_hash : Ethers → AppInstance → String
identity_hash e a = app_identity_to_hash e a.app_seq_no a.participants

unfoldable pub to_json : Ethers → AppInstance → AppInstanceJson
unfolding or_null
to_json e a = record {
  identity_hash = identity_hash e a;
  fields = record a {
    app_interface = record (a.app_interface) {
      action_encoding = or_null a.app_interface.action_encoding;
    };
    latest_state = de_big_numberify_json a.latest_state;
  };
}

unfoldable pub from_json : AppInstanceJson → AppInstance
from_json j =
    construct (record (j.fields) { latest_state = big_numberify_json j.fields.latest_state })

-- A timeout that is left out is the default one.
unfoldable pub set_state : Ethers → AppInstance → AppState → Option ℕ → Result AppInstance
unfolding to_json from_json
set_state e a new_state timeout =
    throw_if (not (e.encodes a.app_interface.state_encoding new_state))
      "Attempted to setState on an app with an invalid state object."
    >> ok (
        from_json (record (to_json e a) {
          fields = record ((to_json e a).fields) {
            latest_state = new_state;
            latest_version_number = a.latest_version_number + 1;
            latest_timeout = or_else timeout a.default_timeout;
          };
        }))
