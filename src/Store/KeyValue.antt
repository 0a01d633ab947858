-- ===== src/Store/KeyValue.antt =====
-- modules/store/src/wrappers/keyValueStorage.ts: channels as texts in a storage of keys and values.
-- The storage is an interface; the texts of JSON are a parameter.
pub mod Promises
use text.Mathlib.Text.{starts_with}
use indra.Prelude.{
  String, str_eq, ℕ, Bool, true, false, Option, none, some, List, [], ◌∷◌, Result, ok, err, ◌>>=◌,
  or_throw, is_some, ◌||◌, if◌then◌else◌,
}
use indra.Dict.{Dict, lookup, has, set, delete}
use indra.AppInstance.{AppInstanceJson}
use indra.StateChannel.Channel.{AppInstanceProposal, CriticalStateChannelAddresses}
use indra.StateChannel.Json.{StateChannelJson, map_values}
use indra.Store.Service.{
  StoreService, with_free_balance, with_proposal, without_proposal, with_app, without_app,
}

-- `WrappedStorage` of modules/types/src/store.ts, the part that channels use; `getKey` on two parts.
-- The values are texts of JSON, of a type `U`; the texts inside of them are of a type `T`.
pub record WrappedStorage (S U : Type 0) : Type 0 where
  pub get_item : S → String → Option U
  pub set_item : S → String → U → S
  pub get_keys : S → List String
  pub get_key : String → String → String

-- A channel as it is written: its apps and proposals are texts.
pub record StoredChannel (T : Type 0) : Type 0 where
  pub multisig_address : String
  pub addresses : CriticalStateChannelAddresses
  pub user_neutered_extended_keys : List String
  pub proposed_app_instances : Dict T
  pub app_instances : Dict T
  pub free_balance_app_instance : Option AppInstanceJson
  pub monotonic_num_proposed_apps : ℕ
  pub schema_version : ℕ

-- The texts of JSON, of which nothing is assumed here, and `key.includes("channel")`. What
-- `safeJsonStringify` and `safeJsonParse` do with the values in them is not modelled.
pub record Json (T U : Type 0) : Type 0 where
  pub stringify_channel : StoredChannel T → U
  pub parse_channel : U → StoredChannel T
  pub stringify_app : AppInstanceJson → T
  pub parse_app : T → AppInstanceJson
  pub stringify_proposal : AppInstanceProposal → T
  pub parse_proposal : T → AppInstanceProposal
  pub includes : String → String → Bool

unfoldable pub channel_key : String
channel_key = "channel"

-- `properlyConvertChannelNullVals`
unfoldable pub properly_convert_channel_null_vals :
    {T U : Type 0} → Json T U → StoredChannel T → StateChannelJson
properly_convert_channel_null_vals json c = record {
  multisig_address = c.multisig_address;
  addresses = c.addresses;
  user_neutered_extended_keys = c.user_neutered_extended_keys;
  proposed_app_instances = map_values json.parse_proposal c.proposed_app_instances;
  app_instances = map_values json.parse_app c.app_instances;
  free_balance_app_instance = c.free_balance_app_instance;
  monotonic_num_proposed_apps = c.monotonic_num_proposed_apps;
  schema_version = c.schema_version;
}

-- What `saveStateChannel` writes.
abbrev pub stored_channel : {T U : Type 0} → Json T U → StateChannelJson → StoredChannel T
stored_channel json j = record {
  multisig_address = j.multisig_address;
  addresses = j.addresses;
  user_neutered_extended_keys = j.user_neutered_extended_keys;
  proposed_app_instances = map_values json.stringify_proposal j.proposed_app_instances;
  app_instances = map_values json.stringify_app j.app_instances;
  free_balance_app_instance = j.free_balance_app_instance;
  monotonic_num_proposed_apps = j.monotonic_num_proposed_apps;
  schema_version = j.schema_version;
}

module _ {S T U : Type 0} (json : Json T U) (storage : WrappedStorage S U) where
  abbrev pub read_channel : Option U → Option StateChannelJson
  read_channel none = none
  read_channel (some text) =
      some (properly_convert_channel_null_vals json (json.parse_channel text))

  unfoldable pub get_state_channel : S → String → Option StateChannelJson
  unfolding channel_key
  get_state_channel s m = read_channel (storage.get_item s (storage.get_key channel_key m))

  unfoldable pub save_state_channel : S → StateChannelJson → S
  unfolding channel_key
  save_state_channel s j =
      storage.set_item s (storage.get_key channel_key j.multisig_address)
        (json.stringify_channel (stored_channel json j))

  -- `getAllChannels`: each key that has the word "channel" in it.
  unfoldable pub channels_of : S → List String → Result (List StateChannelJson)
  unfolding channel_key properly_convert_channel_null_vals
  channels_of s [] = ok []
  channels_of s (key ∷ keys) = do
    rest ← channels_of s keys
    if json.includes key channel_key
        then (do
          text ←
              or_throw (storage.get_item s key)
                "Cannot read property 'proposedAppInstances' of undefined"
          ok (properly_convert_channel_null_vals json (json.parse_channel text) ∷ rest))
        else ok rest

  unfoldable pub get_all_channels : S → Result (List StateChannelJson)
  unfolding channels_of
  get_all_channels s = channels_of s (storage.get_keys s)

  -- The first channel with a proposal, an app or a free balance of the hash.
  unfoldable pub find_channel : String → List StateChannelJson → Result (Option StateChannelJson)
  find_channel id [] = ok none
  find_channel id (j ∷ js) =
      let rest = find_channel id js in
      if has id j.proposed_app_instances || has id j.app_instances
      then ok (some j)
      else (elim j.free_balance_app_instance [
        | none ↦ err "Cannot read property 'identityHash' of undefined"
        | some fb ↦ if str_eq fb.identity_hash id then ok (some j) else rest
      ])

  unfoldable pub get_state_channel_by_app_instance_id :
      S → String → Result (Option StateChannelJson)
  unfolding get_all_channels find_channel
  get_state_channel_by_app_instance_id s id = do
    channels ← get_all_channels s
    find_channel id channels

  unfoldable pub get_app_instance : S → String → Result (Option AppInstanceJson)
  unfolding get_state_channel_by_app_instance_id
  get_app_instance s id = do
    found ← get_state_channel_by_app_instance_id s id
    ok (elim found [ none ↦ none | some j ↦ lookup id j.app_instances ])

  unfoldable pub save_app_instance : S → String → AppInstanceJson → Result S
  unfolding get_state_channel save_state_channel
  save_app_instance s m a = do
    j ← or_throw (get_state_channel s m) "Can't save app instance without channel"
    ok (save_state_channel s (with_app a j))

  unfoldable pub remove_app_instance : S → String → String → Result S
  unfolding get_state_channel save_state_channel
  remove_app_instance s m id = ok (elim (get_state_channel s m) [
    | none ↦ s
    | some j ↦ if has id j.app_instances then save_state_channel s (without_app id j) else s
  ])

  unfoldable pub get_app_proposal : S → String → Result (Option AppInstanceProposal)
  unfolding get_state_channel_by_app_instance_id
  get_app_proposal s id = do
    found ← get_state_channel_by_app_instance_id s id
    ok (elim found [ none ↦ none | some j ↦ lookup id j.proposed_app_instances ])

  unfoldable pub save_app_proposal : S → String → AppInstanceProposal → Result S
  unfolding get_state_channel save_state_channel
  save_app_proposal s m p = do
    j ← or_throw (get_state_channel s m) "Can't save app proposal without channel"
    ok (save_state_channel s (with_proposal p j))

  unfoldable pub remove_app_proposal : S → String → String → Result S
  unfolding get_state_channel save_state_channel
  remove_app_proposal s m id = ok (elim (get_state_channel s m) [
    | none ↦ s
    | some j ↦
        if has id j.proposed_app_instances then save_state_channel s (without_proposal id j) else s
  ])

  unfoldable pub get_free_balance : S → String → Option AppInstanceJson
  unfolding get_state_channel
  get_free_balance s m = elim (get_state_channel s m) [
    | none ↦ none
    | some j ↦ j.free_balance_app_instance
  ]

  unfoldable pub save_free_balance : S → String → AppInstanceJson → Result S
  unfolding get_state_channel save_state_channel
  save_free_balance s m fb = do
    j ← or_throw (get_state_channel s m) "Cannot save free balance without channel"
    ok (save_state_channel s (with_free_balance fb j))

  unfoldable pub key_value_storage : StoreService S
  unfolding get_state_channel save_state_channel save_free_balance get_app_proposal
      save_app_proposal remove_app_proposal save_app_instance remove_app_instance
  key_value_storage = record {
    get_state_channel = get_state_channel;
    save_state_channel = save_state_channel;
    save_free_balance = save_free_balance;
    get_app_proposal = get_app_proposal;
    save_app_proposal = save_app_proposal;
    remove_app_proposal = remove_app_proposal;
    save_app_instance = save_app_instance;
    remove_app_instance = remove_app_instance;
  }
