-- ===== src/Store/Lookup.antt =====
-- modules/cf-core/src/store.ts, the operations that look up channels, apps and proposals; with the
-- queries of modules/cf-core/src/models/state-channel.ts on the store.
use indra.Prelude.{
  String, str_eq, ℕ, ltb, ◌==◌, Bool, true, false, not, Option, none, some, List, [], ◌∷◌, map,
  filter, Result, ok, err, ◌>>=◌, or_throw, is_some, if◌then◌else◌,
}
use indra.Dict.{values}
use indra.Ethers.{Ethers}
use indra.Keys.{codes}
use indra.AppInstance
use indra.AppInstance.{AppInstance, AppInstanceJson}
use indra.StateChannel.Channel.{StateChannel, AppInstanceProposal, get_app_instance}
use indra.StateChannel.Json.{StateChannelJson, from_json}
use indra.Store.Service.{StoreService}
use indra.Store.Persist.{get_state_channel}

-- The searches of IStoreService: by the hash of an app, a proposal or the free balance, and by the
-- owners of a channel.
pub record StoreSearch (W : Type 0) : Type 0 where
  pub get_state_channel_by_app_instance_id : W → String → Result (Option StateChannelJson)
  pub get_state_channel_by_owners : W → List String → Result (Option StateChannelJson)

-- The order of `sort()` on texts, and the sorting: each element behind those that it does not
-- precede.
unfoldable pub codes_lt : List ℕ → List ℕ → Bool
codes_lt [] [] = false
codes_lt [] (b ∷ bs) = true
codes_lt (a ∷ as') [] = false
codes_lt (a ∷ as') (b ∷ bs) = if a == b then codes_lt as' bs else ltb a b

unfoldable pub insert_text : String → List String → List String
unfolding codes_lt
insert_text a [] = a ∷ []
insert_text a (b ∷ bs) = if codes_lt (codes a) (codes b) then a ∷ b ∷ bs else b ∷ insert_text a bs

unfoldable pub sort_texts : List String → List String → List String
unfolding insert_text
sort_texts sorted [] = sorted
sort_texts sorted (a ∷ as') = sort_texts (insert_text a sorted) as'

-- `if (!stateChannelJson) throw`, and else the channel.
abbrev pub channel_or : Option StateChannelJson → String → Result StateChannel
channel_or none message = err message
channel_or (some json) message = from_json json

module _ {W : Type 0} (e : Ethers) (svc : StoreService W) (search : StoreSearch W) where
  unfoldable pub get_state_channel_by_owners : W → List String → Result StateChannel
  unfolding sort_texts
  get_state_channel_by_owners w owners = do
    found ← search.get_state_channel_by_owners w (sort_texts [] owners)
    channel_or found "Call to getStateChannel failed when searching by owners"

  -- Where no channel is found, the address is computed, if there is a provider.
  unfoldable pub get_multisig_address_with_counterparty :
      W → List String → Option (List String → Result String) → Result String
  unfolding get_state_channel_by_owners
  get_multisig_address_with_counterparty w owners get_create2_multisig_address =
      elim (get_state_channel_by_owners w owners) [
        | ok ch ↦ ok ch.multisig_address
        | err _ ↦ elim get_create2_multisig_address [
          | none ↦ err "Could not find multisig address between counterparties"
          | some compute ↦ compute (sort_texts [] owners)
        ]
      ]

  unfoldable pub get_state_channel_from_app_instance_id : W → String → Result StateChannel
  get_state_channel_from_app_instance_id w id = do
    found ← search.get_state_channel_by_app_instance_id w id
    channel_or found "Call to getStateChannel failed when searching for app instance id"

  unfoldable pub has_state_channel : W → String → Bool
  has_state_channel w m = is_some (svc.get_state_channel w m)

  unfoldable pub get_multisig_address_from_app_instance : W → String → Result String
  get_multisig_address_from_app_instance w id = do
    found ← search.get_state_channel_by_app_instance_id w id
    json ← or_throw found "No multisig address exists for the given appInstanceId"
    ok json.multisig_address

  unfoldable pub get_app_instance_proposal : W → String → Result AppInstanceProposal
  get_app_instance_proposal w id = do
    found ← svc.get_app_proposal w id
    or_throw found "No proposed AppInstance exists for the given appInstanceId"

  unfoldable pub get_proposed_app_instances : W → String → Result (List AppInstanceProposal)
  unfolding get_state_channel
  get_proposed_app_instances w m = do
    sc ← get_state_channel e svc w m
    ok (values sc.proposed_app_instances)

  unfoldable pub get_app_instances : W → String → Result (List AppInstanceJson)
  unfolding get_state_channel
  get_app_instances w m = do
    sc ← get_state_channel e svc w m
    ok (map (AppInstance.to_json e) (values sc.app_instances))

  unfoldable pub get_app_instance_of : W → String → Result AppInstance
  unfolding get_state_channel_from_app_instance_id get_app_instance
  get_app_instance_of w id = do
    channel ← get_state_channel_from_app_instance_id w id
    get_app_instance e channel id

  unfoldable pub get_peers_address_from_channel : String → W → String → Result (List String)
  unfolding get_state_channel
  get_peers_address_from_channel my_identifier w m = do
    ch ← get_state_channel e svc w m
    ok (filter (λ owner. not (str_eq owner my_identifier)) ch.user_neutered_extended_keys)
