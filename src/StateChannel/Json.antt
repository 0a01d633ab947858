-- ===== src/StateChannel/Json.antt =====
-- `toJson` and `fromJson` of modules/cf-core/src/models/state-channel.ts. A JSON array of pairs of a
-- hash and an object is a dictionary.
use indra.Prelude.{
  String, ℕ, true, Option, none, some, List, [], ◌∷◌, Result, ok, ◌≡◌, ◌≢◌, refl, ap, ◌∙◌, arith,
}
use indra.Dict.{Dict, lookup, set, delete, set_all}
use indra.Dict.Laws.{Distinct, set_all-append}
use indra.States.{
  NumberForm, no_numbers, big_numbers, hex_objects, big_form, hex_form, de_big_numberify_json,
}
use indra.Ethers.{Ethers}
use indra.Keys.{sort_addresses}
use indra.AppInstance
use indra.AppInstance.{AppInstance, AppInstanceJson, or_null}
use indra.StateChannel.Channel.{
  StateChannel, AppInstanceProposal, CriticalStateChannelAddresses, all_xpubs, construct,
}

pub record StateChannelJson : Type 0 where
  pub multisig_address : String
  pub addresses : CriticalStateChannelAddresses
  pub user_neutered_extended_keys : List String
  pub proposed_app_instances : Dict AppInstanceProposal
  pub app_instances : Dict AppInstanceJson
  pub free_balance_app_instance : Option AppInstanceJson
  pub monotonic_num_proposed_apps : ℕ
  pub schema_version : ℕ

-- An array of pairs, with every second part converted.
unfoldable pub map_values {ℓ κ} : {V : Type ℓ} {W : Type κ} → (V → W) → Dict V → Dict W
map_values f [] = []
map_values f ((k, v) ∷ d) = (k, f v) ∷ map_values f d

abbrev pub if_present {ℓ κ} : {V : Type ℓ} {W : Type κ} → (V → W) → Option V → Option W
if_present f none = none
if_present f (some v) = some (f v)

-- A proposal in the JSON form: the big numbers of its state are objects.
unfoldable pub proposal_to_json : AppInstanceProposal → AppInstanceProposal
proposal_to_json p = record p { initial_state = de_big_numberify_json p.initial_state }

unfoldable pub to_json : Ethers → StateChannel → StateChannelJson
unfolding map_values proposal_to_json
to_json e ch = record {
  multisig_address = ch.multisig_address;
  addresses = ch.addresses;
  user_neutered_extended_keys = ch.user_neutered_extended_keys;
  proposed_app_instances = map_values proposal_to_json ch.proposed_app_instances;
  app_instances = map_values (AppInstance.to_json e) ch.app_instances;
  free_balance_app_instance = if_present (AppInstance.to_json e) ch.free_balance_app_instance;
  monotonic_num_proposed_apps = ch.monotonic_num_proposed_apps;
  schema_version = ch.schema_version;
}

unfoldable pub from_json : StateChannelJson → Result StateChannel
unfolding map_values set_all construct
from_json j = construct (record {
  multisig_address = j.multisig_address;
  addresses = j.addresses;
  user_neutered_extended_keys = j.user_neutered_extended_keys;
  -- Not converted back: the proposals keep the objects.
  proposed_app_instances = set_all [] j.proposed_app_instances;
  app_instances = set_all [] (map_values AppInstance.from_json j.app_instances);
  free_balance_app_instance = if_present AppInstance.from_json j.free_balance_app_instance;
  monotonic_num_proposed_apps = j.monotonic_num_proposed_apps;
  schema_version = j.schema_version;
})

pub map_values-set {ℓ κ} :
    {V : Type ℓ} {W : Type κ} (f : V → W) (k : String) (v : V) (d : Dict V)
    → map_values f (set k v d) ≡ set k (f v) (map_values f d)
unfolding map_values set
map_values-set f k v [] = refl
map_values-set f k v ((j, w) ∷ d) = ground (arith, map_values-set f k v d)

pub map_values-delete {ℓ κ} :
    {V : Type ℓ} {W : Type κ} (f : V → W) (k : String) (d : Dict V)
    → map_values f (delete k d) ≡ delete k (map_values f d)
unfolding map_values delete
map_values-delete f k [] = refl
map_values-delete f k ((j, w) ∷ d) = ground (arith, map_values-delete f k d)

-- Conversions that undo each other on the values of a dictionary.
abbrev pub AllValues {ℓ} : {V : Type ℓ} → (V → Type 0) → Dict V → Type 0
AllValues P [] = Unit
AllValues P ((k, v) ∷ d) = P v × AllValues P d

pub map_values-back {κ} :
    {V : Type 0} {W : Type κ} (f : V → W) (g : W → V) (d : Dict V)
    → AllValues (λ v. g (f v) ≡ v) d
    → map_values g (map_values f d) ≡ d
unfolding map_values
map_values-back f g [] h = refl
map_values-back f g ((k, v) ∷ d) h = rw (h.0, map_values-back f g d h.1) refl

-- An app that comes back from its JSON form. The free balance that the setup creates, with its balances
-- as objects, is one when it has been read or set once.
abbrev pub IsStorable : AppInstance → Type 0
IsStorable a =
    (sort_addresses a.participants ≡ a.participants)
    × (or_null a.app_interface.action_encoding ≡ a.app_interface.action_encoding)
    × (a.latest_state.numbers ≢ hex_objects)

from_json-IsStorable :
    (e : Ethers) (a : AppInstance)
    → IsStorable a
    → AppInstance.from_json (AppInstance.to_json e a) ≡ a
unfolding AppInstance.from_json AppInstance.to_json AppInstance.construct
from_json-IsStorable e a h = rw (h.0, h.1, back a.latest_state.numbers h.2) refl
  where
    back : (n : NumberForm) → n ≢ hex_objects → big_form (hex_form n) ≡ n
    back no_numbers other = refl
    back big_numbers other = refl
    back hex_objects other = absurd (other refl)

pub map_values-IsStorable :
    (e : Ethers) (d : Dict AppInstance)
    → AllValues IsStorable d
    → map_values AppInstance.from_json (map_values (AppInstance.to_json e) d) ≡ d
map_values-IsStorable e d h =
    map_values-back (AppInstance.to_json e) AppInstance.from_json d (each d h)
  where
    each :
        (d : Dict AppInstance)
        → AllValues IsStorable d
        → AllValues (λ a. AppInstance.from_json (AppInstance.to_json e a) ≡ a) d
    each [] h = tt
    each ((k, a) ∷ d) h = (from_json-IsStorable e a h.0, each d h.1)

abbrev IfPresent : (AppInstance → Type 0) → Option AppInstance → Type 0
IfPresent P none = Unit
IfPresent P (some a) = P a

if_present-IsStorable :
    (e : Ethers) (o : Option AppInstance)
    → IfPresent IsStorable o
    → if_present AppInstance.from_json (if_present (AppInstance.to_json e) o) ≡ o
if_present-IsStorable e none h = refl
if_present-IsStorable e (some a) h = rw (from_json-IsStorable e a h) refl

-- A proposal that is its own JSON form: its state holds no instance of BigNumber.
abbrev pub IsPlain : AppInstanceProposal → Type 0
IsPlain p = p.initial_state.numbers ≢ big_numbers

pub proposal_to_json-IsPlain : (p : AppInstanceProposal) → IsPlain p → proposal_to_json p ≡ p
unfolding proposal_to_json
proposal_to_json-IsPlain p plain = rw (same p.initial_state.numbers plain) refl
  where
    same : (n : NumberForm) → n ≢ big_numbers → hex_form n ≡ n
    same no_numbers plain = refl
    same big_numbers plain = absurd (plain refl)
    same hex_objects plain = refl

map_values-IsPlain :
    (d : Dict AppInstanceProposal) → AllValues IsPlain d → map_values proposal_to_json d ≡ d
unfolding map_values
map_values-IsPlain [] h = refl
map_values-IsPlain ((k, p) ∷ d) h =
    rw (proposal_to_json-IsPlain p h.0, map_values-IsPlain d h.1) refl

-- A channel that comes back from its JSON form: no key stands twice, and its apps come back.
pub record IsStorableChannel (ch : StateChannel) : Type 0 where
  pub valid_keys : all_xpubs ch.user_neutered_extended_keys ≡ true
  pub proposals_distinct : Distinct ch.proposed_app_instances
  pub apps_distinct : Distinct ch.app_instances
  pub apps_storable : AllValues IsStorable ch.app_instances
  pub free_balance_storable : IfPresent IsStorable ch.free_balance_app_instance

lookup-map_values :
    {V W : Type 0} (f : V → W) (k : String) (d : Dict V)
    → lookup k d ≡ none
    → lookup k (map_values f d) ≡ none
unfolding map_values lookup
lookup-map_values f k [] absent = refl
lookup-map_values f k ((j, v) ∷ d) absent = ground (arith, lookup-map_values f k d)

map_values-Distinct :
    {V W : Type 0} (f : V → W) (d : Dict V) → Distinct d → Distinct (map_values f d)
unfolding map_values
map_values-Distinct f [] distinct = tt
map_values-Distinct f ((k, v) ∷ d) distinct =
    (lookup-map_values f k d distinct.0, map_values-Distinct f d distinct.1)

-- The channel with its proposals as they stand in the JSON form.
abbrev pub with_json_proposals : StateChannel → StateChannel
with_json_proposals ch = record ch {
  proposed_app_instances = map_values proposal_to_json ch.proposed_app_instances;
}

-- A channel is read back from its JSON form as it was but for its proposals, in whose states an
-- instance of BigNumber has become an object, when its extended keys are valid, no key of its apps or
-- of its proposals stands twice, and every app in it, the free balance included, has sorted
-- participants, no empty action encoding and its big numbers as such.
pub from_json-to_json :
    (e : Ethers) (ch : StateChannel)
    → IsStorableChannel ch
    → from_json (to_json e ch) ≡ ok (with_json_proposals ch)
unfolding from_json to_json construct
from_json-to_json e ch h =
    rw
      (
        map_values-IsStorable e ch.app_instances h.apps_storable,
        if_present-IsStorable e ch.free_balance_app_instance h.free_balance_storable,
        set_all-append [] ch.app_instances h.apps_distinct,
        set_all-append [] (map_values proposal_to_json ch.proposed_app_instances)
            (map_values-Distinct proposal_to_json ch.proposed_app_instances h.proposals_distinct),
        h.valid_keys,
      )
      refl

-- As it was, when the proposals hold no big numbers that would have to be restored.
pub from_json-IsPlain :
    (e : Ethers) (ch : StateChannel)
    → IsStorableChannel ch
    → AllValues IsPlain ch.proposed_app_instances
    → from_json (to_json e ch) ≡ ok ch
from_json-IsPlain e ch h plain =
    from_json-to_json e ch h
    ∙ ap (λ d. ok (record ch { proposed_app_instances = d }))
        (map_values-IsPlain ch.proposed_app_instances plain)
