-- ===== src/Tests/Stores.antt =====
-- A key-value store in memory, and the channel of the fixture in it.
use indra.Prelude.{◌∷◌, true, none, some, [], ok, ok-injective, ◌≡◌, refl, subst}
use indra.Dict.{Dict, lookup, set, keys}
use indra.Dict.Laws.{lookup-set_self}
use indra.AppInstance.{AppInstance, AppInstanceJson, OutcomeType, identity_hash}
use indra.StateChannel.Channel.{StateChannel, AppInstanceProposal}
use indra.StateChannel.Updates.{install_app, uninstall_app, add_proposal}
use indra.StateChannel.Json.{
  IsStorableChannel, with_json_proposals, to_json, from_json, from_json-to_json, map_values,
}
use indra.States.{opaque_state, big_numbers}
use indra.Machine.{app_instance, uninstall}
use indra.Store.Service.{StoreService, Keeps, Leads, Promises}
use indra.Store.KeyValue.{
  WrappedStorage, StoredChannel, Json, key_value_storage, get_state_channel, save_state_channel,
  save_free_balance, channel_key, properly_convert_channel_null_vals, channels_of, get_all_channels,
  find_channel, get_state_channel_by_app_instance_id, get_app_proposal,
}
use indra.Store.KeyValue.Promises.{IsReliable, key_value_storage-Promises}
use indra.Store.Persist.{persist_app_instance}
use indra.Store.Persist.Follows.{FindsProposal, persist-install_app}
use indra.Store.Persist.Others.{persist-uninstall_app}
use indra.Tests.Evaluation.{evaluation}
use indra.Tests.Fixture.{ethers, app, channel, deposits, outcome}

-- The texts are what they were made of.
pub data Text : Type 0 where
  app_text : (a : AppInstanceJson) → Text
  proposal_text : (p : AppInstanceProposal) → Text

abbrev some_proposal : AppInstanceProposal
some_proposal = record {
  identity_hash = "other";
  app_definition = "0xee";
  abi_encodings = ("uint256", none);
  initiator_deposit = "";
  initiator_deposit_token_address = "";
  responder_deposit = "";
  responder_deposit_token_address = "";
  timeout = "";
  initial_state = opaque_state "start";
  app_seq_no = 3;
  proposed_by_identifier = "xpubA";
  proposed_to_identifier = "xpubB";
  outcome_type = OutcomeType.two_party_fixed_outcome;
  meta = none;
}

abbrev app_of : Text → AppInstanceJson
app_of (app_text a) = a
app_of (proposal_text p) = record { identity_hash = ""; fields = app }

abbrev proposal_of : Text → AppInstanceProposal
proposal_of (app_text a) = some_proposal
proposal_of (proposal_text p) = p

abbrev pub texts : Json Text (StoredChannel Text)
texts = record {
  stringify_channel = λ c. c;
  parse_channel = λ c. c;
  stringify_app = λ a. app_text a;
  parse_app = app_of;
  stringify_proposal = λ p. proposal_text p;
  parse_proposal = proposal_of;
  includes = λ key word. true;
}

abbrev pub items : WrappedStorage (Dict (StoredChannel Text)) (StoredChannel Text)
items = record {
  get_item = λ s key. lookup key s;
  set_item = λ s key value. set key value s;
  get_keys = λ s. keys s;
  get_key = λ kind m. m;
}

texts-IsReliable : IsReliable texts items
texts-IsReliable = record {
  reads_back = λ s key value. lookup-set_self key value s;
  parses_channel = λ c. refl;
  parses_app = λ a. refl;
  parses_proposal = λ p. refl;
}

abbrev pub service : StoreService (Dict (StoredChannel Text))
service = key_value_storage texts items

pub promised : Promises service "0xdd"
promised = key_value_storage-Promises texts items texts-IsReliable "0xdd"

-- The channel with a proposal whose state holds an instance of BigNumber.
abbrev numbered : StateChannel
numbered = record channel {
  proposed_app_instances =
      (
        "other",
        record some_proposal {
          initial_state = record (some_proposal.initial_state) { numbers = big_numbers };
        },
      )
      ∷ [];
}

numbered-IsStorable : IsStorableChannel numbered
unfolding evaluation
numbered-IsStorable = record {
  valid_keys = refl;
  proposals_distinct = (refl, tt);
  apps_distinct = tt;
  apps_storable = tt;
  free_balance_storable = (refl, refl, λ same. cc);
}

from_json-to_json_example : from_json (to_json ethers numbered) ≡ ok (with_json_proposals numbered)
from_json-to_json_example = from_json-to_json ethers numbered numbered-IsStorable

abbrev pub stored : StateChannel → Dict (StoredChannel Text)
stored ch = service.save_state_channel [] (to_json ethers ch)

pub stored-Keeps :
    (ch : StateChannel)
    → ch.multisig_address ≡ "0xdd"
    → Keeps service (stored ch) (to_json ethers ch)
unfolding to_json
stored-Keeps ch here = promised.saves_channel [] (to_json ethers ch) here

abbrev installs : (post : StateChannel) × (install_app ethers channel app deposits ≡ ok post)
unfolding evaluation
installs = (_, refl)

abbrev paid : (fb : AppInstance) × (installs.0.free_balance_app_instance ≡ some fb)
unfolding evaluation
paid = (_, refl)

finds : FindsProposal ethers service (stored channel) channel app paid.0
unfolding evaluation key_value_storage get_state_channel save_state_channel save_free_balance
    channel_key properly_convert_channel_null_vals channels_of get_all_channels find_channel
    get_state_channel_by_app_instance_id get_app_proposal map_values to_json
finds w1 saved =
    subst (λ w. service.get_app_proposal w (identity_hash ethers app) ≡ ok none)
      (ok-injective saved) refl

persist-install_app_example :
    Leads service
      (persist_app_instance ethers service (stored channel) installs.0 (app_instance app))
      (to_json ethers installs.0)
unfolding evaluation
persist-install_app_example =
    persist-install_app ethers service (stored channel) channel installs.0 app paid.0 deposits
      promised (stored-Keeps channel refl) tt installs.1 paid.1 refl finds

abbrev uninstalls : (post : StateChannel) × (uninstall_app ethers installs.0 app outcome ≡ ok post)
unfolding evaluation
uninstalls = (_, refl)

persist-uninstall_app_example :
    Leads service
      (persist_app_instance ethers service (stored installs.0) uninstalls.0 (uninstall app))
      (to_json ethers uninstalls.0)
unfolding evaluation
persist-uninstall_app_example =
    persist-uninstall_app ethers service (stored installs.0) installs.0 uninstalls.0 app outcome
      promised (stored-Keeps installs.0 refl) (refl, tt) uninstalls.1

abbrev proposes : (post : StateChannel) × (add_proposal channel some_proposal ≡ ok post)
unfolding evaluation
proposes = (_, refl)
