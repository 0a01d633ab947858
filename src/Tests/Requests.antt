-- ===== src/Tests/Requests.antt =====
-- A node of the fixture that holds a proposal; the proposal is rejected.
mod Install
use indra.Prelude.{String, none, [], ◌∷◌, ok, pos, ◌≡◌, refl}
use indra.Dict.{Dict}
use indra.AppInstance.{OutcomeType, identity_hash, construct}
use indra.States.{opaque_state}
use indra.Protocol.Install.{app_to_be_installed, no_parameters}
use indra.StateChannel.Channel.{StateChannel, AppInstanceProposal}
use indra.StateChannel.Json.{to_json, IsStorableChannel, map_values}
use indra.Store.Service.{Keeps}
use indra.Store.KeyValue.{
  StoredChannel, key_value_storage, get_state_channel, save_state_channel, channel_key, channels_of,
  properly_convert_channel_null_vals, get_all_channels, find_channel, get_app_proposal,
  get_state_channel_by_app_instance_id,
}
use indra.Store.Lookup.{StoreSearch}
use indra.Store.Node.{World}
use indra.Protocol.Propose.{Propose, responder_proposal}
use indra.Methods.Params.{install_params}
use indra.Methods.Request.{RequestHandler}
use indra.Methods.Install.{RejectProposalMessage, reject_install, handle_reject_proposal_message}
use indra.Methods.Install.Deposits.{proposed_params, install_params-responder_proposal}
use indra.Methods.Install.Rejected.{HoldsProposal, rejected_on_both_sides, without_proposal}
use indra.Tests.Evaluation.{evaluation}
use indra.Tests.Fixture.{ethers, ethers-ReadsHex, channel}
use indra.Tests.Signing.{signing, network}
use indra.Tests.Installation.{coder}
use indra.Tests.Life.{decoder, chain}
use indra.Tests.Stores.{Text, texts, items, service, promised, stored, stored-Keeps}

-- The proposer asks for 4 of the receiver, and offers 1.
abbrev pub proposing : Propose
proposing = record {
  process_id = "5";
  initiator_xpub = "xpubB";
  responder_xpub = "xpubA";
  app_definition = "0xee";
  abi_encodings = ("uint256", none);
  initiator_deposit = pos 1;
  initiator_deposit_token_address = none;
  responder_deposit = pos 4;
  responder_deposit_token_address = none;
  timeout = pos 10;
  initial_state = opaque_state "start";
  outcome_type = OutcomeType.two_party_fixed_outcome;
  meta = none;
  challenge_registry = "0xff";
  pre_channel = ok channel;
}

abbrev pub offered : AppInstanceProposal
unfolding evaluation
offered = responder_proposal ethers proposing channel

abbrev pub offering : StateChannel
offering = record channel {
  proposed_app_instances = (offered.identity_hash, offered) ∷ [];
  monotonic_num_proposed_apps = 3;
}

abbrev pub found_by_hash : StoreSearch (Dict (StoredChannel Text))
found_by_hash = record {
  get_state_channel_by_app_instance_id = get_state_channel_by_app_instance_id texts items;
  get_state_channel_by_owners = λ w owners. ok none;
}

abbrev pub node : String → RequestHandler (Dict (StoredChannel Text))
node me = record {
  ethers = ethers;
  signing = signing;
  coder = coder;
  decoder = decoder;
  chain = chain;
  svc = service;
  search = found_by_hash;
  public_identifier = me;
  network = network;
  coin_balance_refund_app = "0xf0";
  process_id = "6";
  compute_state_transition = λ app action. ok app.latest_state;
  encode_action = λ app action. ok action;
  encode_state = λ app state. ok state.contents;
  create2_multisig_address = none;
  recipient_of = λ state. none;
  sign = λ key hash. "0xaa";
}

abbrev pub holding : StateChannel → World (Dict (StoredChannel Text))
holding ch = record {
  replies = [];
  store = stored ch;
  set_state_commitments = [];
  conditional_commitments = [];
  setup_commitments = [];
}

install_params-responder_proposal_example :
    (install_params ethers "xpubA" offering (responder_proposal ethers proposing channel)
      ≡ ok (proposed_params ethers proposing channel 10))
    × (identity_hash ethers (
          construct (
            app_to_be_installed offering
              (proposed_params ethers proposing channel 10)
              no_parameters))
        ≡ (responder_proposal ethers proposing channel).identity_hash)
unfolding evaluation
install_params-responder_proposal_example =
    install_params-responder_proposal ethers proposing channel offering 10 no_parameters "xpubA"
      "xpubB" ethers-ReadsHex refl refl refl

offering-IsStorable : IsStorableChannel offering
unfolding evaluation
offering-IsStorable = record {
  valid_keys = refl;
  proposals_distinct = (refl, tt);
  apps_distinct = tt;
  apps_storable = tt;
  free_balance_storable = (refl, refl, λ same. cc);
}

pub offering-HoldsProposal :
    (me : String) → HoldsProposal (node me) (stored offering) offering offered
unfolding evaluation key_value_storage get_state_channel save_state_channel channel_key
    properly_convert_channel_null_vals channels_of get_all_channels find_channel
    get_state_channel_by_app_instance_id get_app_proposal map_values to_json
offering-HoldsProposal me = record {
  storable = offering-IsStorable;
  plain = (λ same. cc, tt);
  promises = promised;
  keeps = stored-Keeps offering refl;
  finds_channel = refl;
  finds_proposal = refl;
}

rejected_on_both_sides_example :
    (message : RejectProposalMessage) × ((reject_install
        (node "xpubA")
        offered.identity_hash
        (holding offering)).0
      ≡ ok message)
    × (message.to ≡ "xpubB")
    × Keeps service
        (reject_install (node "xpubA") offered.identity_hash (holding offering)).1.store
        (to_json ethers (without_proposal offering offered.identity_hash))
    × ((handle_reject_proposal_message (node "xpubB") message (holding offering)).0 ≡ ok tt)
    × Keeps service
        (handle_reject_proposal_message (node "xpubB") message (holding offering)).1.store
        (to_json ethers (without_proposal offering offered.identity_hash))
unfolding offered
rejected_on_both_sides_example =
    rejected_on_both_sides (node "xpubA") (node "xpubB") (holding offering) (holding offering)
      offering offering offered offered (offering-HoldsProposal "xpubA")
      (offering-HoldsProposal "xpubB") refl refl refl
