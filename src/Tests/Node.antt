-- ===== src/Tests/Node.antt =====
-- A node with the channel of the fixture in its store initiates an installation.
use indra.Prelude.{ℕ, String, none, some, [], ◌∷◌, ok, ok-injective, pos, ◌≡◌, refl, subst}
use indra.Dict.{Dict, lookup}
use indra.AppInstance.{AppInstance, identity_hash}
use indra.StateChannel.Updates.{install_app}
use indra.StateChannel.Json.{to_json, map_values}
use indra.Coins.{TokenIndexedCoinTransferMap}
use indra.Protocol.Install.{balance_decrement}
use indra.Store.Service.{Keeps}
use indra.Store.KeyValue.{
  StoredChannel, key_value_storage, get_state_channel, save_state_channel, save_free_balance,
  channel_key, properly_convert_channel_null_vals, channels_of, get_all_channels, find_channel,
  get_state_channel_by_app_instance_id, get_app_proposal,
}
use indra.Store.Persist.Follows.{FindsProposal}
use indra.Store.Node.{World}
use indra.Store.Node.Installs.{run_at_node, run_at_node-installs}
use indra.Protocol.Install.Sufficient.{decrement_of}
use indra.Tests.Evaluation.{evaluation}
use indra.Tests.Fixture.{ethers, eth, channel}
use indra.Tests.Signing.{signing}
use indra.Tests.Installation.{coder, installation, prepares_install, updates_free_balance}
use indra.Tests.Stores.{Text, service, promised, stored, stored-Keeps}

abbrev decrements : TokenIndexedCoinTransferMap
unfolding evaluation
decrements = balance_decrement eth eth "0xaa" "0xbb" (pos 4) (pos 1)

abbrev signs : ℕ → String → String
signs key hash = "0xaa"

abbrev world : World (Dict (StoredChannel Text))
world = record {
  replies = [];
  store = stored channel;
  set_state_commitments = [];
  conditional_commitments = [];
  setup_commitments = [];
}

abbrev paid :
    (fb : AppInstance) × (prepares_install.0.post_channel.free_balance_app_instance ≡ some fb)
unfolding evaluation
paid = (_, refl)

finds : FindsProposal ethers service (stored channel) channel prepares_install.0.app paid.0
unfolding evaluation key_value_storage get_state_channel save_state_channel save_free_balance
    channel_key properly_convert_channel_null_vals channels_of get_all_channels find_channel
    get_state_channel_by_app_instance_id get_app_proposal map_values to_json
finds w1 saved =
    subst (λ w. service.get_app_proposal w (identity_hash ethers prepares_install.0.app) ≡ ok none)
      (ok-injective saved) refl

run_at_node-installs_example :
    (install_app ethers channel prepares_install.0.app (decrement_of ethers installation.params)
      ≡ ok prepares_install.0.post_channel)
    × ((run_at_node ethers signing coder service signs installation "0xbb" "0xbb" world).0 ≡ ok tt)
    × Keeps service
        (run_at_node ethers signing coder service signs installation "0xbb" "0xbb" world).1.store
        (to_json ethers prepares_install.0.post_channel)
    × (lookup
          (identity_hash ethers prepares_install.0.app)
          (run_at_node ethers signing coder service signs installation "0xbb" "0xbb"
            world).1.conditional_commitments
        ≡ some (record (prepares_install.0.commitment) {
          signatures = some "0xaa" ∷ some "0xbb" ∷ [];
        }))
    × (lookup
          (identity_hash ethers updates_free_balance.0.fb)
          (run_at_node ethers signing coder service signs installation "0xbb" "0xbb"
            world).1.set_state_commitments
        ≡ some (record (updates_free_balance.0.commitment) {
          signatures = some "0xaa" ∷ some "0xbb" ∷ [];
        }))
unfolding evaluation
run_at_node-installs_example =
    run_at_node-installs ethers signing coder service signs installation "0xbb" "0xbb" world channel
      prepares_install.0 updates_free_balance.0 paid.0 refl tt prepares_install.1
      updates_free_balance.1 refl refl promised (stored-Keeps channel refl) tt paid.1 refl finds
