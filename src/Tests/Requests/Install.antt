-- ===== src/Tests/Requests/Install.antt =====
-- A node that is asked to install the app that was proposed to it.
use indra.Prelude.{none, some, [], ◌∷◌, ok, ok-injective, subst, pos, ◌≡◌, refl}
use indra.Dict.{lookup}
use indra.AppInstance.{AppInstance, identity_hash}
use indra.Protocol.Install.{no_parameters}
use indra.StateChannel.Json.{to_json, map_values}
use indra.Store.Service.{Keeps}
use indra.Store.KeyValue.{
  key_value_storage, get_state_channel, save_state_channel, save_free_balance, channel_key,
  channels_of, properly_convert_channel_null_vals, get_all_channels, find_channel, get_app_proposal,
  get_state_channel_by_app_instance_id,
}
use indra.Coins.{TokenIndexedCoinTransferMap}
use indra.StateChannel.Updates.{install_app}
use indra.Protocol.Install.{balance_decrement}
use indra.Protocol.Install.Exchange.{
  Install, Installation, FreeBalanceUpdate, prepare_install, prepare_free_balance_update,
}
use indra.Store.Persist.Follows.{FindsProposal}
use indra.Methods.Params.{is_blank}
use indra.Methods.Install.{install}
use indra.Methods.Install.Deposits.{proposed_params, install_params-responder_proposal}
use indra.Methods.Install.Installed.{install-installs, answered, started}
use indra.Protocol.Install.Sufficient.{decrement_of}
use indra.Tests.Evaluation.{evaluation}
use indra.Tests.Fixture.{ethers, ethers-ReadsHex, eth, channel}
use indra.Tests.Signing.{signing}
use indra.Tests.Installation.{coder}
use indra.Tests.Stores.{service, stored}
use indra.Tests.Requests.{proposing, offered, offering, node, holding, offering-HoldsProposal}

-- The receiver installs it.
abbrev installation : Install
unfolding evaluation offered
installation =
    started (node "xpubA") "0xbb" "0xbb" (proposed_params ethers proposing channel 10) offering

abbrev prepares_install :
    (p : Installation) × (prepare_install ethers signing coder installation ≡ ok p)
unfolding evaluation
prepares_install = (_, refl)

abbrev updates_free_balance :
    (f : FreeBalanceUpdate) × (prepare_free_balance_update ethers signing installation
        prepares_install.0
      ≡ ok f)
unfolding evaluation
updates_free_balance = (_, refl)

abbrev decrements : TokenIndexedCoinTransferMap
unfolding evaluation
decrements = balance_decrement eth eth "0xaa" "0xbb" (pos 4) (pos 1)

installs :
    install_app ethers offering prepares_install.0.app decrements
    ≡ ok prepares_install.0.post_channel
unfolding evaluation
installs = refl

abbrev paid :
    (fb : AppInstance) × (prepares_install.0.post_channel.free_balance_app_instance ≡ some fb)
unfolding evaluation
paid = (_, refl)

finds : FindsProposal ethers service (stored offering) offering prepares_install.0.app paid.0
unfolding evaluation offered key_value_storage get_state_channel save_state_channel
    save_free_balance channel_key properly_convert_channel_null_vals channels_of get_all_channels
    find_channel get_state_channel_by_app_instance_id get_app_proposal map_values to_json
finds w1 saved =
    subst
      (λ w.
        service.get_app_proposal w (identity_hash ethers prepares_install.0.app)
        ≡ ok (some offered))
      (ok-injective saved) refl

install-installs_example :
    (install_app ethers offering prepares_install.0.app
        (decrement_of ethers (proposed_params ethers proposing channel 10))
      ≡ ok prepares_install.0.post_channel)
    × ((install (node "xpubA") offered.identity_hash (
          answered
            (node "xpubA")
            "0xbb"
            "0xbb"
            (proposed_params ethers proposing channel 10)
            offering
            (holding offering))).0
        ≡ ok offered)
    × Keeps service
        (install (node "xpubA") offered.identity_hash (
          answered
            (node "xpubA")
            "0xbb"
            "0xbb"
            (proposed_params ethers proposing channel 10)
            offering
            (holding offering))).1.store
        (to_json ethers prepares_install.0.post_channel)
    × (lookup offered.identity_hash prepares_install.0.post_channel.app_instances
        ≡ some prepares_install.0.app)
    × (lookup offered.identity_hash prepares_install.0.post_channel.proposed_app_instances ≡ none)
    × (lookup
          (identity_hash ethers prepares_install.0.app)
          (install (node "xpubA") offered.identity_hash (
            answered
              (node "xpubA")
              "0xbb"
              "0xbb"
              (proposed_params ethers proposing channel 10)
              offering
              (holding offering))).1.conditional_commitments
        ≡ some (record (prepares_install.0.commitment) {
          signatures = some "0xaa" ∷ some "0xbb" ∷ [];
        }))
    × (lookup
          (identity_hash ethers updates_free_balance.0.fb)
          (install (node "xpubA") offered.identity_hash (
            answered
              (node "xpubA")
              "0xbb"
              "0xbb"
              (proposed_params ethers proposing channel 10)
              offering
              (holding offering))).1.set_state_commitments
        ≡ some (record (updates_free_balance.0.commitment) {
          signatures = some "0xaa" ∷ some "0xbb" ∷ [];
        }))
unfolding evaluation offered is_blank
install-installs_example =
    install-installs (node "xpubA") "0xbb" "0xbb" (holding offering) offering offered
      (proposed_params ethers proposing channel 10) prepares_install.0 updates_free_balance.0 paid.0
      (offering-HoldsProposal "xpubA") refl
      (install_params-responder_proposal ethers proposing channel offering 10 no_parameters "xpubA"
        "xpubB" ethers-ReadsHex refl refl refl).0
      tt prepares_install.1 updates_free_balance.1 refl refl paid.1 refl finds refl
