-- ===== src/Tests/Installation.antt =====
-- An installation of an app and the uninstallation of one, between the two owners of the fixture.
use indra.Prelude.{some, none, [], ◌∷◌, ok, ◌≡◌, refl}
use indra.Commitment.Multisig.{ParamsCoder}
use indra.Machine.{signed, no_reply, run_protocol, scripted}
use indra.Machine.Runs.{AllOpcodes, persisted}
use indra.AppInstance.{identity_hash}
use indra.Protocol.Exchange.Agreement.{initiated, responded}
use indra.Protocol.Uninstall.{Uninstall, Uninstalled, prepare_uninstall, uninstall_exchange}
use indra.Protocol.Uninstall.Signed.{uninstalled, uninstall_exchange-persisted}
use indra.Protocol.Install.Exchange.{
  Install, Installation, FreeBalanceUpdate, prepare_install, prepare_free_balance_update,
  initiating, responding,
}
use indra.Protocol.Install.Exchange.Signed.{
  MayInstall, initiating-MayInstall, responding-MayInstall,
}
use indra.Protocol.Install.Exchange.Agreement as Both
use indra.Protocol.Install.Exchange.Agreement.{installed, install-initiated-and-responded}
use indra.Tests.Evaluation.{evaluation}
use indra.Tests.Fixture.{ethers, channel}
use indra.Tests.Life.{params, decoder, chain, begun}
use indra.Tests.Signing.{signing, network}

abbrev pub coder : ParamsCoder
coder = record {
  encode_single_asset = λ p. ok "single";
  encode_multi_asset = λ p. ok "multi";
  encode_two_party = λ p. ok "two";
}

abbrev pub installation : Install
installation = record {
  process_id = "3";
  params = params;
  network = network;
  pre_channel = ok channel;
}

abbrev pub prepares_install :
    (p : Installation) × (prepare_install ethers signing coder installation ≡ ok p)
unfolding evaluation
prepares_install = (_, refl)

abbrev pub updates_free_balance :
    (f : FreeBalanceUpdate) × (prepare_free_balance_update ethers signing installation
        prepares_install.0
      ≡ ok f)
unfolding evaluation
updates_free_balance = (_, refl)

initiating-MayInstall_example :
    AllOpcodes
      (MayInstall ethers signing coder installation "xpubB")
      (run_protocol scripted (initiating ethers signing coder installation) (
        signed "0xaa"
            ∷ record { signature = some "0xbb"; signature2 = some "0xbb" }
            ∷ no_reply
            ∷ signed "0xaa"
            ∷ [],
        [],
      )).1.1
initiating-MayInstall_example = initiating-MayInstall ethers signing coder installation (
    signed "0xaa"
    ∷ record { signature = some "0xbb"; signature2 = some "0xbb" }
    ∷ no_reply
    ∷ signed "0xaa"
    ∷ [])

responding-MayInstall_example :
    AllOpcodes
      (MayInstall ethers signing coder installation "xpubA")
      (run_protocol scripted
        (responding ethers signing coder installation (some "0xaa"))
        (signed "0xbb" ∷ no_reply ∷ signed "0xbb" ∷ signed "0xaa" ∷ [], [])).1.1
responding-MayInstall_example =
    responding-MayInstall ethers signing coder installation (some "0xaa")
      (signed "0xbb" ∷ no_reply ∷ signed "0xbb" ∷ signed "0xaa" ∷ [])

install-initiated-and-responded_example :
    ((Both.initiated ethers signing coder installation "0xaa" "0xaa" "0xbb" "0xbb").0 ≡ ok tt)
    × ((Both.responded ethers signing coder installation "0xaa" "0xaa" "0xbb" "0xbb").0 ≡ ok tt)
    × (persisted (Both.initiated ethers signing coder installation "0xaa" "0xaa" "0xbb" "0xbb").1.1
        ≡ installed ethers signing coder installation "0xaa" "0xaa" "0xbb" "0xbb" prepares_install.0
            updates_free_balance.0 "0xaa" "0xaa" "0xbb" "0xbb")
    × (persisted (Both.responded ethers signing coder installation "0xaa" "0xaa" "0xbb" "0xbb").1.1
        ≡ installed ethers signing coder installation "0xaa" "0xaa" "0xbb" "0xbb" prepares_install.0
            updates_free_balance.0 "0xbb" "0xbb" "0xaa" "0xaa")
unfolding evaluation
install-initiated-and-responded_example =
    install-initiated-and-responded ethers signing coder installation "0xaa" "0xaa" "0xbb" "0xbb"
      prepares_install.0 updates_free_balance.0 prepares_install.1 updates_free_balance.1 refl refl
      refl refl

abbrev ending : Uninstall
ending = record {
  process_id = "4";
  app_identity_hash = identity_hash ethers prepares_install.0.app;
  initiator_xpub = "xpubA";
  responder_xpub = "xpubB";
  block_number_to_use_if_necessary = none;
  challenge_registry = "0xff";
  pre_channel = ok begun;
}

abbrev prepares_uninstall :
    (p : Uninstalled) × (prepare_uninstall ethers signing decoder chain ending ≡ ok p)
unfolding evaluation
prepares_uninstall = (_, refl)

uninstall_exchange-persisted_example :
    ((initiated ethers signing
        (uninstall_exchange ethers signing decoder chain ending)
        "0xaa"
        "0xbb").0
      ≡ ok tt)
    × ((responded ethers signing
          (uninstall_exchange ethers signing decoder chain ending)
          "0xaa"
          "0xbb").0
        ≡ ok tt)
    × (persisted
          (initiated ethers signing
            (uninstall_exchange ethers signing decoder chain ending)
            "0xaa"
            "0xbb").1.1
        ≡ uninstalled ending prepares_uninstall.0 "0xaa" "0xbb")
    × (persisted
          (responded ethers signing
            (uninstall_exchange ethers signing decoder chain ending)
            "0xaa"
            "0xbb").1.1
        ≡ uninstalled ending prepares_uninstall.0 "0xbb" "0xaa")
unfolding evaluation
uninstall_exchange-persisted_example =
    uninstall_exchange-persisted ethers signing decoder chain ending prepares_uninstall.0 "0xaa"
      "0xbb" prepares_uninstall.1 refl refl
