-- ===== src/Tests/Protocols.antt =====
-- A setup and a proposal between the two owners of the fixture.
use indra.Prelude.{pos, none, some, [], ◌∷◌, Result, ok, ◌≡◌, refl}
use indra.States.{opaque_state}
use indra.AppInstance.{OutcomeType}
use indra.Commitment.Multisig.{SignedTransaction, get_signed_transaction}
use indra.Machine.{signed, run_protocol, scripted}
use indra.Machine.Runs.{AllOpcodes, persisted}
use indra.Protocol.Exchange.{initiating, responding}
use indra.Protocol.Exchange.Signed.{
  InitiatorMay, ResponderMay, initiating-InitiatorMay, responding-ResponderMay,
}
use indra.Protocol.Exchange.Agreement.{initiated, responded}
use indra.Protocol.Setup.{Setup, SetUp, prepare_setup, setup_exchange}
use indra.Protocol.Setup.Signed.{set_up, setup_exchange-persisted}
use indra.Protocol.Propose.{
  Propose, Proposed, initiator_prepares, responder_prepares, propose_exchange,
}
use indra.Protocol.Propose.Mirrored.{
  mirrored, kept, responder_prepares-initiator_prepares, propose_exchange-persisted,
}
use indra.Tests.Evaluation.{evaluation}
use indra.Tests.Fixture.{ethers, eth, channel}
use indra.Tests.Signing.{signing, network}

-- The value of a run that is known to succeed.
abbrev value_of {ℓ} : {A : Type ℓ} {a : A} (run : Result A) → run ≡ ok a → A
value_of {a = a} run returned = a

abbrev new_channel : Setup
new_channel = record {
  process_id = "1";
  multisig_address = "0xdd";
  initiator_xpub = "xpubA";
  responder_xpub = "xpubB";
  network = network;
}

abbrev offer : Propose
offer = record {
  process_id = "2";
  initiator_xpub = "xpubA";
  responder_xpub = "xpubB";
  app_definition = "0xee";
  abi_encodings = ("uint256", none);
  initiator_deposit = pos 4;
  initiator_deposit_token_address = none;
  responder_deposit = pos 1;
  responder_deposit_token_address = some eth;
  timeout = pos 10;
  initial_state = opaque_state "start";
  outcome_type = OutcomeType.single_asset_two_party_coin_transfer;
  meta = none;
  challenge_registry = "0xff";
  pre_channel = ok channel;
}

abbrev prepares_setup : (p : SetUp) × (prepare_setup ethers signing new_channel ≡ ok p)
unfolding evaluation
prepares_setup = (_, refl)

abbrev signs_setup :
    (transaction : SignedTransaction) × (get_signed_transaction signing
        (record (prepares_setup.0.commitment) { signatures = some "0xbb" ∷ some "0xaa" ∷ [] })
      ≡ ok transaction)
unfolding evaluation
signs_setup = (_, refl)

setup_exchange-persisted_example :
    ((initiated ethers signing (setup_exchange ethers signing new_channel) "0xaa" "0xbb").0 ≡ ok tt)
    × ((responded ethers signing (setup_exchange ethers signing new_channel) "0xaa" "0xbb").0
        ≡ ok tt)
    × (persisted
          (initiated ethers signing (setup_exchange ethers signing new_channel) "0xaa" "0xbb").1.1
        ≡ set_up prepares_setup.0 signs_setup.0)
    × (persisted
          (responded ethers signing (setup_exchange ethers signing new_channel) "0xaa" "0xbb").1.1
        ≡ set_up prepares_setup.0 signs_setup.0)
unfolding evaluation
setup_exchange-persisted_example =
    setup_exchange-persisted ethers signing new_channel prepares_setup.0 "0xaa" "0xbb" signs_setup.0
      prepares_setup.1 refl refl signs_setup.1

initiating-InitiatorMay_example :
    AllOpcodes
      (InitiatorMay ethers signing (setup_exchange ethers signing new_channel))
      (run_protocol scripted
        (initiating ethers signing (setup_exchange ethers signing new_channel))
        (signed "0xaa" ∷ signed "0xbb" ∷ [], [])).1.1
initiating-InitiatorMay_example =
    initiating-InitiatorMay ethers signing (setup_exchange ethers signing new_channel)
      (signed "0xaa" ∷ signed "0xbb" ∷ [])

responding-ResponderMay_example :
    AllOpcodes
      (ResponderMay ethers signing (propose_exchange ethers signing offer))
      (run_protocol scripted
        (responding ethers signing (propose_exchange ethers signing offer) (some "0xaa"))
        (signed "0xbb" ∷ [], [])).1.1
responding-ResponderMay_example =
    responding-ResponderMay ethers signing (propose_exchange ethers signing offer) (some "0xaa")
      (signed "0xbb" ∷ [])

abbrev prepares_offer : (p : Proposed) × (initiator_prepares ethers signing offer ≡ ok p)
unfolding evaluation
prepares_offer = (_, refl)

responder_prepares-initiator_prepares_example :
    (q : Proposed) × (responder_prepares ethers signing offer ≡ ok q)
    × (q.hash ≡ prepares_offer.0.hash)
    × (q.commitment ≡ prepares_offer.0.commitment)
    × (q.app_proposal ≡ mirrored prepares_offer.0.app_proposal)
responder_prepares-initiator_prepares_example =
    responder_prepares-initiator_prepares ethers signing offer prepares_offer.0 prepares_offer.1

propose_exchange-persisted_example :
    (q : Proposed) × (responder_prepares ethers signing offer ≡ ok q)
    × ((initiated ethers signing (propose_exchange ethers signing offer) "0xaa" "0xbb").0 ≡ ok tt)
    × ((responded ethers signing (propose_exchange ethers signing offer) "0xaa" "0xbb").0 ≡ ok tt)
    × (persisted
          (initiated ethers signing (propose_exchange ethers signing offer) "0xaa" "0xbb").1.1
        ≡ kept prepares_offer.0 prepares_offer.0.app_proposal prepares_offer.0.post_channel "0xaa"
            "0xbb")
    × (persisted
          (responded ethers signing (propose_exchange ethers signing offer) "0xaa" "0xbb").1.1
        ≡ kept prepares_offer.0
            (mirrored prepares_offer.0.app_proposal)
            q.post_channel
            "0xaa"
            "0xbb")
unfolding evaluation
propose_exchange-persisted_example =
    propose_exchange-persisted ethers signing offer prepares_offer.0 "0xaa" "0xbb" prepares_offer.1
      refl refl
