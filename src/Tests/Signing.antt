-- ===== src/Tests/Signing.antt =====
-- An update of the app of the fixture, between honest parties and with a wrong signature.
use indra.Prelude.{some, [], ◌∷◌, ok, ◌≡◌, refl, str_eq, if◌then◌else◌}
use indra.States.{opaque_state}
use indra.Commitment.{Signing}
use indra.Commitment.Multisig.{NetworkContext}
use indra.Machine.{Opcode, signed, set_state, app_instance, run_protocol, scripted}
use indra.Machine.Runs.{AllOpcodes, persisted}
use indra.StateChannel.Channel.{StateChannel}
use indra.StateChannel.Updates.{install_app}
use indra.AppInstance.{identity_hash}
use indra.Protocol.Exchange.{initiating, responding}
use indra.Protocol.Exchange.Agreement.{initiated, responded}
use indra.Protocol.Update.{Update, Prepared, prepare, update, update_exchange}
use indra.Protocol.Update.Persisted.{
  Signed, theirs_first, theirs_second, initiating-Signed, responding-Signed, initiated-responded,
}
use indra.Tests.Evaluation.{evaluation}
use indra.Tests.Fixture.{ethers, deposits, app, channel, value_or}

-- The signature by a party is the text of its address.
abbrev pub signing : Signing
signing = record {
  state_hash = λ encoding state. state.contents;
  packed_hash = λ identity version timeout state. state;
  multisig_hash = λ owners transaction. transaction.to;
  recover = λ hash signature. ok signature;
  to_lower_case = λ text. text;
  address_number = λ address. if str_eq address "0xaa" then 1 else 2;
}

abbrev pub network : NetworkContext
network = record {
  challenge_registry = "0xff";
  conditional_transaction_delegate_target = "0xf1";
  multi_asset_interpreter = "0xf2";
  single_asset_interpreter = "0xf3";
  two_party_interpreter = "0xf4";
  identity_app = "0xf5";
  proxy_factory = "0xf6";
  minimum_viable_multisig = "0xf7";
}

abbrev pub before : StateChannel
before = value_or (install_app ethers channel app deposits) channel

abbrev next : Update
next =
    update
      (record {
        protocol = "";
        process_id = "1";
        app_identity_hash = identity_hash ethers app;
        initiator_xpub = "xpubA";
        responder_xpub = "xpubB";
        challenge_registry = "0xff";
        pre_channel = ok before;
        new_state = λ a. ok (opaque_state "");
      })
      (opaque_state "next")

abbrev no_commitment : Prepared
no_commitment = record {
  post_channel = channel;
  app = app;
  commitment = record {
    challenge_registry_address = "";
    app_identity = record { channel_nonce = 0; participants = [] };
    app_state_hash = "";
    version_number = 0;
    timeout = 0;
    app_identity_hash = "";
    signatures = [];
  };
  hash = "";
}

abbrev prepared : Prepared
prepared = value_or (prepare ethers signing next) no_commitment

prepares : prepare ethers signing next ≡ ok prepared
unfolding evaluation
prepares = refl

initiating-Signed_example :
    AllOpcodes
      (Signed ethers signing next "xpubB" theirs_second)
      (run_protocol scripted
        (initiating ethers signing (update_exchange ethers signing next))
        (signed "0xaa" ∷ signed "0xbb" ∷ [], [])).1.1
initiating-Signed_example =
    initiating-Signed ethers signing next (signed "0xaa" ∷ signed "0xbb" ∷ [])

responding-Signed_example :
    AllOpcodes
      (Signed ethers signing next "xpubA" theirs_first)
      (run_protocol scripted
        (responding ethers signing (update_exchange ethers signing next) (some "0xaa"))
        (signed "0xbb" ∷ [], [])).1.1
responding-Signed_example = responding-Signed ethers signing next (some "0xaa") (signed "0xbb" ∷ [])

initiated-responded_example :
    ((initiated ethers signing (update_exchange ethers signing next) "0xaa" "0xbb").0 ≡ ok tt)
    × ((responded ethers signing (update_exchange ethers signing next) "0xaa" "0xbb").0 ≡ ok tt)
    × (persisted (initiated ethers signing (update_exchange ethers signing next) "0xaa" "0xbb").1.1
        ≡ persisted
            (responded ethers signing (update_exchange ethers signing next) "0xaa" "0xbb").1.1)
    × (persisted (initiated ethers signing (update_exchange ethers signing next) "0xaa" "0xbb").1.1
        ≡ Opcode.persist_app_instance prepared.post_channel (app_instance prepared.app)
          ∷ Opcode.persist_commitment
              (set_state
                (record (prepared.commitment) { signatures = some "0xaa" ∷ some "0xbb" ∷ [] }))
              (identity_hash ethers app)
          ∷ [])
unfolding evaluation
initiated-responded_example =
    initiated-responded ethers signing next prepared "0xaa" "0xbb" prepares refl refl

-- With a wrong signature nothing is persisted.
wrong_signature :
    persisted (initiated ethers signing (update_exchange ethers signing next) "0xaa" "0xcc").1.1
    ≡ []
unfolding evaluation
wrong_signature = refl
