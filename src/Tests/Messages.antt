-- ===== src/Tests/Messages.antt =====
-- A first message of an installation with the initiator's signature of something else.
use indra.Prelude.{
  String, some, pos, ok, err, str_eq, if◌then◌else◌, ok-injective, subst, ◌≡◌, refl,
}
use indra.Dict.{Dict}
use indra.Commitment.{Signing}
use indra.Protocol.Install.Exchange.{Installation}
use indra.StateChannel.Json.{map_values, to_json, from_json}
use indra.Store.KeyValue.{
  StoredChannel, key_value_storage, get_state_channel, save_state_channel, channel_key,
  properly_convert_channel_null_vals,
}
use indra.Store.Persist.{get_state_channel as get_state_channel_of}
use indra.Methods.Messages.{ProtocolMessage, install, handle_received_protocol_message}
use indra.Methods.Messages.Forged.{IsForged, IsInvalid, forged_message-refused}
use indra.Methods.Request.{RequestHandler}
use indra.Tests.Evaluation.{evaluation}
use indra.Tests.Fixture.{ethers, channel}
use indra.Tests.Signing.{signing}
use indra.Tests.Life.{params}
use indra.Tests.Stores.{Text, stored}
use indra.Tests.Requests.{node, holding}

-- The signature is by the initiator, of another hash.
abbrev replaying : Signing
replaying = record signing {
  recover = λ hash signature. ok (if str_eq hash "elsewhere" then "0xaa" else "0xcc");
}

abbrev receiver : RequestHandler (Dict (StoredChannel Text))
receiver = record (node "xpubB") { signing = replaying }

abbrev false_message : ProtocolMessage
false_message = record {
  process_id = "7";
  seq = pos 1;
  params = install "0xdd" params;
  signature = some "0x1b";
}

false_message-IsForged :
    IsForged receiver false_message
      (get_state_channel_of ethers receiver.svc (stored channel))
      (install "0xdd" params)
unfolding evaluation key_value_storage get_state_channel save_state_channel channel_key
    properly_convert_channel_null_vals map_values to_json from_json get_state_channel_of
false_message-IsForged p same =
    subst (λ (q : Installation). IsInvalid ethers replaying "xpubA" (some "0x1b") 0 q.hash)
      (ok-injective same) (_, refl)

forged_message-refused_example :
    (message : String) × (handle_received_protocol_message receiver false_message (holding channel)
      ≡ (err message, holding channel))
forged_message-refused_example =
    forged_message-refused receiver false_message (holding channel) refl false_message-IsForged
