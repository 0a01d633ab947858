-- ===== src/Tests/Apps.antt =====
-- A swap at the rate 1, a transfer of 5, and two channels in the store in memory.
use indra.Prelude.{
  ◌+◌, ◌*◌, ◌/◌, ◌^◌, ◌≤◌, pos, none, some, true, [], ◌∷◌, List, ok, ◌≡◌, ◌↔◌, refl,
}
use indra.Coins.{CoinTransfer}
use indra.AppInstance.{AppInstanceJson}
use indra.StateChannel.Json.{StateChannelJson, to_json}
use indra.Store.Memory.{
  MemoryStorage, get_state_channel, save_state_channel, save_app_instance, set_each,
}
use indra.Apps.Validation.{ProposeInstall}
use indra.Apps.Swap.{
  AllowedSwap, scale, before_dot, after_dot, first_chars, append_text, calculate_exchange,
  is_allowed, validate_simple_swap_app, validate_simple_swap_app_iff,
}
use indra.Tests.Evaluation.{evaluation}
use indra.Tests.Fixture.{ethers, eth, app, channel}

abbrev swap : ProposeInstall
swap = record {
  state_encoding = "";
  action_encoding = none;
  initiator_deposit = pos 100;
  initiator_deposit_token_address = eth;
  responder_deposit = pos 150;
  responder_deposit_token_address = "0xff";
}

abbrev swaps : List AllowedSwap
swaps = record { from = eth; to = "0xff" } ∷ []

validate_simple_swap_app_iff_example :
    (validate_simple_swap_app (λ text. ok (10 ^ 18)) swap swaps "1.0" ≡ ok tt)
    ↔ ((is_allowed swap swaps ≡ true) × (100 ≤ 150 + 100 * 95 / 100) × (150 ≤ 100 + 100 * 95 / 100))
unfolding calculate_exchange scale before_dot after_dot first_chars append_text
validate_simple_swap_app_iff_example =
    validate_simple_swap_app_iff (λ text. ok (10 ^ 18)) swap swaps "1.0" 100 150 refl refl

abbrev sent : CoinTransfer
sent = record { to = "0xaa"; amount = pos 5 }

abbrev received : CoinTransfer
received = record { to = "0xbb"; amount = pos 0 }

abbrev empty : MemoryStorage
empty = record {
  channels = [];
  set_state_commitments = [];
  conditional_tx_commitment = [];
  withdrawals = [];
  proposed_apps = [];
  app_instances = [];
  user_withdrawals = none;
  free_balances = [];
  setup_commitments = [];
  schema_version = 0;
}

abbrev two_channels : MemoryStorage
two_channels =
    save_state_channel (save_state_channel empty (to_json ethers channel))
      (to_json ethers (record channel { multisig_address = "0xde" }))

abbrev an_app : AppInstanceJson
an_app = record { identity_hash = "new"; fields = app }

abbrev saves : (s : MemoryStorage) × (save_app_instance two_channels "0xdd" an_app ≡ ok s)
unfolding evaluation save_state_channel save_app_instance set_each to_json
saves = (_, refl)

abbrev reads : (j : StateChannelJson) × (get_state_channel two_channels "0xde" ≡ some j)
unfolding evaluation save_state_channel get_state_channel set_each to_json
reads = (_, refl)
