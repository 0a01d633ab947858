-- ===== src/Tests/Life.antt =====
-- An app with a two-party fixed outcome, from its installation to its end, and a balance refund.
use indra.Prelude.{
  ◌⊎◌, String, str_eq, pos, ◌+ℤ◌, ◌-ℤ◌, ◌≡◌, refl, some, none, ok, [], ◌∷◌, true, false, ◌&&◌, ◌||◌,
  if◌then◌else◌, ◌==◌, arith,
}
use indra.AppInstance.{OutcomeType, TwoPartyFixedOutcomeInterpreterParams}
use indra.States.{opaque_state}
use indra.FreeBalance.{FreeBalanceClass}
use indra.FreeBalance.Increment.{balance, IsSolvent}
use indra.StateChannel.Channel.{StateChannel}
use indra.StateChannel.Funds.{Holds}
use indra.Protocol.Install.{
  InstallParams, InterpreterParameters, compute_state_channel_transition, no_parameters,
}
use indra.Protocol.Install.Sufficient.{
  interpreter_for, installed, deposits_of, compute_state_channel_transition-effect,
  compute_state_channel_transition_total,
}
use indra.Protocol.Outcome.{
  Decoder, Chain, handle_two_party_fixed_outcome, handle_refund_app_outcome_special_case,
}
use indra.Protocol.Outcome.Refund.{
  Answers, first_payment, rounds_from, handle_refund_app_outcome_special_case_lem,
}
use indra.Protocol.Uninstall.{compute_state_transition}
use indra.Protocol.Uninstall.Lifecycle.{updated, funds_conserved_over_life}
use indra.Dict.{set}
use indra.AppInstance.{identity_hash}
use indra.Tests.Evaluation.{evaluation}
use indra.Tests.Fixture.{ethers, ethers-ReadsHex, eth, funds, channel, app, value_or}
use indra.Tests.Funds.{channel-Holds}

abbrev pub params : InstallParams
params = record {
  initiator_xpub = "xpubA";
  responder_xpub = "xpubB";
  initiator_balance_decrement = pos 4;
  responder_balance_decrement = pos 1;
  initiator_deposit_token_address = eth;
  responder_deposit_token_address = eth;
  participants = "0xaa" ∷ "0xbb" ∷ [];
  initial_state = opaque_state "start";
  app_interface = record { addr = "0xee"; state_encoding = "uint256"; action_encoding = none };
  default_timeout = 10;
  app_seq_no = 2;
  outcome_type = OutcomeType.two_party_fixed_outcome;
  disable_limit = false;
  meta = none;
}

abbrev fixed : TwoPartyFixedOutcomeInterpreterParams
fixed = record { player_addrs = ("0xaa", "0xbb"); amount = pos 5; token_address = eth }

abbrev interpreter : InterpreterParameters
interpreter = record no_parameters { two_party = some fixed }

-- Every outcome is a split of the amount; a refund comes in the third round.
abbrev pub decoder : Decoder
decoder = record {
  decode_number = λ encoded. some (pos 2);
  decode_pair = λ encoded. some (
    record { to = "0xaa"; amount = if str_eq encoded "paid" then pos 3 else pos 0 },
    record { to = "0xbb"; amount = pos 0 },
  );
  decode_lists = λ encoded. none;
}

abbrev pub chain : Chain
chain = record {
  compute_outcome = λ n. ok (if n == 3 then "paid" else "wait");
  block_number = λ n. ok n;
}

abbrev pub begun : StateChannel
begun = value_or (compute_state_channel_transition ethers channel params) channel

begins : compute_state_channel_transition ethers channel params ≡ ok begun
unfolding evaluation
begins = refl

abbrev ended : StateChannel
ended =
    value_or
      (compute_state_transition ethers decoder chain begun
        (updated (installed channel params interpreter) (opaque_state "end") 7 20) none)
      begun

ends :
    compute_state_transition ethers decoder chain begun
      (updated (installed channel params interpreter) (opaque_state "end") 7 20)
      none
    ≡ ok ended
unfolding evaluation
ends = refl

compute_state_channel_transition-effect_example :
    (fb' : FreeBalanceClass) × Holds ethers begun fb'
    × ((t a : String) → balance fb' t a ≡ balance funds t a -ℤ deposits_of ethers params t a)
    × (i : InterpreterParameters) × (interpreter_for ethers params ≡ ok i)
    × (begun.app_instances
        ≡ set (identity_hash ethers (installed channel params i)) (installed channel params i) [])
unfolding evaluation
compute_state_channel_transition-effect_example =
    compute_state_channel_transition-effect ethers channel params funds ethers-ReadsHex
      channel-Holds refl refl refl begins

funds-IsSolvent : IsSolvent funds
unfolding evaluation
funds-IsSolvent t a = ground arith

compute_state_channel_transition_total_example :
    (ch' : StateChannel) × (compute_state_channel_transition ethers channel params ≡ ok ch')
unfolding evaluation
compute_state_channel_transition_total_example =
    compute_state_channel_transition_total ethers channel params funds interpreter channel-Holds
      (λ fb' paid. refl) funds-IsSolvent refl refl refl refl refl refl refl refl

funds_conserved_over_life_example :
    (fb3 : FreeBalanceClass) × Holds ethers ended fb3
    × (eth ≡ eth)
    × (balance fb3 eth "0xaa" +ℤ balance fb3 eth "0xbb"
        ≡ balance funds eth "0xaa" +ℤ balance funds eth "0xbb")
    × ((t a : String)
        → ((str_eq eth t && (str_eq "0xaa" a || str_eq "0xbb" a)) ≡ true)
          ⊎ (balance fb3 t a ≡ balance funds t a))
unfolding evaluation
funds_conserved_over_life_example =
    funds_conserved_over_life ethers decoder chain channel params funds (opaque_state "end") 7 20
      none interpreter begun ethers-ReadsHex channel-Holds refl refl refl refl begins refl refl ends

splits :
    handle_two_party_fixed_outcome decoder "" (some fixed)
    ≡ ok ((eth, ("0xaa", pos 2) ∷ ("0xbb", pos 3) ∷ []) ∷ [])
unfolding evaluation
splits = refl

answers : Answers decoder chain
answers = record {
  outcome = λ n. if n == 3 then "paid" else "wait";
  pair = λ n. (
    record {
      to = "0xaa";
      amount = if str_eq (if n == 3 then "paid" else "wait") "paid" then pos 3 else pos 0;
    },
    record { to = "0xbb"; amount = pos 0 },
  );
  block = λ n. n;
  computes = λ n. refl;
  decodes = λ n. refl;
  numbers = λ n. refl;
}

handle_refund_app_outcome_special_case_example :
    handle_refund_app_outcome_special_case decoder chain (answers.outcome 1) app none
    ≡ first_payment decoder chain app none answers (rounds_from 1 10)
handle_refund_app_outcome_special_case_example =
    handle_refund_app_outcome_special_case_lem decoder chain app none answers

-- The third round pays.
refund_in_third_round :
    handle_refund_app_outcome_special_case decoder chain "wait" app none
    ≡ ok (("undefined", ("0xaa", pos 3) ∷ []) ∷ [])
unfolding evaluation
refund_in_third_round = refl
