-- ===== src/Methods/Params.antt =====
-- What the handlers of modules/cf-core/src/methods/app-instance compute from their parameters and from
-- proposals, before a protocol runs.
use indra.Prelude.{
  String, str_eq, ℕ, leb, ◌==◌, Bool, true, false, not, ◌&&◌, ◌||◌, none, List, [], ◌∷◌, filter,
  Result, ok, err, ◌>>=◌, or_throw, if◌then◌else◌,
}
use indra.Ethers.{Ethers}
use indra.Keys.{codes}
use indra.StateChannel.Channel.{StateChannel, AppInstanceProposal, get_signing_keys_for}
use indra.Protocol.Install.{InstallParams}

-- The white space of JavaScript.
abbrev pub is_white : ℕ → Bool
is_white c =
    (leb 9 c && leb c 13)
    || c == 32
    || c == 160
    || c == 0x1680
    || (leb 0x2000 c && leb c 0x200a)
    || c == 0x2028
    || c == 0x2029
    || c == 0x202f
    || c == 0x205f
    || c == 0x3000
    || c == 0xfeff

abbrev all_white : List ℕ → Bool
all_white [] = true
all_white (c ∷ cs) = is_white c && all_white cs

-- `!text || !text.trim()`
unfoldable pub is_blank : String → Bool
is_blank text = all_white (codes text)

-- `getFirstElementInListNotEqualTo`; with none the protocol is started without a responder.
unfoldable pub first_not_equal_to : String → List String → Result String
first_not_equal_to test list = elim (filter (λ x. not (str_eq x test)) list) [
  | [] ↦ err "no counterparty"
  | x ∷ xs ↦ ok x
]

-- The other party of a proposal, where an installation is started.
unfoldable pub install_responder : String → AppInstanceProposal → String
install_responder me p =
    if str_eq me p.proposed_to_identifier
    then p.proposed_by_identifier
    else p.proposed_to_identifier

-- The parameters of the install protocol that a node takes from a proposal that it holds.
unfoldable pub install_params :
    Ethers → String → StateChannel → AppInstanceProposal → Result InstallParams
unfolding get_signing_keys_for install_responder
install_params e initiator_xpub ch p = do
  initiator_deposit ← or_throw (e.big_numberify p.initiator_deposit) "invalid BigNumber value"
  responder_deposit ← or_throw (e.big_numberify p.responder_deposit) "invalid BigNumber value"
  timeout ← or_throw (e.big_numberify p.timeout) "invalid BigNumber value"
  default_timeout ← or_throw (e.to_number timeout) "overflow"
  ok (record {
    initiator_xpub = initiator_xpub;
    responder_xpub = install_responder initiator_xpub p;
    initiator_balance_decrement = initiator_deposit;
    responder_balance_decrement = responder_deposit;
    initiator_deposit_token_address = p.initiator_deposit_token_address;
    responder_deposit_token_address = p.responder_deposit_token_address;
    participants = get_signing_keys_for e ch p.app_seq_no;
    initial_state = p.initial_state;
    app_interface = record {
      addr = p.app_definition;
      state_encoding = p.abi_encodings.0;
      action_encoding = p.abi_encodings.1;
    };
    default_timeout = default_timeout;
    app_seq_no = p.app_seq_no;
    outcome_type = p.outcome_type;
    disable_limit = false;
    meta = none;
  })
