-- ===== src/Methods/Install/Deposits.antt =====
-- An installation that the receiver of a proposal starts is the one that was proposed.
use indra.Prelude.{String, ℕ, ◌+◌, false, some, none, [], ◌∷◌, ◌≡◌, refl, ok, eq_refl}
use indra.Ethers.{Ethers, ReadsHex}
use indra.Keys.{xkey_kth_address}
use indra.Keys.Order.{sort_addresses-sorted}
use indra.AppInstance.{identity_hash, construct, app_identity_to_hash}
use indra.FreeBalance.{convention_for_eth_token_address}
use indra.StateChannel.Channel.{StateChannel, get_signing_keys_for, or_own_text}
use indra.Protocol.Install.{InstallParams, InterpreterParameters, app_to_be_installed}
use indra.Protocol.Propose.{Propose, responder_proposal, next_identity}
use indra.Methods.Params.{install_params, install_responder}

-- What the receiver of a proposal starts the installation with: its own deposit as the initiator's.
abbrev pub proposed_params : Ethers → Propose → StateChannel → ℕ → InstallParams
proposed_params e u pre timeout = record {
  initiator_xpub = u.responder_xpub;
  responder_xpub = u.initiator_xpub;
  initiator_balance_decrement = u.responder_deposit;
  responder_balance_decrement = u.initiator_deposit;
  initiator_deposit_token_address =
      or_own_text u.responder_deposit_token_address convention_for_eth_token_address;
  responder_deposit_token_address =
      or_own_text u.initiator_deposit_token_address convention_for_eth_token_address;
  participants = get_signing_keys_for e pre (pre.monotonic_num_proposed_apps + 1);
  initial_state = u.initial_state;
  app_interface = record {
    addr = u.app_definition;
    state_encoding = u.abi_encodings.0;
    action_encoding = u.abi_encodings.1;
  };
  default_timeout = timeout;
  app_seq_no = pre.monotonic_num_proposed_apps + 1;
  outcome_type = u.outcome_type;
  disable_limit = false;
  meta = none;
}

install_params-proposed :
    (e : Ethers) (u : Propose) (pre ch : StateChannel) (timeout : ℕ)
    → ReadsHex e
    → e.to_number u.timeout ≡ some timeout
    → ch.user_neutered_extended_keys ≡ pre.user_neutered_extended_keys
    → install_params e u.responder_xpub ch (responder_proposal e u pre)
      ≡ ok (proposed_params e u pre timeout)
unfolding install_params responder_proposal install_responder get_signing_keys_for
install_params-proposed e u pre ch timeout reads natural same =
    rw
      (
        reads u.responder_deposit,
        reads u.initiator_deposit,
        reads u.timeout,
        natural,
        eq_refl u.responder_xpub,
        same,
      )
      refl

proposed-identity_hash :
    (e : Ethers) (u : Propose) (pre ch : StateChannel) (timeout : ℕ)
    (interpreter : InterpreterParameters) (a b : String)
    → pre.user_neutered_extended_keys ≡ a ∷ b ∷ []
    → identity_hash e
        (construct (app_to_be_installed ch (proposed_params e u pre timeout) interpreter))
      ≡ (responder_proposal e u pre).identity_hash
unfolding identity_hash construct responder_proposal next_identity app_identity_to_hash
    get_signing_keys_for
proposed-identity_hash e u pre ch timeout interpreter a b keys =
    rw
      (
        keys,
        sort_addresses-sorted (xkey_kth_address e a (pre.monotonic_num_proposed_apps + 1))
            (xkey_kth_address e b (pre.monotonic_num_proposed_apps + 1)),
      )
      refl

-- In a channel of two owners, the receiver of a proposal starts an installation in which it deposits
-- what the proposer has asked of it, and the proposer what it has offered, each in its token; and the
-- app to be installed has the identity hash of the proposal.
pub install_params-responder_proposal :
    (e : Ethers) (u : Propose) (pre ch : StateChannel) (timeout : ℕ)
    (interpreter : InterpreterParameters) (a b : String)
    → ReadsHex e
    → e.to_number u.timeout ≡ some timeout
    → pre.user_neutered_extended_keys ≡ a ∷ b ∷ []
    → ch.user_neutered_extended_keys ≡ pre.user_neutered_extended_keys
    → (install_params e u.responder_xpub ch (responder_proposal e u pre)
        ≡ ok (proposed_params e u pre timeout))
      × (identity_hash e
            (construct (app_to_be_installed ch (proposed_params e u pre timeout) interpreter))
          ≡ (responder_proposal e u pre).identity_hash)
install_params-responder_proposal e u pre ch timeout interpreter a b reads natural keys same = (
  install_params-proposed e u pre ch timeout reads natural same,
  proposed-identity_hash e u pre ch timeout interpreter a b keys,
)
