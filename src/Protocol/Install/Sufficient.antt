-- ===== src/Protocol/Install/Sufficient.antt =====
-- What an installation does to the channel, and when it succeeds.
use indra.Prelude.{
  String, str_eq, ℤ, pos, ◌+ℤ◌, ◌-ℤ◌, ◌≤ℤ◌, int_laws, +ℤ_zero, zero_+ℤ, eq_iff, ◌≡◌, ◌∙◌, true,
  false, some, ok, Result, arith, >>=-eq-ok,
}
use indra.Dict.{set}
use indra.Coins.{flip_token_indexed_balances, TokenIndexedCoinTransferMap, amount_of}
use indra.Ethers.{Ethers, ReadsHex}
use indra.Keys.{xkey_kth_address, sort_addresses}
use indra.AppInstance.{AppInstance, identity_hash, construct}
use indra.FreeBalance.{FreeBalanceClass, get_balance}
use indra.FreeBalance.Increment.{balance, IsSolvent}
use indra.FreeBalance.Flip.{amount_in-flip}
use indra.StateChannel.Channel.{StateChannel, all_xpubs, get_signing_keys_for}
use indra.StateChannel.Updates.{owner_address, get_free_balance_addr_of, install_app, every_same}
use indra.StateChannel.Funds.{Holds, get_free_balance_class-Holds}
use indra.StateChannel.Apps.{install_app-effect}
use indra.StateChannel.Total.{Encodes, install_app_total}
use indra.Protocol.Install.{
  InstallParams, InterpreterParameters, compute_interpreter_parameters, app_to_be_installed,
  balance_decrement, compute_state_channel_transition, assert_sufficient_funds_within_free_balance,
}
use indra.Protocol.Install.Decrements.{
  share, balance_decrement-Distinct, balance_decrement-OwnersDistinct,
  balance_decrement-TokensChecksummed, amount_in-balance_decrement,
}

-- The free balance addresses of the two parties.
abbrev pub initiator_of : Ethers → InstallParams → String
initiator_of e params = xkey_kth_address e params.initiator_xpub 0

abbrev pub responder_of : Ethers → InstallParams → String
responder_of e params = xkey_kth_address e params.responder_xpub 0

-- What `computeInterpreterParameters` is called with.
abbrev pub interpreter_for : Ethers → InstallParams → Result InterpreterParameters
interpreter_for e params =
    compute_interpreter_parameters params.outcome_type params.initiator_deposit_token_address
      params.responder_deposit_token_address params.initiator_balance_decrement
      params.responder_balance_decrement (initiator_of e params) (responder_of e params)
      params.disable_limit

abbrev pub installed : StateChannel → InstallParams → InterpreterParameters → AppInstance
installed ch params interpreter = construct (app_to_be_installed ch params interpreter)

-- What both parties put in, as seen from an owner and a token.
abbrev pub deposits_of : Ethers → InstallParams → String → String → ℤ
deposits_of e params t a =
    share params.initiator_deposit_token_address (initiator_of e params)
      params.initiator_balance_decrement t a
    +ℤ share params.responder_deposit_token_address (responder_of e params)
        params.responder_balance_decrement t a

abbrev pub decrement_of : Ethers → InstallParams → TokenIndexedCoinTransferMap
decrement_of e params =
    balance_decrement params.initiator_deposit_token_address params.responder_deposit_token_address
      (initiator_of e params) (responder_of e params) params.initiator_balance_decrement
      params.responder_balance_decrement

get_free_balance_addr_of_inv :
    (e : Ethers) (ch : StateChannel) (xpub : String) {a : String}
    → get_free_balance_addr_of e ch xpub ≡ ok a
    → a ≡ xkey_kth_address e xpub 0
unfolding get_free_balance_addr_of owner_address
get_free_balance_addr_of_inv e ch xpub h = ground arith

pub compute_state_channel_transition_inv :
    (e : Ethers) (ch : StateChannel) (params : InstallParams) {ch' : StateChannel}
    → compute_state_channel_transition e ch params ≡ ok ch'
    → (interpreter : InterpreterParameters) × (interpreter_for e params ≡ ok interpreter)
      × (install_app e ch (installed ch params interpreter) (decrement_of e params) ≡ ok ch')
unfolding compute_state_channel_transition
compute_state_channel_transition_inv e ch params h =
    let (i, first, rest) = >>=-eq-ok (get_free_balance_addr_of e ch params.initiator_xpub) _ h in
    let (r, second, rest') =
      >>=-eq-ok (get_free_balance_addr_of e ch params.responder_xpub) _ rest in
    let i_is = get_free_balance_addr_of_inv e ch params.initiator_xpub first in
    let r_is = get_free_balance_addr_of_inv e ch params.responder_xpub second in
    let (interpreter, found, run) =
      >>=-eq-ok (interpreter_for e params) _ (rw (i_is, r_is) at rest') in
    (interpreter, found, run)

-- The transition of the install protocol, when it does not throw, on a channel whose free balance is
-- `fb`, for two parties with different addresses: the app is built with the computed interpreter
-- parameters and is among the apps under its identity hash, and every owner has in each token less
-- by what they put in as the initiator or the responder. The deposit tokens are checksummed
-- addresses.
pub compute_state_channel_transition-effect :
    (e : Ethers) (ch : StateChannel) (params : InstallParams) (fb : FreeBalanceClass)
    {ch' : StateChannel}
    → ReadsHex e
    → Holds e ch fb
    → str_eq (initiator_of e params) (responder_of e params) ≡ false
    → e.get_address params.initiator_deposit_token_address
      ≡ some params.initiator_deposit_token_address
    → e.get_address params.responder_deposit_token_address
      ≡ some params.responder_deposit_token_address
    → compute_state_channel_transition e ch params ≡ ok ch'
    → (fb' : FreeBalanceClass) × Holds e ch' fb'
      × ((t a : String) → balance fb' t a ≡ balance fb t a -ℤ deposits_of e params t a)
      × (interpreter : InterpreterParameters) × (interpreter_for e params ≡ ok interpreter)
      × (ch'.app_instances
          ≡ set
              (identity_hash e (installed ch params interpreter))
              (installed ch params interpreter)
              ch.app_instances)
compute_state_channel_transition-effect e ch params fb r h differ initiator_token responder_token
      run =
    let (interpreter, computed, run') = compute_state_channel_transition_inv e ch params run in
    let (fb', holds, _, apps, _, _, paid) =
      install_app-effect e ch (installed ch params interpreter) (decrement_of e params) fb r h
        (balance_decrement-Distinct _ _ _ _ _ _) (balance_decrement-OwnersDistinct _ _ _ _ _ _)
        (balance_decrement-TokensChecksummed _ _ _ _ _ _ e initiator_token responder_token) run' in
    (
      fb',
      holds,
      λ t a. paid t a ∙ rw (amount_in-balance_decrement _ _ _ _ _ _ t a differ),
      interpreter,
      computed,
      apps,
    )

-- The check of the funds: the party has at least the deposit.
assert_sufficient_funds_lem :
    (e : Ethers) (ch : StateChannel) (fb : FreeBalanceClass) (xpub token : String) (deposit : ℤ)
    → Holds e ch fb
    → assert_sufficient_funds_within_free_balance e ch xpub token deposit ≡ ok tt
    → deposit ≤ℤ balance fb token (xkey_kth_address e xpub 0)
unfolding assert_sufficient_funds_within_free_balance get_balance amount_of
assert_sufficient_funds_lem e ch fb xpub token deposit h passed =
    ground (arith, get_free_balance_class-Holds e ch fb h)

taken_is_left : (b d : ℤ) → d ≤ℤ b → pos 0 ≤ℤ b +ℤ (pos 0 -ℤ d)
taken_is_left b d h = omega int_laws

-- Two different owners who each have their amount leave nothing below 0.
shares_covered :
    (f : String → String → ℤ) (it rt i r : String) (x y : ℤ)
    → ((t a : String) → pos 0 ≤ℤ f t a)
    → str_eq i r ≡ false
    → x ≤ℤ f it i
    → y ≤ℤ f rt r
    → (t a : String) → share it i x t a +ℤ share rt r y t a ≤ℤ f t a
shares_covered f it rt i r x y s differ hx hy t a = ground (
  arith,
  eq_iff it t,
  eq_iff rt t,
  eq_iff i a,
  eq_iff r a,
  eq_iff i r,
  s t a,
  +ℤ_zero x,
  zero_+ℤ y,
  zero_+ℤ (pos 0),
)

-- An installation succeeds on a channel with valid keys and a solvent free balance, for two parties of
-- the channel with different addresses and an app whose sorted participants are the channel's keys,
-- when the interpreter parameters are computed without an error, the encoder accepts the one state of
-- the free balance that is to be written, and both parties pass the check of their funds: the checks
-- before the transition suffice.
pub compute_state_channel_transition_total :
    (e : Ethers) (ch : StateChannel) (params : InstallParams) (fb : FreeBalanceClass)
    (interpreter : InterpreterParameters) (h : Holds e ch fb)
    → Encodes h
        (identity_hash e (installed ch params interpreter))
        (flip_token_indexed_balances (decrement_of e params))
    → IsSolvent fb
    → all_xpubs ch.user_neutered_extended_keys ≡ true
    → every_same (get_signing_keys_for e ch params.app_seq_no) (sort_addresses params.participants)
      ≡ true
    → get_free_balance_addr_of e ch params.initiator_xpub ≡ ok (initiator_of e params)
    → get_free_balance_addr_of e ch params.responder_xpub ≡ ok (responder_of e params)
    → str_eq (initiator_of e params) (responder_of e params) ≡ false
    → interpreter_for e params ≡ ok interpreter
    → assert_sufficient_funds_within_free_balance e ch params.initiator_xpub
        params.initiator_deposit_token_address params.initiator_balance_decrement
      ≡ ok tt
    → assert_sufficient_funds_within_free_balance e ch params.responder_xpub
        params.responder_deposit_token_address params.responder_balance_decrement
      ≡ ok tt
    → (ch' : StateChannel) × (compute_state_channel_transition e ch params ≡ ok ch')
unfolding compute_state_channel_transition construct
compute_state_channel_transition_total e ch params fb interpreter h encoded s valid matched i r
      differ computed i_has r_has =
    let covered =
      shares_covered (balance fb) _ _ _ _ _ _ s differ
        (assert_sufficient_funds_lem e ch fb _ _ _ h i_has)
        (assert_sufficient_funds_lem e ch fb _ _ _ h r_has) in
    let (ch', done) =
      install_app_total e ch (installed ch params interpreter) fb h valid (decrement_of e params)
        encoded matched (balance_decrement-Distinct _ _ _ _ _ _)
        (λ t a _.
          rw
            (
              amount_in-flip (decrement_of e params) t a (balance_decrement-Distinct _ _ _ _ _ _)
                  (balance_decrement-OwnersDistinct _ _ _ _ _ _),
              amount_in-balance_decrement _ _ _ _ _ _ t a differ,
            )
            (taken_is_left _ _ (covered t a))) in
    (ch', rw (i, r, computed) done)
