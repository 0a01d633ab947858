-- ===== src/Protocol/Uninstall/Lifecycle.antt =====
-- The funds of two parties over the life of an app with a two-party fixed outcome.
use indra.Prelude.{
  true, zero_+ℤ, String, str_eq, eq_iff, eq_refl, ℕ, ℤ, pos, ◌+ℤ◌, ◌-ℤ◌, int_laws, parts_eq, ◌≡◌,
  ◌⊎◌, Bool-cases, inl, inr, ◌∙◌, sym, subst, false, ◌&&◌, ◌||◌, Option, some, none, ok, arith,
  >>=-eq-ok,
}
use indra.Coins.{TokenIndexedCoinTransferMap}
use indra.Ethers.{Ethers, ReadsHex}
use indra.AppInstance.{AppInstance, OutcomeType, construct, get_two_party_params}
use indra.States.{AppState}
use indra.FreeBalance.{FreeBalanceClass}
use indra.FreeBalance.Increment.{balance, amount_in}
use indra.FreeBalance.WellFormed.{TokensChecksummed}
use indra.StateChannel.Channel.{StateChannel}
use indra.StateChannel.Updates.{uninstall_app}
use indra.StateChannel.Funds.{Holds}
use indra.StateChannel.Apps.{uninstall_app-effect}
use indra.Protocol.Install.{
  InstallParams, InterpreterParameters, compute_interpreter_parameters, two_party_parameters,
  compute_state_channel_transition,
}
use indra.Protocol.Install.Decrements.{share}
use indra.Protocol.Install.Sufficient.{
  initiator_of, responder_of, interpreter_for, installed, compute_state_channel_transition-effect,
}
use indra.Protocol.Outcome.{
  Decoder, Chain, compute_token_indexed_free_balance_increments, pay_by_outcome_type,
  outcome_or_override, handle_two_party_fixed_outcome,
}
use indra.Protocol.Outcome.Payout.{Pays, handle_two_party_fixed_outcome-Pays}
use indra.Protocol.Uninstall.{compute_state_transition}

-- The parameters of a two-party fixed outcome: one token, the two parties, the sum of the deposits.
two_party_interpreter :
    (e : Ethers) (params : InstallParams) {interpreter : InterpreterParameters}
    → params.outcome_type ≡ OutcomeType.two_party_fixed_outcome
    → interpreter_for e params ≡ ok interpreter
    → (params.initiator_deposit_token_address ≡ params.responder_deposit_token_address)
      × (interpreter.two_party
          ≡ some (record {
            player_addrs = (initiator_of e params, responder_of e params);
            amount = params.initiator_balance_decrement +ℤ params.responder_balance_decrement;
            token_address = params.initiator_deposit_token_address;
          }))
unfolding compute_interpreter_parameters two_party_parameters
two_party_interpreter e params kind h = ground (
  arith,
  kind,
  eq_iff params.initiator_deposit_token_address params.responder_deposit_token_address,
)

-- The increments of an app with a two-party fixed outcome.
two_party_increments :
    (d : Decoder) (chain : Chain) (app : AppInstance) (block : Option ℕ)
    {increments : TokenIndexedCoinTransferMap}
    → app.outcome_type ≡ OutcomeType.two_party_fixed_outcome
    → app.latest_state.threshold ≡ none
    → compute_token_indexed_free_balance_increments d chain app "" block ≡ ok increments
    → (encoded : String) × (handle_two_party_fixed_outcome d encoded app.two_party_params
        ≡ ok increments)
unfolding compute_token_indexed_free_balance_increments pay_by_outcome_type get_two_party_params
two_party_increments d chain app block kind plain h =
    let (encoded, _, rest) = >>=-eq-ok (outcome_or_override chain "") _ h in
    (encoded, rw (plain, kind) at rest)

module _ (it i r : String) (x y : ℤ) where
  shares_sum :
      str_eq i r ≡ false
      → (share it i x it i +ℤ share it r y it i) +ℤ (share it i x it r +ℤ share it r y it r)
        ≡ x +ℤ y
  shares_sum differ = rw (eq_refl it, eq_refl i, eq_refl r, differ, other_way) (omega int_laws)
    where
      other_way : str_eq r i ≡ false
      other_way = ground (arith, eq_iff i r, eq_iff r i, differ)

  shares_others :
      (t a : String)
      → (str_eq it t && (str_eq i a || str_eq r a)) ≡ false
      → share it i x t a +ℤ share it r y t a ≡ pos 0
  shares_others t a away = ground (arith, zero_+ℤ (pos 0))

-- The state of an app and what goes with it may change between its installation and its end.
abbrev pub updated : AppInstance → AppState → ℕ → ℕ → AppInstance
updated app state version timeout = record app {
  latest_state = state;
  latest_version_number = version;
  latest_timeout = timeout;
}

Holds-same :
    (e : Ethers) (ch ch' : StateChannel) (fb : FreeBalanceClass)
    → ch'.free_balance_app_instance ≡ ch.free_balance_app_instance
    → Holds e ch fb
    → Holds e ch' fb
Holds-same e ch ch' fb same h = record {
  app = h.app;
  stored = same ∙ h.stored;
  reads = h.reads;
  well_formed = h.well_formed;
}

payout_lem :
    (e : Ethers) (ch : StateChannel) (app : AppInstance) (increments : TokenIndexedCoinTransferMap)
    (fb : FreeBalanceClass) {token first second : String} {amount : ℤ} {ch' : StateChannel}
    → ReadsHex e
    → Holds e ch fb
    → e.get_address token ≡ some token
    → Pays increments token first second amount
    → uninstall_app e ch app increments ≡ ok ch'
    → (fb' : FreeBalanceClass) × Holds e ch' fb'
      × ((t a : String) → balance fb' t a ≡ balance fb t a +ℤ amount_in increments t a)
payout_lem e ch app increments fb r h checksummed p run =
    let (fb', holds, _, _, _, _, paid) =
      uninstall_app-effect e ch app increments fb r h p.tokens_distinct
        (subst (TokensChecksummed e) (sym p.only_token) (checksummed, tt)) run in
    (fb', holds, paid)

funds_conserved :
    (b0 b1 b2 : String → String → ℤ) (increments : TokenIndexedCoinTransferMap) (it i r : String)
    (x y : ℤ)
    → str_eq i r ≡ false
    → Pays increments it i r (x +ℤ y)
    → ((t a : String) → b1 t a ≡ b0 t a -ℤ (share it i x t a +ℤ share it r y t a))
    → ((t a : String) → b2 t a ≡ b1 t a +ℤ amount_in increments t a)
    → (b2 it i +ℤ b2 it r ≡ b0 it i +ℤ b0 it r)
      × ((t a : String) → ((str_eq it t && (str_eq i a || str_eq r a)) ≡ true) ⊎ (b2 t a ≡ b0 t a))
funds_conserved b0 b1 b2 increments it i r x y differ p taken given = (
  rw (given it i, given it r, taken it i, taken it r)
      (moved _ _ _ _ _ _ (shares_sum it i r x y differ ∙ sym p.sum)),
  λ t a. elim (Bool-cases (str_eq it t && (str_eq i a || str_eq r a))) [
    | inl theirs ↦ inl theirs
    | inr away ↦ inr (
        rw (given t a, taken t a, shares_others it i r x y t a away, not_paid t a away)
          (omega int_laws))
  ],
)
  where
    not_paid :
        (t a : String)
        → (str_eq it t && (str_eq i a || str_eq r a)) ≡ false
        → amount_in increments t a ≡ pos 0
    not_paid t a away = ground (arith, p.others t a)

    moved : (b c d d' m m' : ℤ) → d +ℤ d' ≡ m +ℤ m' → (b -ℤ d +ℤ m) +ℤ (c -ℤ d' +ℤ m') ≡ b +ℤ c
    moved b c d d' m m' same = let s = parts_eq same in omega int_laws

compute_state_transition_inv :
    (e : Ethers) (d : Decoder) (chain : Chain) (ch : StateChannel) (app : AppInstance)
    (block : Option ℕ) {ch' : StateChannel}
    → compute_state_transition e d chain ch app block ≡ ok ch'
    → (increments : TokenIndexedCoinTransferMap) × (compute_token_indexed_free_balance_increments d
          chain app "" block
        ≡ ok increments)
      × (uninstall_app e ch app increments ≡ ok ch')
unfolding compute_state_transition
compute_state_transition_inv e d chain ch app block h =
    >>=-eq-ok (compute_token_indexed_free_balance_increments d chain app "" block) _ h

-- The life of an app with a two-party fixed outcome, in a channel whose free balance is `fb`: it is
-- installed by the transition of the install protocol, its state may be updated while the free
-- balance stays, and it is uninstalled by the transition of the uninstall protocol. When neither
-- transition throws, the two parties together have as much of the deposits' token as before, every
-- other balance is as it was, and both parties deposited in the same token. The parties' addresses
-- differ, the token is a checksummed address, and the last state has no `threshold`.
pub funds_conserved_over_life :
    (e : Ethers) (d : Decoder) (chain : Chain) (ch : StateChannel) (params : InstallParams)
    (fb : FreeBalanceClass) (state : AppState) (version timeout : ℕ) (block : Option ℕ)
    (interpreter : InterpreterParameters) (ch2 : StateChannel) {ch1 ch3 : StateChannel}
    → ReadsHex e
    → Holds e ch fb
    → str_eq (initiator_of e params) (responder_of e params) ≡ false
    → e.get_address params.initiator_deposit_token_address
      ≡ some params.initiator_deposit_token_address
    → params.outcome_type ≡ OutcomeType.two_party_fixed_outcome
    → state.threshold ≡ none
    → compute_state_channel_transition e ch params ≡ ok ch1
    → ch2.free_balance_app_instance ≡ ch1.free_balance_app_instance
    → interpreter_for e params ≡ ok interpreter
    → compute_state_transition e d chain ch2
        (updated (installed ch params interpreter) state version timeout)
        block
      ≡ ok ch3
    → (fb3 : FreeBalanceClass) × Holds e ch3 fb3
      × (params.initiator_deposit_token_address ≡ params.responder_deposit_token_address)
      × (balance fb3 params.initiator_deposit_token_address (initiator_of e params)
            +ℤ balance fb3 params.initiator_deposit_token_address (responder_of e params)
          ≡ balance fb params.initiator_deposit_token_address (initiator_of e params)
            +ℤ balance fb params.initiator_deposit_token_address (responder_of e params))
      × ((t a : String)
          → ((str_eq params.initiator_deposit_token_address t
                && (str_eq (initiator_of e params) a || str_eq (responder_of e params) a))
              ≡ true)
            ⊎ (balance fb3 t a ≡ balance fb t a))
unfolding construct
funds_conserved_over_life e d chain ch params fb state version timeout block interpreter ch2 {ch1} r
      h differ checksummed kind plain first between computed last =
    let (same_token, made) = two_party_interpreter e params kind computed in
    let (fb1, h1, taken, _, _, _) =
      compute_state_channel_transition-effect e ch params fb r h differ checksummed
        (subst (λ t. e.get_address t ≡ some t) same_token checksummed) first in
    let app = updated (installed ch params interpreter) state version timeout in
    let (increments, computed', run) = compute_state_transition_inv e d chain ch2 app block last in
    let (encoded, handled) = two_party_increments d chain app block kind plain computed' in
    let p = handle_two_party_fixed_outcome-Pays d encoded _ differ (rw made at handled) in
    let (fb3, h3, given) =
      payout_lem e ch2 app increments fb1 r (Holds-same e ch1 ch2 fb1 between h1) checksummed p
        run in
    let (sum, others) =
      funds_conserved (balance fb) (balance fb1) (balance fb3) increments _ _ _ _ _ differ p
        (rw (← same_token) at taken) given in
    (fb3, h3, same_token, sum, others)
