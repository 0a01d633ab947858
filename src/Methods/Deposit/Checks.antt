-- ===== src/Methods/Deposit/Checks.antt =====
-- When a deposit is let through.
use indra.Prelude.{
  String, str_eq, eq_iff, eq_refl, ℤ, ltb_ℤ, Bool, true, false, not, ◌≡◌, ◌↔◌, refl, sym, ap, subst,
  ◌∙◌, Result, ok, err, arith,
}
use indra.StateChannel.Channel.{StateChannel}
use indra.StateChannel.Queries.{
  has_balance_refund_app_instance, has_proposed_balance_refund_app_instance,
}
use indra.States.{AppState}
use indra.Store.Persist.{get_state_channel}
use indra.Store.Node.{World}
use indra.Methods.Request.{Request, ◌>>=◌, ◌>>◌, lift, check, RequestHandler}
use indra.Methods.Deposit.{
  DepositParams, Funding, deposit_token, expected_multisig_address, signer_balance, insufficient,
  deposit_controller,
}

-- A check that was passed, and a part that has not thrown.
check-passed :
    {W A : Type 0} (bad : Bool) (message : String) (next : Request W A) (w : World W) {x : A}
    {w' : World W}
    → (check bad message >> next) w ≡ (ok x, w')
    → (bad ≡ false) × (next w ≡ (ok x, w'))
check-passed true message next w same = cc
check-passed false message next w same = (refl, same)

lift-passed :
    {W A B : Type 0} (r : Result A) (next : A → Request W B) (w : World W) {x : B} {w' : World W}
    → (lift r >>= next) w ≡ (ok x, w')
    → (a : A) × (r ≡ ok a) × (next a w ≡ (ok x, w'))
lift-passed (err message) next w same = cc
lift-passed (ok a) next w same = (a, refl, same)

-- Parts that leave the node as it is.
abbrev Unchanging : {W A : Type 0} → Request W A → World W → Type 0
Unchanging part w = (part w).1 ≡ w

check-unchanging :
    {W A : Type 0} (bad : Bool) (message : String) (next : Request W A) (w : World W)
    → Unchanging next w
    → Unchanging (check bad message >> next) w
check-unchanging true message next w same = refl
check-unchanging false message next w same = same

lift-unchanging :
    {W A B : Type 0} (r : Result A) (next : A → Request W B) (w : World W)
    → ((a : A) → Unchanging (next a) w)
    → Unchanging (lift r >>= next) w
lift-unchanging (err message) next w same = refl
lift-unchanging (ok a) next w same = same a

module _ {W : Type 0} (h : RequestHandler W) (f : Funding) where
  -- What a deposit is let through for.
  pub record MayDeposit (ch : StateChannel) (params : DepositParams) : Type 0 where
    pub has_factory : str_eq ch.addresses.proxy_factory "" ≡ false
    pub has_mastercopy : str_eq ch.addresses.multisig_mastercopy "" ≡ false
    pub is_multisig : expected_multisig_address f ch ≡ ok ch.multisig_address
    pub no_refund_app :
        has_balance_refund_app_instance ch h.coin_balance_refund_app (deposit_token params) ≡ false
    pub refund_proposed :
        has_proposed_balance_refund_app_instance ch h.coin_balance_refund_app (deposit_token params)
        ≡ true
    pub has_funds :
        (balance : ℤ) × (signer_balance f (deposit_token params) ≡ ok balance)
        × (ltb_ℤ balance params.amount ≡ false)

  module _ (state_of : String → ℤ → AppState) (state_encoding : String) (ch : StateChannel)
      (params : DepositParams) (w : World W)
      (found : get_state_channel h.ethers h.svc w.store params.multisig_address ≡ ok ch) where
    abbrev pub checks : Request W DepositParams
    checks = (deposit_controller h f state_of state_encoding).before_execution params

    abbrev app : String
    app = h.coin_balance_refund_app

    abbrev token : String
    token = deposit_token params

    -- The checks once the channel is read, the last ones first.
    abbrev on_balance : ℤ → Request W DepositParams
    on_balance balance =
        check (ltb_ℤ balance params.amount) (insufficient token) >> lift (ok params)

    abbrev on_funds : Request W DepositParams
    on_funds = lift (signer_balance f token) >>= on_balance

    abbrev on_proposed : Request W DepositParams
    on_proposed =
        check (not (has_proposed_balance_refund_app_instance ch app token))
          "No coin balance refund app proposed in channel."
        >> on_funds

    abbrev on_refund : Request W DepositParams
    on_refund =
        check (has_balance_refund_app_instance ch app token)
          "Cannot deposit while another deposit is occurring in the channel."
        >> on_proposed

    abbrev on_address : String → Request W DepositParams
    on_address expected =
        check (not (str_eq expected ch.multisig_address))
          "Channel multisig address does not match expected"
        >> on_refund

    abbrev on_addresses : Request W DepositParams
    on_addresses = lift (expected_multisig_address f ch) >>= on_address

    abbrev on_mastercopy : Request W DepositParams
    on_mastercopy =
        check (str_eq ch.addresses.multisig_mastercopy "") "Multisig master address is invalid"
        >> on_addresses

    abbrev on_channel : Request W DepositParams
    on_channel =
        check (str_eq ch.addresses.proxy_factory "") "Channel factory address is invalid"
        >> on_mastercopy

    checks-on_channel : checks w ≡ on_channel w
    unfolding deposit_controller
    checks-on_channel = rw found refl

    passed : on_channel w ≡ (ok params, w) → MayDeposit ch params
    passed same =
        let (factory, rest1) = check-passed _ _ on_mastercopy w same in
        let (mastercopy, rest2) = check-passed _ _ on_addresses w rest1 in
        let (expected, computed, rest3) =
          lift-passed (expected_multisig_address f ch) on_address w rest2 in
        let (matches, rest4) =
          check-passed (not (str_eq expected ch.multisig_address)) _ on_refund w rest3 in
        let (no_app, rest5) = check-passed _ _ on_proposed w rest4 in
        let (proposed, rest6) = check-passed _ _ on_funds w rest5 in
        let (balance, read, rest7) = lift-passed (signer_balance f token) on_balance w rest6 in
        let (enough, rest8) =
          check-passed (ltb_ℤ balance params.amount) _ (lift (ok params)) w rest7 in
        record {
          has_factory = factory;
          has_mastercopy = mastercopy;
          is_multisig = computed ∙ ap ok (equal expected ch.multisig_address matches);
          no_refund_app = no_app;
          refund_proposed =
              positive (has_proposed_balance_refund_app_instance ch app token) proposed;
          has_funds = (balance, read, enough);
        }
      where
        equal : (a b : String) → not (str_eq a b) ≡ false → a ≡ b
        equal a b same = ground (arith, eq_iff a b)

        positive : (b : Bool) → not b ≡ false → b ≡ true
        positive true same = refl
        positive false same = cc

    passes : MayDeposit ch params → on_channel w ≡ (ok params, w)
    passes may =
        rw
          (
            may.has_factory,
            may.has_mastercopy,
            may.is_multisig,
            eq_refl ch.multisig_address,
            may.no_refund_app,
            may.refund_proposed,
            may.has_funds.1,
            may.has_funds.2,
          )
          refl

    unchanged : Unchanging on_channel w
    unchanged = check-unchanging _ _ on_mastercopy w (
        check-unchanging _ _ on_addresses w (
          lift-unchanging _ on_address w (λ expected.
            check-unchanging (not (str_eq expected ch.multisig_address)) _ on_refund w (
              check-unchanging _ _ on_proposed w (
                check-unchanging _ _ on_funds w (
                  lift-unchanging _ on_balance w (λ balance.
                    check-unchanging (ltb_ℤ balance params.amount) _ (lift (ok params)) w
                      refl)))))))

    -- A request to deposit into a channel of the store is let through exactly when the channel has the
    -- addresses of a factory and a mastercopy, with which its own address is the expected one, no refund
    -- app of the token is installed and one is proposed, and the signer has the funds; and in no case is
    -- the node changed.
    pub deposit_checks_iff :
        ((checks w ≡ (ok params, w)) ↔ MayDeposit ch params) × ((checks w).1 ≡ w)
    deposit_checks_iff =
        subst
          (λ (r : Result DepositParams × World W).
            ((r ≡ (ok params, w)) ↔ MayDeposit ch params) × (r.1 ≡ w))
          (sym checks-on_channel) ((passed, passes), unchanged)
