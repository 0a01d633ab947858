-- ===== src/Protocol/Outcome/Payout.antt =====
-- What a two-party fixed outcome pays.
use indra.Prelude.{
  Bool-cases, inl, inr, subst, String, str_eq, eq_iff, eq_refl, ℤ, pos, ◌+ℤ◌, ◌-ℤ◌, half,
  ok-injective, int_laws, eqb_ℤ, ◌≡◌, ◌⊎◌, refl, true, false, ◌&&◌, ◌||◌, some, [], ◌∷◌, ok, arith,
  >>=-eq-ok, +ℤ_zero, zero_+ℤ,
}
use indra.Dict.{set, keys, lookup}
use indra.Dict.Laws.{Distinct}
use indra.Coins.{TokenIndexedCoinTransferMap, amount_of}
use indra.AppInstance.{TwoPartyFixedOutcomeInterpreterParams}
use indra.FreeBalance.Increment.{amount_in}
use indra.Protocol.Outcome.{
  Decoder, two_payouts, pay_fixed_outcome, decode_two_party_fixed_outcome,
  handle_two_party_fixed_outcome, send_to_addr_one, send_to_addr_two,
}

-- The increments pay an amount, in one token, to two parties and nobody else.
pub record Pays (m : TokenIndexedCoinTransferMap) (token first second : String) (amount : ℤ)
    : Type 0 where
  pub tokens_distinct : Distinct m
  pub only_token : keys m ≡ token ∷ []
  pub sum : amount_in m token first +ℤ amount_in m token second ≡ amount
  pub others :
      (t a : String)
      → ((str_eq token t && (str_eq first a || str_eq second a)) ≡ true) ⊎ (amount_in m t a ≡ pos 0)

module _ (token first second : String) (differ : str_eq first second ≡ false) where
  two_payouts-Pays :
      (x y : ℤ) → Pays (two_payouts token first x second y) token first second (x +ℤ y)
  unfolding two_payouts amount_of lookup set keys
  two_payouts-Pays x y = record {
    tokens_distinct = ground arith;
    only_token = refl;
    sum = ground (arith, eq_refl token, eq_refl first, eq_refl second, differ);
    others = λ t a. elim (Bool-cases (str_eq token t && (str_eq first a || str_eq second a))) [
      | inl theirs ↦ inl theirs
      | inr away ↦ inr (ground arith)
    ];
  }

  one_payout-Pays :
      (owner : String) (x : ℤ)
      → (str_eq first owner || str_eq second owner) ≡ true
      → Pays ((token, (owner, x) ∷ []) ∷ []) token first second x
  unfolding amount_of lookup keys
  one_payout-Pays owner x h = record {
    tokens_distinct = ground arith;
    only_token = refl;
    sum = ground (
      arith,
      eq_refl token,
      eq_refl first,
      eq_refl second,
      eq_iff first owner,
      eq_iff second owner,
      eq_iff owner first,
      eq_iff owner second,
      differ,
      +ℤ_zero x,
      zero_+ℤ x,
    );
    others = λ t a. elim (Bool-cases (str_eq token t && (str_eq first a || str_eq second a))) [
      | inl theirs ↦ inl theirs
      | inr away ↦ inr (ground (arith, eq_iff first owner, eq_iff second owner, eq_iff owner a))
    ];
  }

split_sum : (a : ℤ) → half a +ℤ (a -ℤ half a) ≡ a
split_sum a = omega int_laws

-- Whatever the outcome is, a two-party fixed outcome pays exactly the app's amount.
pay_fixed_outcome-Pays :
    (outcome : ℤ) (params : TwoPartyFixedOutcomeInterpreterParams)
    → str_eq params.player_addrs.0 params.player_addrs.1 ≡ false
    → Pays
        (pay_fixed_outcome outcome params)
        params.token_address
        params.player_addrs.0
        params.player_addrs.1
        params.amount
unfolding pay_fixed_outcome
pay_fixed_outcome-Pays outcome params differ =
    let token = params.token_address in
    let (first, second) = params.player_addrs in
    elim (Bool-cases (eqb_ℤ outcome send_to_addr_one)) [
      | inl one ↦ rw one (
          one_payout-Pays token first second differ first params.amount
            (ground (arith, eq_refl first)))
      | inr not_one ↦ elim (Bool-cases (eqb_ℤ outcome send_to_addr_two)) [
        | inl two ↦
            rw (not_one, two)
              (one_payout-Pays token first second differ second params.amount
                (ground (arith, eq_refl second)))
        | inr neither ↦
            rw (not_one, neither)
              (subst (Pays _ token first second) (split_sum params.amount) (
                two_payouts-Pays token first second differ (half params.amount)
                  (params.amount -ℤ half params.amount)))
      ]
    ]

-- A two-party fixed outcome, when it is decoded, pays exactly the app's amount, in the app's token,
-- to the two players, who differ, and nothing to anybody else.
pub handle_two_party_fixed_outcome-Pays :
    (d : Decoder) (encoded : String) (params : TwoPartyFixedOutcomeInterpreterParams)
    {m : TokenIndexedCoinTransferMap}
    → str_eq params.player_addrs.0 params.player_addrs.1 ≡ false
    → handle_two_party_fixed_outcome d encoded (some params) ≡ ok m
    → Pays m params.token_address params.player_addrs.0 params.player_addrs.1 params.amount
unfolding handle_two_party_fixed_outcome
handle_two_party_fixed_outcome-Pays d encoded params differ run =
    let (outcome, decoded, paid) = >>=-eq-ok (decode_two_party_fixed_outcome d encoded) _ run in
    subst
      (λ m. Pays m params.token_address params.player_addrs.0 params.player_addrs.1 params.amount)
      (ok-injective paid) (pay_fixed_outcome-Pays outcome params differ)
