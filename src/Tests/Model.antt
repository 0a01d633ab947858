-- ===== src/Tests/Model.antt =====
-- The theorems on the free balance and on the order of addresses, at concrete inputs.
use indra.Prelude.{String, ◌+ℤ◌, ◌≡◌, refl, ◌↔◌, ok, [], ◌∷◌, arith}
use indra.Dict.{keys, lookup}
use indra.Dict.Laws.{Distinct}
use indra.Coins.{flip_token_indexed_balances}
use indra.Keys.{sort_addresses}
use indra.FreeBalance.{
  FreeBalanceClass, increment, serialize_free_balance_state, deserialize_free_balance_state,
}
use indra.FreeBalance.Serial.{deserialize-serialize}
use indra.FreeBalance.Increment.{
  balance, amount_in, balance-increment, IsSolvent, Covers, increment_iff,
}
use indra.FreeBalance.Flip.{increment-flip}
use indra.Tests.Evaluation.{evaluation}
use indra.Tests.Fixture.{ethers, ethers-ReadsHex, funds, outcome}
use indra.Tests.Funds.{paid, pays, funds-IsWellFormed}

outcome-Distinct : Distinct outcome
unfolding evaluation
outcome-Distinct = (refl, tt)

balance-increment_example :
    ((t a : String) → balance paid t a ≡ balance funds t a +ℤ amount_in outcome t a)
    × (paid.active_apps_map ≡ [])
balance-increment_example = balance-increment outcome funds outcome-Distinct pays

funds-IsSolvent : IsSolvent funds
unfolding evaluation
funds-IsSolvent t a = ground arith

increment_iff_example :
    ((fb' : FreeBalanceClass) × (increment outcome funds ≡ ok fb'))
    ↔ Covers outcome funds.balances_indexed_by_token (keys outcome)
increment_iff_example = increment_iff outcome funds outcome-Distinct

increment-flip_example :
    (fb2 : FreeBalanceClass) × (increment (flip_token_indexed_balances outcome) paid ≡ ok fb2)
    × ((t a : String) → balance fb2 t a ≡ balance funds t a)
unfolding lookup
increment-flip_example =
    increment-flip outcome funds outcome-Distinct ((refl, tt), tt) funds-IsSolvent pays

deserialize-serialize_example :
    deserialize_free_balance_state ethers (serialize_free_balance_state ethers funds) ≡ ok funds
deserialize-serialize_example =
    deserialize-serialize ethers funds ethers-ReadsHex funds-IsWellFormed

-- Two addresses that differ in the last digit only: the order depends on where it starts.
near_addresses :
    sort_addresses (
      "0x8000000000000000000000000000000000000002" ∷ "0x8000000000000000000000000000000000000001"
      ∷ [])
    ≡ "0x8000000000000000000000000000000000000002" ∷ "0x8000000000000000000000000000000000000001"
      ∷ []
unfolding evaluation
near_addresses = refl
