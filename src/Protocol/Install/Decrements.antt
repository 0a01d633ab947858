-- ===== src/Protocol/Install/Decrements.antt =====
-- The amounts that an installation takes from the free balance.
use indra.Prelude.{
  String, str_eq, eq_iff, ℤ, pos, ◌+ℤ◌, +ℤ_zero, zero_+ℤ, ◌≡◌, false, ◌&&◌, some, if◌then◌else◌,
  arith,
}
use indra.Dict.{lookup, set, keys}
use indra.Dict.Laws.{Distinct}
use indra.Coins.{amount_of}
use indra.Ethers.{Ethers}
use indra.FreeBalance.Increment.{amount_in}
use indra.FreeBalance.Flip.{OwnersDistinct}
use indra.FreeBalance.WellFormed.{TokensChecksummed}
use indra.Protocol.Install.{balance_decrement}

-- What one party puts in, as seen from an owner and a token.
abbrev pub share : String → String → ℤ → String → String → ℤ
share token owner amount t a = if str_eq token t && str_eq owner a then amount else pos 0

module _ (it rt i r : String) (x y : ℤ) where
  pub balance_decrement-Distinct : Distinct (balance_decrement it rt i r x y)
  unfolding balance_decrement set lookup
  balance_decrement-Distinct = ground (arith, eq_iff it rt, eq_iff rt it)

  pub balance_decrement-OwnersDistinct : OwnersDistinct (balance_decrement it rt i r x y)
  unfolding balance_decrement set lookup
  balance_decrement-OwnersDistinct = ground (arith, eq_iff i r, eq_iff r i)

  pub balance_decrement-TokensChecksummed :
      (e : Ethers)
      → e.get_address it ≡ some it
      → e.get_address rt ≡ some rt
      → TokensChecksummed e (keys (balance_decrement it rt i r x y))
  unfolding balance_decrement set keys
  balance_decrement-TokensChecksummed e hi hr = ground arith

  -- For two different owners the decrement is the sum of what each of them puts in.
  pub amount_in-balance_decrement :
      (t a : String)
      → str_eq i r ≡ false
      → amount_in (balance_decrement it rt i r x y) t a ≡ share it i x t a +ℤ share rt r y t a
  unfolding balance_decrement set amount_of lookup
  amount_in-balance_decrement t a differ = ground (
    arith,
    eq_iff it rt,
    eq_iff it t,
    eq_iff rt t,
    eq_iff i a,
    eq_iff r a,
    eq_iff i r,
    +ℤ_zero x,
    zero_+ℤ y,
    zero_+ℤ (pos 0),
  )
