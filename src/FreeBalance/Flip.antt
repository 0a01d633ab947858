-- ===== src/FreeBalance/Flip.antt =====
-- What is taken from a free balance can be given back.
use mathlib.Core.Option.{some-injective}
use indra.Prelude.{
  Bool-cases, subst, String, str_eq, pos, ◌+ℤ◌, ◌-ℤ◌, int_laws, ◌≡◌, refl, ap, ◌∙◌, none, some, [],
  ◌∷◌, map, ok, arith, Option-cases, inl, inr,
}
use indra.Dict.{lookup, keys}
use indra.Dict.Laws.{Distinct, set_all-append}
use indra.Coins.{
  CoinTransferMap, TokenIndexedCoinTransferMap, amount_of, flip, flip_entry,
  flip_token_indexed_balances,
}
use indra.Coins.Merge.{amount_of-flip}
use indra.FreeBalance.{FreeBalanceClass, increment}
use indra.FreeBalance.Increment.{amount_in, balance, balance-increment, IsSolvent, increment_iff}

-- The maps by owner of a map by token name nobody twice.
abbrev pub OwnersDistinct : TokenIndexedCoinTransferMap → Type 0
OwnersDistinct [] = Unit
OwnersDistinct ((t, m) ∷ ms) = Distinct m × OwnersDistinct ms

lookup-flip_entry :
    (t : String) (m : TokenIndexedCoinTransferMap)
    → lookup t (map flip_entry m) ≡ (elim (lookup t m) [ none ↦ none | some c ↦ some (flip c) ])
unfolding lookup
lookup-flip_entry t [] = refl
lookup-flip_entry t ((u, c) ∷ m) = ground (arith, lookup-flip_entry t m)

map-flip_entry-Distinct :
    (m : TokenIndexedCoinTransferMap) → Distinct m → Distinct (map flip_entry m)
map-flip_entry-Distinct [] d = tt
map-flip_entry-Distinct ((t, c) ∷ m) d =
    (lookup-flip_entry t m ∙ rw d.0, map-flip_entry-Distinct m d.1)

flip_token_indexed_balances-map :
    (m : TokenIndexedCoinTransferMap)
    → Distinct m
    → flip_token_indexed_balances m ≡ map flip_entry m
unfolding flip_token_indexed_balances
flip_token_indexed_balances-map m d = set_all-append [] _ (map-flip_entry-Distinct m d)

pub flip_token_indexed_balances-Distinct :
    (m : TokenIndexedCoinTransferMap) → Distinct m → Distinct (flip_token_indexed_balances m)
flip_token_indexed_balances-Distinct m d =
    rw (flip_token_indexed_balances-map m d) (map-flip_entry-Distinct m d)

keys-map-flip_entry : (m : TokenIndexedCoinTransferMap) → keys (map flip_entry m) ≡ keys m
unfolding keys
keys-map-flip_entry [] = refl
keys-map-flip_entry ((t, c) ∷ m) = ap (◌∷◌ t) (keys-map-flip_entry m)

-- Flipping keeps the tokens and their order.
pub keys-flip :
    (m : TokenIndexedCoinTransferMap) → Distinct m → keys (flip_token_indexed_balances m) ≡ keys m
keys-flip m d = ap keys (flip_token_indexed_balances-map m d) ∙ keys-map-flip_entry m

lookup-OwnersDistinct :
    (t : String) (m : TokenIndexedCoinTransferMap) (c : CoinTransferMap)
    → OwnersDistinct m
    → lookup t m ≡ some c
    → Distinct c
unfolding lookup
lookup-OwnersDistinct t [] c o h = cc
lookup-OwnersDistinct t ((u, d) ∷ m) c o h = elim (Bool-cases (str_eq u t)) [
  | inl same ↦ subst Distinct (some-injective _ _ (rw same at h)) o.0
  | inr other ↦ lookup-OwnersDistinct t m c o.1 (rw other at h)
]

zero_amount : (a : String) → amount_of a [] ≡ pos 0 -ℤ amount_of a []
unfolding amount_of lookup
zero_amount a = omega int_laws

-- Flipping a map turns the sign of every amount.
pub amount_in-flip :
    (m : TokenIndexedCoinTransferMap) (t a : String)
    → Distinct m
    → OwnersDistinct m
    → amount_in (flip_token_indexed_balances m) t a ≡ pos 0 -ℤ amount_in m t a
amount_in-flip m t a d o =
    rw (flip_token_indexed_balances-map m d, lookup-flip_entry t m)
      (elim (Option-cases (lookup t m)) [
        | inl missing ↦ rw missing (zero_amount a)
        | inr (c, found) ↦ rw found (amount_of-flip a c (lookup-OwnersDistinct t m c o found))
      ])

-- Taking an amount that was given leaves every balance as it was, and never fails on a solvent
-- free balance: an increment followed by the flipped increment, and so the other way round.
pub increment-flip :
    (m : TokenIndexedCoinTransferMap) (fb : FreeBalanceClass) {fb' : FreeBalanceClass}
    → Distinct m
    → OwnersDistinct m
    → IsSolvent fb
    → increment m fb ≡ ok fb'
    → (fb2 : FreeBalanceClass) × (increment (flip_token_indexed_balances m) fb' ≡ ok fb2)
      × ((t a : String) → balance fb2 t a ≡ balance fb t a)
increment-flip m fb {fb'} d o s h =
    let back =
      (increment_iff (flip_token_indexed_balances m) fb'
          (flip_token_indexed_balances-Distinct m d)).1
        (λ t a _. rw (restored t a) (s t a)) in
    (
      back.0,
      back.1,
      λ t a.
          (balance-increment _ fb' (flip_token_indexed_balances-Distinct m d) back.1).0 t a
          ∙ restored t a,
    )
  where
    restored :
        (t a : String)
        → balance fb' t a +ℤ amount_in (flip_token_indexed_balances m) t a ≡ balance fb t a
    restored t a =
        rw (amount_in-flip m t a d o, (balance-increment m fb d h).0 t a) (omega int_laws)
