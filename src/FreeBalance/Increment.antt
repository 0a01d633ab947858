-- ===== src/FreeBalance/Increment.antt =====
-- What `increment` does to every balance: the amounts, their signs, and when it throws.
use indra.Prelude.{
  String, str_eq, eq_iff, eq_refl, ℤ, pos, ◌+ℤ◌, ◌≤ℤ◌, +ℤ_zero, ◌≡◌, ◌↔◌, refl, sym, ◌∙◌, subst,
  true, false, List, [], ◌∷◌, inl, inr, ok, or_else, includes, if◌then◌else◌, arith, Bool-cases,
  >>=-eq-ok,
}
use indra.Dict.{lookup, has, set, keys, values}
use indra.Dict.Laws.{Distinct, Members, lookup-set, includes-keys}
use indra.Coins.{
  CoinTransferMap, TokenIndexedCoinTransferMap, amount_of, merge,
  convert_coin_transfers_to_coin_transfers_map as to_map,
  convert_coin_transfers_map_to_coin_transfers as to_transfers,
}
use indra.Coins.Merge.{amount_of-merge, merge-Distinct, to_map-to_transfers}
use indra.FreeBalance.{
  FreeBalanceClass, Balances, has_negative, increment_token, increment_tokens, increment,
}

-- What an owner has of a token, 0 without an entry.
abbrev pub balance_in : Balances → String → String → ℤ
balance_in b t a = amount_of a (to_map (lookup t b))

abbrev pub balance : FreeBalanceClass → String → String → ℤ
balance fb t a = balance_in fb.balances_indexed_by_token t a

-- The amount that a map has for an owner and a token.
abbrev pub amount_in : TokenIndexedCoinTransferMap → String → String → ℤ
amount_in m t a = amount_of a (or_else (lookup t m) [])

has_negative-nonneg :
    (m : CoinTransferMap) (a : String) → has_negative (values m) ≡ false → pos 0 ≤ℤ amount_of a m
unfolding has_negative values amount_of lookup
has_negative-nonneg [] a h = omega arith
has_negative-nonneg ((k, v) ∷ m) a h = ground (arith, has_negative-nonneg m a)

nonneg-has_negative :
    (m : CoinTransferMap)
    → Distinct m
    → ((a : String) → pos 0 ≤ℤ amount_of a m)
    → has_negative (values m) ≡ false
unfolding has_negative values amount_of lookup
nonneg-has_negative [] d h = refl
nonneg-has_negative ((k, v) ∷ m) d h = ground (
  arith,
  h k,
  eq_refl k,
  nonneg-has_negative m d.1 (λ a. elim (Bool-cases (str_eq k a)) [
    | inl same ↦ rw (← (eq_iff k a).0 same, d.0) (omega arith)
    | inr other ↦ rw other at (h a)
  ]),
)

-- A step sets the balances of its token to the merged ones, and leaves the other tokens alone.
pub increment_token_lem :
    (t : String) (inc : CoinTransferMap) (b b' : Balances)
    → increment_token t inc b ≡ ok b'
    → (has_negative (values (merge (to_map (lookup t b)) inc)) ≡ false)
      × (b' ≡ set t (to_transfers (merge (to_map (lookup t b)) inc)) b)
unfolding increment_token
increment_token_lem t inc b b' h = ground arith

merged_balance :
    (t u a : String) (inc : CoinTransferMap) (b : Balances)
    → balance_in (set t (to_transfers (merge (to_map (lookup t b)) inc)) b) u a
      ≡ (if str_eq t u then balance_in b t a +ℤ amount_of a inc else balance_in b u a)
merged_balance t u a inc b =
    rw (lookup-set u t (to_transfers (merge (to_map (lookup t b)) inc)) b)
      (elim (Bool-cases (str_eq t u)) [
        | inl same ↦ rw (
          same,
          to_map-to_transfers (merge (to_map (lookup t b)) inc) (merge-Distinct _ inc),
          amount_of-merge a (to_map (lookup t b)) inc,
        )
        | inr other ↦ rw other
      ])

increment_tokens-balance :
    (incs : TokenIndexedCoinTransferMap) (ts : List String) (b : Balances) {b' : Balances}
    → Members ts
    → increment_tokens incs ts b ≡ ok b'
    → (t a : String)
    → balance_in b' t a
      ≡ (if includes t ts then balance_in b t a +ℤ amount_in incs t a else balance_in b t a)
unfolding increment_tokens
increment_tokens-balance incs [] b m h t a = ground arith
increment_tokens-balance incs (u ∷ ts) b m h t a =
    let (b1, first, rest) = >>=-eq-ok (increment_token u _ b) _ h in
    increment_tokens-balance incs ts b1 m.1 rest t a
    ∙ ground (
      arith,
      eq_iff u t,
      increment_token_lem u (or_else (lookup u incs) []) b b1 first,
      merged_balance u t a (or_else (lookup u incs) []) b,
    )

keys-Members : (m : TokenIndexedCoinTransferMap) → Distinct m → Members (keys m)
unfolding keys
keys-Members [] d = tt
keys-Members ((t, inc) ∷ m) d = (includes-keys t m ∙ rw d.0, keys-Members m d.1)

-- A token that the increments do not mention has the increment 0.
amount_in_absent :
    (incs : TokenIndexedCoinTransferMap) (t a : String)
    → has t incs ≡ false
    → amount_in incs t a ≡ pos 0
unfolding amount_of lookup
amount_in_absent incs t a h = ground arith

pub increment_inv :
    (incs : TokenIndexedCoinTransferMap) (fb : FreeBalanceClass) {fb' : FreeBalanceClass}
    → increment incs fb ≡ ok fb'
    → (b : Balances) × (increment_tokens incs (keys incs) fb.balances_indexed_by_token ≡ ok b)
      × (fb' ≡ record fb { balances_indexed_by_token = b })
unfolding increment
increment_inv incs fb h =
    let (b, first, rest) = >>=-eq-ok (increment_tokens incs (keys incs) _) _ h in
    (b, first, ground arith)

-- A successful increment adds to the balance of every owner, in every token, what the increments
-- have for them, where the increments name no token twice; the active apps stay.
pub balance-increment :
    (incs : TokenIndexedCoinTransferMap) (fb : FreeBalanceClass) {fb' : FreeBalanceClass}
    → Distinct incs
    → increment incs fb ≡ ok fb'
    → ((t a : String) → balance fb' t a ≡ balance fb t a +ℤ amount_in incs t a)
      × (fb'.active_apps_map ≡ fb.active_apps_map)
balance-increment incs fb {fb'} d h = (
  λ t a.
      let (b, run, e) = increment_inv incs fb h in
      rw
        (
          e,
          increment_tokens-balance incs (keys incs) fb.balances_indexed_by_token
              (keys-Members incs d) run t a,
          includes-keys t incs,
        )
        (elim (Bool-cases (has t incs)) [
          | inl there ↦ rw there
          | inr missing ↦
              rw (missing, amount_in_absent incs t a missing) (sym (+ℤ_zero (balance fb t a)))
        ]),
  let (b, run, e) = increment_inv incs fb h in rw e,
)

-- No owner has less than nothing.
abbrev pub IsSolvent : FreeBalanceClass → Type 0
IsSolvent fb = (t a : String) → pos 0 ≤ℤ balance fb t a

increment_token-nonneg :
    (t : String) (inc : CoinTransferMap) (b b' : Balances)
    → increment_token t inc b ≡ ok b'
    → (a : String) → pos 0 ≤ℤ balance_in b t a +ℤ amount_of a inc
increment_token-nonneg t inc b b' h a =
    rw (← amount_of-merge a (to_map (lookup t b)) inc)
      (has_negative-nonneg _ a (increment_token_lem t inc b b' h).0)

increment_tokens-solvent :
    (incs : TokenIndexedCoinTransferMap) (ts : List String) (b : Balances) {b' : Balances}
    → ((t a : String) → pos 0 ≤ℤ balance_in b t a)
    → increment_tokens incs ts b ≡ ok b'
    → (t a : String) → pos 0 ≤ℤ balance_in b' t a
unfolding increment_tokens
increment_tokens-solvent incs [] b s h t a = ground (arith, s t a)
increment_tokens-solvent incs (u ∷ ts) b s h t' a' =
    let (b1, first, rest) = >>=-eq-ok (increment_token u _ b) _ h in
    increment_tokens-solvent incs ts b1
      (λ t a.
        rw
          (
            (increment_token_lem u (or_else (lookup u incs) []) b b1 first).1,
            merged_balance u t a (or_else (lookup u incs) []) b,
          )
          (elim (Bool-cases (str_eq u t)) [
            | inl same ↦ rw same (increment_token-nonneg u _ b b1 first a)
            | inr other ↦ rw other (s t a)
          ]))
      rest t' a'

-- Whatever the increments are, a solvent free balance stays solvent.
pub increment-IsSolvent :
    (incs : TokenIndexedCoinTransferMap) (fb : FreeBalanceClass) {fb' : FreeBalanceClass}
    → IsSolvent fb
    → increment incs fb ≡ ok fb'
    → IsSolvent fb'
increment-IsSolvent incs fb s h t a =
    let (b, run, e) = increment_inv incs fb h in
    rw e (increment_tokens-solvent incs (keys incs) fb.balances_indexed_by_token s run t a)

-- Every balance that the increments touch stays at 0 or above.
abbrev pub Covers : TokenIndexedCoinTransferMap → Balances → List String → Type 0
Covers incs b ts =
    (t a : String) → includes t ts ≡ true → pos 0 ≤ℤ balance_in b t a +ℤ amount_in incs t a

increment_token_total :
    (t : String) (inc : CoinTransferMap) (b : Balances)
    → ((a : String) → pos 0 ≤ℤ balance_in b t a +ℤ amount_of a inc)
    → increment_token t inc b ≡ ok (set t (to_transfers (merge (to_map (lookup t b)) inc)) b)
unfolding increment_token
increment_token_total t inc b h = rw (
    nonneg-has_negative (merge (to_map (lookup t b)) inc) (merge-Distinct _ inc)
      (λ a. rw (amount_of-merge a (to_map (lookup t b)) inc) (h a)))

increment_tokens_total :
    (incs : TokenIndexedCoinTransferMap) (ts : List String) (b : Balances)
    → Members ts
    → Covers incs b ts
    → (b' : Balances) × (increment_tokens incs ts b ≡ ok b')
unfolding increment_tokens
increment_tokens_total incs [] b m c = (b, refl)
increment_tokens_total incs (u ∷ ts) b m c =
    rw
      (increment_token_total u (or_else (lookup u incs) []) b
        (λ a. c u a (ground (arith, eq_refl u))))
      (increment_tokens_total incs ts _ m.1 (λ t a there.
        rw (merged_balance u t a (or_else (lookup u incs) []) b) (elim (Bool-cases (str_eq u t)) [
          | inl same ↦ absurd (ground (arith, eq_iff u t))
          | inr other ↦ rw other (c t a (rw (other, there)))
        ])))

increment_tokens-touched :
    (incs : TokenIndexedCoinTransferMap) (ts : List String) (b : Balances) {b' : Balances}
    → increment_tokens incs ts b ≡ ok b'
    → Covers incs b ts
unfolding increment_tokens
increment_tokens-touched incs [] b h t a there = cc
increment_tokens-touched incs (u ∷ ts) b h t a there =
    let (b1, first, rest) = >>=-eq-ok (increment_token u _ b) _ h in
    elim (Bool-cases (str_eq u t)) [
      | inl same ↦ rw (← (eq_iff u t).0 same) (increment_token-nonneg u _ b b1 first a)
      | inr other ↦
          subst (λ v. pos 0 ≤ℤ v +ℤ amount_in incs t a)
            (rw (
              (increment_token_lem u (or_else (lookup u incs) []) b b1 first).1,
              merged_balance u t a (or_else (lookup u incs) []) b,
              other,
            ))
            (increment_tokens-touched incs ts b1 rest t a (rw other at there))
    ]

-- `increment` succeeds exactly when every balance that it touches stays at 0 or above.
pub increment_iff :
    (incs : TokenIndexedCoinTransferMap) (fb : FreeBalanceClass)
    → Distinct incs
    → ((fb' : FreeBalanceClass) × (increment incs fb ≡ ok fb'))
      ↔ Covers incs fb.balances_indexed_by_token (keys incs)
unfolding increment
increment_iff incs fb d = (
  λ (_, h).
      let (b, run, _) = increment_inv incs fb h in
      increment_tokens-touched incs (keys incs) fb.balances_indexed_by_token run,
  λ c.
      let (b, run) =
        increment_tokens_total incs (keys incs) fb.balances_indexed_by_token (keys-Members incs d)
          c in
      (record fb { balances_indexed_by_token = b }, rw run),
)
