-- ===== src/Coins.antt =====
-- Coin transfers and their maps: modules/cf-core/src/models/utils.ts and the conversions of
-- modules/cf-core/src/models/free-balance.ts. A BigNumber is an unbounded integer.
pub mod Merge
pub mod Totals
use indra.Prelude.{
  String, ℤ, pos, ◌+ℤ◌, ◌-ℤ◌, Option, none, some, List, [], ◌∷◌, ◌++◌, map, or_else,
}
use indra.Dict.{Dict, lookup, set, keys, set_all, add_keys}

pub record CoinTransfer : Type 0 where
  pub to : String
  pub amount : ℤ

abbrev pub CoinTransferMap : Type 0
CoinTransferMap = Dict ℤ

abbrev pub TokenIndexedCoinTransferMap : Type 0
TokenIndexedCoinTransferMap = Dict CoinTransferMap

-- `map[key] || Zero`
unfoldable pub amount_of : String → CoinTransferMap → ℤ
amount_of k m = or_else (lookup k m) (pos 0)

abbrev pub to_entry : CoinTransfer → String × ℤ
to_entry t = (t.to, t.amount)

abbrev pub of_entry : String × ℤ → CoinTransfer
of_entry e = record { to = e.0; amount = e.1 }

-- `coinTransfers || []`, a later transfer to the same address replacing an earlier one.
unfoldable pub convert_coin_transfers_to_coin_transfers_map :
    Option (List CoinTransfer) → CoinTransferMap
convert_coin_transfers_to_coin_transfers_map ts = set_all [] (map to_entry (or_else ts []))

unfoldable pub convert_coin_transfers_map_to_coin_transfers : CoinTransferMap → List CoinTransfer
convert_coin_transfers_map_to_coin_transfers m = map of_entry m

abbrev pub negate : String × ℤ → String × ℤ
negate e = (e.0, pos 0 -ℤ e.1)

unfoldable pub flip : CoinTransferMap → CoinTransferMap
flip m = set_all [] (map negate m)

abbrev pub flip_entry : String × CoinTransferMap → String × CoinTransferMap
flip_entry e = (e.0, flip e.1)

unfoldable pub flip_token_indexed_balances :
    TokenIndexedCoinTransferMap → TokenIndexedCoinTransferMap
flip_token_indexed_balances m = set_all [] (map flip_entry m)

-- The loop `for (const key of …) ret[key] = (base[key] || Zero).add(increments[key] || Zero)`.
unfoldable pub merge_keys :
    CoinTransferMap → CoinTransferMap → List String → CoinTransferMap → CoinTransferMap
merge_keys base increments [] ret = ret
merge_keys base increments (k ∷ ks) ret =
    merge_keys base increments ks (set k (amount_of k base +ℤ amount_of k increments) ret)

-- `new Set([...new Set(Object.keys(base)), ...new Set(Object.keys(increments))])`
unfoldable pub merged_keys : CoinTransferMap → CoinTransferMap → List String
merged_keys base increments = add_keys [] (add_keys [] (keys base) ++ add_keys [] (keys increments))

unfoldable pub merge : CoinTransferMap → CoinTransferMap → CoinTransferMap
merge base increments = merge_keys base increments (merged_keys base increments) []
