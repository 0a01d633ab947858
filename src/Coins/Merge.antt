-- ===== src/Coins/Merge.antt =====
-- What `merge`, `flip` and the conversions do to each address.
use indra.Prelude.{
  String, eq_iff, pos, ◌+ℤ◌, ◌-ℤ◌, int_laws, zero_+ℤ, ◌≡◌, refl, ◌∙◌, ap, none, some, List, [], ◌∷◌,
  map, ◌||◌, includes, if◌then◌else◌, arith,
}
use indra.Dict.{lookup, has}
use indra.Dict.Laws.{
  Distinct, lookup-set, set-Distinct, set_all-append, includes-keys, includes-append,
  includes-add_keys,
}
use indra.Coins.{
  CoinTransferMap, amount_of, to_entry, of_entry, negate,
  convert_coin_transfers_to_coin_transfers_map as to_map,
  convert_coin_transfers_map_to_coin_transfers as to_transfers, flip, merge_keys, merged_keys,
  merge,
}

lookup-merge_keys :
    (j : String) (base increments : CoinTransferMap) (ks : List String) (ret : CoinTransferMap)
    → lookup j (merge_keys base increments ks ret)
      ≡ (if includes j ks then some (amount_of j base +ℤ amount_of j increments) else lookup j ret)
unfolding merge_keys
lookup-merge_keys j base increments [] ret = refl
lookup-merge_keys j base increments (k ∷ ks) ret =
    lookup-merge_keys j base increments ks _
    ∙ ground (arith, eq_iff k j, lookup-set j k (amount_of k base +ℤ amount_of k increments) ret)

pub includes-merged_keys :
    (j : String) (base increments : CoinTransferMap)
    → includes j (merged_keys base increments) ≡ (has j base || has j increments)
unfolding merged_keys
includes-merged_keys j base increments = simp (includes-add_keys, includes-append, includes-keys)

pub lookup-merge :
    (j : String) (base increments : CoinTransferMap)
    → lookup j (merge base increments) ≡ (
        if has j base || has j increments
        then some (amount_of j base +ℤ amount_of j increments)
        else none)
unfolding merge lookup
lookup-merge j base increments =
    lookup-merge_keys j base increments _ [] ∙ rw (includes-merged_keys j base increments)

pub amount_of-merge :
    (j : String) (base increments : CoinTransferMap)
    → amount_of j (merge base increments) ≡ amount_of j base +ℤ amount_of j increments
unfolding amount_of
amount_of-merge j base increments = ground (arith, lookup-merge j base increments, zero_+ℤ (pos 0))

merge_keys-Distinct :
    (base increments : CoinTransferMap) (ks : List String) (ret : CoinTransferMap)
    → Distinct ret
    → Distinct (merge_keys base increments ks ret)
unfolding merge_keys
merge_keys-Distinct base increments [] ret h = h
merge_keys-Distinct base increments (k ∷ ks) ret h =
    merge_keys-Distinct base increments ks _ (set-Distinct k _ ret h)

pub merge-Distinct : (base increments : CoinTransferMap) → Distinct (merge base increments)
unfolding merge
merge-Distinct base increments = merge_keys-Distinct base increments _ [] tt

map-to_entry-of_entry : (m : CoinTransferMap) → map to_entry (map of_entry m) ≡ m
map-to_entry-of_entry [] = refl
map-to_entry-of_entry (e ∷ m) = ap (◌∷◌ e) (map-to_entry-of_entry m)

-- A map comes back unchanged from its list of transfers.
pub to_map-to_transfers : (m : CoinTransferMap) → Distinct m → to_map (some (to_transfers m)) ≡ m
unfolding to_map to_transfers
to_map-to_transfers m h = rw (map-to_entry-of_entry m) (set_all-append [] m h)

lookup-negate :
    (k : String) (m : CoinTransferMap)
    → lookup k (map negate m) ≡ (if has k m then some (pos 0 -ℤ amount_of k m) else none)
unfolding lookup amount_of
lookup-negate k [] = refl
lookup-negate k ((j, v) ∷ m) = ground (arith, lookup-negate k m)

map-negate-Distinct : (m : CoinTransferMap) → Distinct m → Distinct (map negate m)
map-negate-Distinct [] h = tt
map-negate-Distinct ((j, v) ∷ m) h = (lookup-negate j m ∙ rw h.0, map-negate-Distinct m h.1)

pub amount_of-flip :
    (k : String) (m : CoinTransferMap) → Distinct m → amount_of k (flip m) ≡ pos 0 -ℤ amount_of k m
unfolding flip amount_of
amount_of-flip k m h =
    rw (set_all-append [] (map negate m) (map-negate-Distinct m h))
      (ground (arith, lookup-negate k m, zero_neg))
  where
    zero_neg : pos 0 -ℤ pos 0 ≡ pos 0
    zero_neg = omega int_laws
