-- ===== src/FreeBalance/Serial.antt =====
-- The state of the free balance app is read back as it was written.
use indra.Prelude.{◌≡◌, refl, sym, ap, ◌∙◌, true, some, List, [], ◌∷◌, ◌++◌, map, ok, subst}
use mathlib.Core.List.{append_assoc, append-nil}
use indra.Dict.{keys, values}
use indra.Dict.Laws.{Distinct, set-append, lookup-before, set_all-append}
use indra.Coins.{CoinTransfer}
use indra.Ethers.{Ethers, ReadsHex}
use indra.FreeBalance.{
  FreeBalanceClass, Balances, serialize_transfers, serialize_balances, serialize_free_balance_state,
  deserialize_transfers, deserialize_balances, deserialize_free_balance_state, active_entry,
  ActiveAppsMap,
}

-- Every token is a checksummed address.
abbrev pub Checksummed : Ethers → Balances → Type 0
Checksummed e [] = Unit
Checksummed e ((t, ts) ∷ b) = (e.get_address t ≡ some t) × Checksummed e b

-- Every active app is marked by `true`.
abbrev pub AllTrue : ActiveAppsMap → Type 0
AllTrue [] = Unit
AllTrue ((h, v) ∷ m) = (v ≡ true) × AllTrue m

pub record IsWellFormed (e : Ethers) (fb : FreeBalanceClass) : Type 0 where
  pub tokens_distinct : Distinct fb.balances_indexed_by_token
  pub checksummed : Checksummed e fb.balances_indexed_by_token
  pub apps_distinct : Distinct fb.active_apps_map
  pub all_true : AllTrue fb.active_apps_map

deserialize-serialize_transfers :
    (e : Ethers) (ts : List CoinTransfer)
    → ReadsHex e
    → deserialize_transfers e (serialize_transfers e ts) ≡ ok ts
unfolding deserialize_transfers serialize_transfers
deserialize-serialize_transfers e [] r = refl
deserialize-serialize_transfers e (t ∷ ts) r =
    rw (r t.amount, deserialize-serialize_transfers e ts r)

deserialize-serialize_balances :
    (e : Ethers) (b acc : Balances)
    → ReadsHex e
    → Checksummed e b
    → Distinct (acc ++ b)
    → deserialize_balances e (keys b) (serialize_balances e (values b)) acc ≡ ok (acc ++ b)
unfolding deserialize_balances serialize_balances keys values
deserialize-serialize_balances e [] acc r c h = ap ok (sym (append-nil acc))
deserialize-serialize_balances e ((t, ts) ∷ b) acc r c h =
    rw
      (
        c.0,
        deserialize-serialize_transfers e ts r,
        set-append t ts acc (lookup-before t ts acc b h),
      )
      (deserialize-serialize_balances e b (acc ++ ((t, ts) ∷ [])) r c.1
          (subst Distinct (sym (append_assoc acc _ b)) h)
        ∙ ap ok (append_assoc acc ((t, ts) ∷ []) b))

map-active_entry-keys : (m : ActiveAppsMap) → AllTrue m → map active_entry (keys m) ≡ m
unfolding keys
map-active_entry-keys [] h = refl
map-active_entry-keys ((k, v) ∷ m) h = rw (h.0, map-active_entry-keys m h.1)

-- Reading back what was written gives the same free balance.
pub deserialize-serialize :
    (e : Ethers) (fb : FreeBalanceClass)
    → ReadsHex e
    → IsWellFormed e fb
    → deserialize_free_balance_state e (serialize_free_balance_state e fb) ≡ ok fb
unfolding deserialize_free_balance_state serialize_free_balance_state
deserialize-serialize e fb r w = rw (
  deserialize-serialize_balances e fb.balances_indexed_by_token [] r w.checksummed
      w.tokens_distinct,
  map-active_entry-keys fb.active_apps_map w.all_true,
  set_all-append [] fb.active_apps_map w.apps_distinct,
)
