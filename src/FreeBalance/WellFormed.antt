-- ===== src/FreeBalance/WellFormed.antt =====
-- The updates of a free balance keep it in the form that is read back as it was written.
use indra.Prelude.{String, ◌≡◌, refl, true, some, List, [], ◌∷◌, ok, or_else, arith, >>=-eq-ok}
use indra.Dict.{lookup, set, delete, keys}
use indra.Dict.Laws.{Distinct, set-Distinct, delete-Distinct}
use indra.Coins.{CoinTransfer, TokenIndexedCoinTransferMap}
use indra.Ethers.{Ethers}
use indra.FreeBalance.{
  FreeBalanceClass, Balances, ActiveAppsMap, increment_token, increment_tokens, increment,
  add_active_app, remove_active_app,
}
use indra.FreeBalance.Serial.{Checksummed, AllTrue, IsWellFormed}
use indra.FreeBalance.Increment.{increment_inv, increment_token_lem}

-- Every token of a map is a checksummed address.
abbrev pub TokensChecksummed : Ethers → List String → Type 0
TokensChecksummed e [] = Unit
TokensChecksummed e (t ∷ ts) = (e.get_address t ≡ some t) × TokensChecksummed e ts

set-Checksummed :
    (e : Ethers) (t : String) (ts : List CoinTransfer) (b : Balances)
    → e.get_address t ≡ some t
    → Checksummed e b
    → Checksummed e (set t ts b)
unfolding set
set-Checksummed e t ts [] h c = (h, tt)
set-Checksummed e t ts ((u, us) ∷ b) h c = ground (arith, set-Checksummed e t ts b h c.1)

increment_tokens-form :
    (e : Ethers) (incs : TokenIndexedCoinTransferMap) (ts : List String) (b : Balances)
    {b' : Balances}
    → TokensChecksummed e ts
    → Checksummed e b
    → Distinct b
    → increment_tokens incs ts b ≡ ok b'
    → Checksummed e b' × Distinct b'
unfolding increment_tokens
increment_tokens-form e incs [] b k c d h = ground arith
increment_tokens-form e incs (t ∷ ts) b k c d h =
    let (b1, first, rest) = >>=-eq-ok (increment_token t _ b) _ h in
    let step = (increment_token_lem t (or_else (lookup t incs) []) b b1 first).1 in
    increment_tokens-form e incs ts b1 k.1 (rw step (set-Checksummed e t _ b k.0 c))
      (rw step (set-Distinct t _ b d)) rest

-- Increments of checksummed tokens keep a free balance well formed.
pub increment-IsWellFormed :
    (e : Ethers) (incs : TokenIndexedCoinTransferMap) (fb : FreeBalanceClass)
    {fb' : FreeBalanceClass}
    → TokensChecksummed e (keys incs)
    → IsWellFormed e fb
    → increment incs fb ≡ ok fb'
    → IsWellFormed e fb'
increment-IsWellFormed e incs fb k w h =
    let (b, run, same) = increment_inv incs fb h in
    let (c, d) =
      increment_tokens-form e incs (keys incs) fb.balances_indexed_by_token k w.checksummed
        w.tokens_distinct run in
    rw same (record {
      tokens_distinct = d;
      checksummed = c;
      apps_distinct = w.apps_distinct;
      all_true = w.all_true;
    })

set-AllTrue : (h : String) (m : ActiveAppsMap) → AllTrue m → AllTrue (set h true m)
unfolding set
set-AllTrue h [] a = (refl, tt)
set-AllTrue h ((k, v) ∷ m) a = ground (arith, set-AllTrue h m a.1)

delete-AllTrue : (h : String) (m : ActiveAppsMap) → AllTrue m → AllTrue (delete h m)
unfolding delete
delete-AllTrue h [] a = tt
delete-AllTrue h ((k, v) ∷ m) a = ground (arith, delete-AllTrue h m a.1)

pub add_active_app-IsWellFormed :
    (e : Ethers) (app : String) (fb : FreeBalanceClass)
    → IsWellFormed e fb
    → IsWellFormed e (add_active_app app fb)
unfolding add_active_app
add_active_app-IsWellFormed e app fb w = record {
  tokens_distinct = w.tokens_distinct;
  checksummed = w.checksummed;
  apps_distinct = set-Distinct app true fb.active_apps_map w.apps_distinct;
  all_true = set-AllTrue app fb.active_apps_map w.all_true;
}

pub remove_active_app-IsWellFormed :
    (e : Ethers) (app : String) (fb : FreeBalanceClass)
    → IsWellFormed e fb
    → IsWellFormed e (remove_active_app app fb)
unfolding remove_active_app
remove_active_app-IsWellFormed e app fb w = record {
  tokens_distinct = w.tokens_distinct;
  checksummed = w.checksummed;
  apps_distinct = delete-Distinct app fb.active_apps_map w.apps_distinct;
  all_true = delete-AllTrue app fb.active_apps_map w.all_true;
}
