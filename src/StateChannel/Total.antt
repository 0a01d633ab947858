-- ===== src/StateChannel/Total.antt =====
-- When `installApp` and `uninstallApp` succeed.
use indra.Prelude.{String, ◌≡◌, refl, true, ok}
use indra.Dict.{keys}
use indra.Dict.Laws.{Distinct}
use indra.Coins.{TokenIndexedCoinTransferMap, flip_token_indexed_balances}
use indra.Ethers.{Ethers}
use indra.AppInstance.{AppInstance, identity_hash, set_state}
use indra.FreeBalance.{
  FreeBalanceClass, increment, add_active_app, to_app_instance, serialize_free_balance_state,
}
use indra.FreeBalance.Increment.{Covers, increment_iff}
use indra.FreeBalance.Flip.{flip_token_indexed_balances-Distinct}
use indra.StateChannel.Channel.{StateChannel, all_xpubs, get_signing_keys_for}
use indra.StateChannel.Updates.{
  every_same, set_free_balance, install_app, add_active_app_and_increment_free_balance,
}
use indra.StateChannel.Funds.{Holds, get_free_balance_class-Holds}
use indra.StateChannel.Apps.{with_app, install_app_lem, with_app-Holds}

-- The encoder accepts the state of the free balance that an addition of the app would write.
abbrev pub Encodes :
    {e : Ethers} {ch : StateChannel} {fb : FreeBalanceClass}
    → Holds e ch fb
    → String
    → TokenIndexedCoinTransferMap
    → Type 0
Encodes {e} {ch} {fb} h app incs =
    (fb' : FreeBalanceClass)
    → increment incs fb ≡ ok fb'
    → e.encodes h.app.app_interface.state_encoding
        (serialize_free_balance_state e (add_active_app app fb'))
      ≡ true

module _ (e : Ethers) (ch : StateChannel) (fb : FreeBalanceClass) (h : Holds e ch fb)
    (valid : all_xpubs ch.user_neutered_extended_keys ≡ true) where
  set_free_balance_total :
      (fb' : FreeBalanceClass)
      → e.encodes h.app.app_interface.state_encoding (serialize_free_balance_state e fb') ≡ true
      → (ch' : StateChannel) × (set_free_balance e ch fb' ≡ ok ch')
  unfolding set_free_balance to_app_instance set_state
  set_free_balance_total fb' accepted = rw (h.stored, accepted, valid) (_, refl)

  pub add_active_app_total :
      (app : String) (incs : TokenIndexedCoinTransferMap)
      → Encodes h app incs
      → Distinct incs
      → Covers incs fb.balances_indexed_by_token (keys incs)
      → (ch' : StateChannel) × (add_active_app_and_increment_free_balance e ch app incs ≡ ok ch')
  unfolding add_active_app_and_increment_free_balance
  add_active_app_total app incs encoded d c =
      let (fb', paid) = (increment_iff incs fb d).1 c in
      let (ch', done) = set_free_balance_total (add_active_app app fb') (encoded fb' paid) in
      (ch', rw (get_free_balance_class-Holds e ch fb h, paid) done)

module _ (e : Ethers) (ch : StateChannel) (app : AppInstance) (fb : FreeBalanceClass)
    (h : Holds e ch fb) (valid : all_xpubs ch.user_neutered_extended_keys ≡ true) where
  -- `installApp` succeeds on a channel with valid keys, for an app with the channel's keys as its
  -- participants, when no balance would fall below zero by the decrements, which name no token twice,
  -- and the encoder accepts the state of the free balance that is written.
  pub install_app_total :
      (decs : TokenIndexedCoinTransferMap)
      → Encodes h (identity_hash e app) (flip_token_indexed_balances decs)
      → every_same (get_signing_keys_for e ch app.app_seq_no) app.participants ≡ true
      → Distinct decs
      → Covers
          (flip_token_indexed_balances decs)
          fb.balances_indexed_by_token
          (keys (flip_token_indexed_balances decs))
      → (ch' : StateChannel) × (install_app e ch app decs ≡ ok ch')
  install_app_total decs encoded matched d c =
      let (ch', added) =
        add_active_app_total e (with_app e ch app) fb (with_app-Holds e ch app fb h) valid
          (identity_hash e app) (flip_token_indexed_balances decs) encoded
          (flip_token_indexed_balances-Distinct decs d) c in
      (ch', install_app_lem e ch app decs matched valid added)
