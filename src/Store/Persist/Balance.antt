-- ===== src/Store/Persist/Balance.antt =====
-- What the updates of the free balance leave of a channel: all but the free balance app.
use indra.Prelude.{String, some, ◌≡◌, refl, ok, >>=-eq-ok, Bool-cases, inl, inr, arith}
use indra.Dict.{has, delete}
use indra.Ethers.{Ethers}
use indra.Coins.{TokenIndexedCoinTransferMap}
use indra.AppInstance.{AppInstance}
use indra.FreeBalance.{FreeBalanceClass, increment, remove_active_app, to_app_instance}
use indra.StateChannel.Channel.{StateChannel, build, free_balance}
use indra.StateChannel.Updates.{
  get_free_balance_class, set_free_balance, add_active_app_and_increment_free_balance,
  remove_active_app_and_increment_free_balance,
}
use indra.StateChannel.Apps.{proposals_without}
use indra.Store.KeyValue.Promises.{delete-absent}

-- A channel with another free balance app.
abbrev pub freed : StateChannel → AppInstance → StateChannel
freed ch fb = record ch { free_balance_app_instance = some fb }

set_free_balance-freed :
    (e : Ethers) (ch : StateChannel) (f : FreeBalanceClass) {ch' : StateChannel}
    → set_free_balance e ch f ≡ ok ch'
    → (fb : AppInstance) × (ch' ≡ freed ch fb)
unfolding set_free_balance build
set_free_balance-freed e ch f run =
    let (old, _, rest) = >>=-eq-ok (free_balance ch) _ run in
    let (fb, _, built) = >>=-eq-ok (to_app_instance e f old) _ rest in (fb, ground arith)

module _ (e : Ethers) (ch : StateChannel) (hash : String) (incs : TokenIndexedCoinTransferMap)
    {ch' : StateChannel} where
  pub add_active-freed :
      add_active_app_and_increment_free_balance e ch hash incs ≡ ok ch'
      → (fb : AppInstance) × (ch' ≡ freed ch fb)
  unfolding add_active_app_and_increment_free_balance
  add_active-freed run =
      let (fb, _, rest) = >>=-eq-ok (get_free_balance_class e ch) _ run in
      let (fb', _, rest') = >>=-eq-ok (increment incs fb) _ rest in
      set_free_balance-freed e ch _ rest'

  pub remove_active-freed :
      remove_active_app_and_increment_free_balance e ch hash incs ≡ ok ch'
      → (fb : AppInstance) × (ch' ≡ freed ch fb)
  unfolding remove_active_app_and_increment_free_balance
  remove_active-freed run =
      let (fb, _, rest) = >>=-eq-ok (get_free_balance_class e ch) _ run in
      let (fb', _, rest') = >>=-eq-ok (increment incs (remove_active_app hash fb)) _ rest in
      set_free_balance-freed e ch _ rest'

pub proposals_without-delete :
    (ch : StateChannel) (hash : String)
    → proposals_without ch hash ≡ delete hash ch.proposed_app_instances
proposals_without-delete ch hash = elim (Bool-cases (has hash ch.proposed_app_instances)) [
  | inl there ↦ rw there refl
  | inr absent ↦ rw (absent, delete-absent hash ch.proposed_app_instances absent) refl
]
