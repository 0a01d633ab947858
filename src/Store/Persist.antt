-- ===== src/Store/Persist.antt =====
-- modules/cf-core/src/store.ts, the operations by which a protocol persists a channel and its apps, and
-- the middleware of modules/cf-core/src/node.ts that calls them. What is in the store after an error is
-- left open.
pub mod Balance
pub mod Follows
pub mod Others
use indra.Prelude.{
  String, str_eq, not, Option, none, some, List, [], ◌∷◌, Result, ok, err, ◌>>=◌, ◌>>◌, throw_if,
  or_throw, is_some, if◌then◌else◌,
}
use indra.Ethers.{Ethers}
use indra.AppInstance
use indra.AppInstance.{AppInstance, identity_hash}
use indra.StateChannel.Channel.{
  StateChannel, AppInstanceProposal, free_balance, has_app_instance, has_app_proposal,
}
use indra.StateChannel.Json.{to_json, from_json}
use indra.Machine.{PersistedApp, app_instance, proposal, uninstall}
use indra.Store.Service.{StoreService}

module _ {W : Type 0} (e : Ethers) (svc : StoreService W) where
  unfoldable pub get_state_channel : W → String → Result StateChannel
  unfolding from_json
  get_state_channel w m = do
    json ←
        or_throw (svc.get_state_channel w m)
          "Call to getStateChannel failed when searching for multisig address"
    from_json json

  unfoldable pub get_state_channel_if_exists : W → String → Result (Option StateChannel)
  unfolding from_json
  get_state_channel_if_exists w m = elim (svc.get_state_channel w m) [
    | none ↦ ok none
    | some json ↦ do ch ← from_json json; ok (some ch)
  ]

  unfoldable pub save_free_balance : W → StateChannel → Result W
  unfolding free_balance AppInstance.to_json
  save_free_balance w ch = do
    fb ← free_balance ch
    svc.save_free_balance w ch.multisig_address (AppInstance.to_json e fb)

  unfoldable pub save_state_channel : W → StateChannel → Result W
  unfolding get_state_channel_if_exists to_json AppInstance.to_json
  save_state_channel w ch = do
    existing ← get_state_channel_if_exists w ch.multisig_address
    throw_if (is_some existing) "Should only call 'saveStateChannel' during setup protocol"
    elim ch.free_balance_app_instance [
      | none ↦ ok (svc.save_state_channel w (to_json e ch))
      | some fb ↦
          svc.save_free_balance (svc.save_state_channel w (to_json e ch)) ch.multisig_address
            (AppInstance.to_json e fb)
    ]

  unfoldable pub save_app_proposal : W → StateChannel → AppInstanceProposal → Result W
  unfolding free_balance has_app_proposal to_json
  save_app_proposal w ch p = do
    fb ← free_balance ch
    throw_if (str_eq p.identity_hash (identity_hash e fb))
        "Free balance does not go through proposal flow"
    throw_if (not (has_app_proposal ch p.identity_hash))
        "Post protocol channel does not have proposal, did 'propose' protocol fail?"
    svc.save_app_proposal (svc.save_state_channel w (to_json e ch)) ch.multisig_address p

  unfoldable pub remove_app_proposal : W → StateChannel → AppInstanceProposal → Result W
  unfolding has_app_proposal
  remove_app_proposal w ch p = do
    throw_if (has_app_proposal ch p.identity_hash)
        "Post protocol channel still has proposal, did protocol fail?"
    svc.remove_app_proposal w ch.multisig_address p.identity_hash

  -- The proposal of an app is taken out when the store has one.
  unfoldable pub remove_installed_proposal : W → String → String → Result W
  remove_installed_proposal w m hash = do
    found ← svc.get_app_proposal w hash
    elim found [ none ↦ ok w | some p ↦ svc.remove_app_proposal w m hash ]

  unfoldable pub save_app_instance : W → StateChannel → AppInstance → Result W
  unfolding free_balance has_app_proposal has_app_instance remove_installed_proposal
      AppInstance.to_json
  save_app_instance w ch app = do
    throw_if (has_app_proposal ch (identity_hash e app))
        "Post protocol channel still has proposal, did 'install' protocol fail?"
    fb ← free_balance ch
    throw_if (str_eq (identity_hash e app) (identity_hash e fb))
        "Save free balance using 'saveFreeBalance'"
    throw_if (not (has_app_instance ch (identity_hash e app)))
        "Post protocol channel does not have instance, did 'install' protocol fail?"
    w' ← remove_installed_proposal w ch.multisig_address (identity_hash e app)
    svc.save_app_instance w' ch.multisig_address (AppInstance.to_json e app)

  unfoldable pub remove_app_instance : W → StateChannel → AppInstance → Result W
  unfolding has_app_instance
  remove_app_instance w ch app = do
    throw_if (has_app_instance ch (identity_hash e app))
        "Post protocol channel still has instance, did 'uninstall' protocol fail?"
    svc.remove_app_instance w ch.multisig_address (identity_hash e app)

  -- The middleware of the opcode PERSIST_APP_INSTANCE, after it has saved the free balance.
  unfoldable pub persist_app : W → StateChannel → PersistedApp → Result W
  unfolding save_app_proposal save_app_instance remove_app_instance free_balance
  persist_app w ch (proposal p) = save_app_proposal w ch p
  persist_app w ch (app_instance app) = do
    fb ← free_balance ch
    if str_eq (identity_hash e app) (identity_hash e fb) then ok w else save_app_instance w ch app
  persist_app w ch (uninstall app) = remove_app_instance w ch app

  unfoldable pub persist_app_instance : W → StateChannel → PersistedApp → Result W
  unfolding save_free_balance persist_app
  persist_app_instance w ch app = elim (save_free_balance w ch) [
    | err message ↦ err "Setup protocol has not been run"
    | ok w' ↦ persist_app w' ch app
  ]

  -- The middleware of the opcode PERSIST_STATE_CHANNEL.
  unfoldable pub persist_state_channel : W → List StateChannel → Result W
  unfolding save_state_channel
  persist_state_channel w [] = ok w
  persist_state_channel w (ch ∷ chs) = do w' ← save_state_channel w ch; persist_state_channel w' chs
