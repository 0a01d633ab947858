-- ===== src/StateChannel/Updates.antt =====
-- The operations of modules/cf-core/src/models/state-channel.ts that give a new channel. The class is
-- immutable: each operation returns a new channel or throws.
use indra.Prelude.{
  String, str_eq, ℕ, ◌+◌, Bool, true, false, not, ◌&&◌, Option, none, some, List, [], ◌∷◌,
  get_elem?, Result, ok, ◌>>=◌, ◌>>◌, throw_if, or_throw, if◌then◌else◌,
}
use indra.Dict.{Dict, has, set, delete}
use indra.Coins.{TokenIndexedCoinTransferMap, flip_token_indexed_balances}
use indra.States.{AppState}
use indra.Ethers.{Ethers}
use indra.Keys.{xkey_kth_address}
use indra.AppInstance.{AppInstance, identity_hash, set_state}
use indra.FreeBalance.{
  FreeBalanceClass, increment, add_active_app, remove_active_app, to_app_instance,
  from_app_instance, create_free_balance, free_balance_default_timeout,
}
use indra.StateChannel.Channel.{
  AppInstanceProposal, CriticalStateChannelAddresses, StateChannel, state_schema_version, construct,
  unchanged, or_own_number, build, get_signing_keys_for, multisig_owners, free_balance,
}

abbrev pub is_text : Option String → String → Bool
is_text none key = false
is_text (some o) key = str_eq key o

-- The address of an extended key, which must be one of the first two owners.
unfoldable pub owner_address : Ethers → List String → String → String → Result String
owner_address e owners xpub message =
    let key = xkey_kth_address e xpub 0 in
    throw_if (not (is_text (get_elem? owners 0) key) && not (is_text (get_elem? owners 1) key))
      message
    >> ok key

unfoldable pub get_multisig_owner_addr_of : Ethers → StateChannel → String → Result String
unfolding owner_address
get_multisig_owner_addr_of e ch xpub =
    owner_address e (multisig_owners e ch) xpub
      "getMultisigOwnerAddrOf received invalid xpub not in multisigOwners"

unfoldable pub get_free_balance_addr_of : Ethers → StateChannel → String → Result String
unfolding owner_address
get_free_balance_addr_of e ch xpub = do
  fb ← or_throw ch.free_balance_app_instance "Cannot read property 'participants' of undefined"
  owner_address e fb.participants xpub
      "getFreeBalanceAddrOf received invalid xpub without free balance account"

unfoldable pub get_free_balance_class : Ethers → StateChannel → Result FreeBalanceClass
unfolding free_balance
get_free_balance_class e ch = do fb ← free_balance ch; from_app_instance e fb

unfoldable pub set_free_balance : Ethers → StateChannel → FreeBalanceClass → Result StateChannel
unfolding free_balance build
set_free_balance e ch fb = do
  old ← free_balance ch
  app ← to_app_instance e fb old
  build ch (record unchanged { new_free_balance = some app })

unfoldable pub add_active_app_and_increment_free_balance :
    Ethers → StateChannel → String → TokenIndexedCoinTransferMap → Result StateChannel
unfolding get_free_balance_class set_free_balance
add_active_app_and_increment_free_balance e ch active_app increments = do
  fb ← get_free_balance_class e ch
  fb' ← increment increments fb
  set_free_balance e ch (add_active_app active_app fb')

unfoldable pub remove_active_app_and_increment_free_balance :
    Ethers → StateChannel → String → TokenIndexedCoinTransferMap → Result StateChannel
unfolding get_free_balance_class set_free_balance
remove_active_app_and_increment_free_balance e ch active_app increments = do
  fb ← get_free_balance_class e ch
  fb' ← increment increments (remove_active_app active_app fb)
  set_free_balance e ch fb'

unfoldable pub setup_channel :
    Ethers
    → String
    → CriticalStateChannelAddresses
    → String
    → List String
    → Option ℕ
    → Result StateChannel
unfolding construct
setup_channel e free_balance_app_address addresses multisig keys free_balance_timeout =
    construct (record {
      multisig_address = multisig;
      addresses = addresses;
      user_neutered_extended_keys = keys;
      proposed_app_instances = [];
      app_instances = [];
      free_balance_app_instance = some (
          create_free_balance e keys free_balance_app_address
            (or_own_number free_balance_timeout free_balance_default_timeout) multisig);
      monotonic_num_proposed_apps = 1;
      schema_version = state_schema_version;
    })

unfoldable pub create_empty_channel :
    String → CriticalStateChannelAddresses → List String → Result StateChannel
unfolding construct
create_empty_channel multisig addresses keys = construct (record {
  multisig_address = multisig;
  addresses = addresses;
  user_neutered_extended_keys = keys;
  proposed_app_instances = [];
  app_instances = [];
  free_balance_app_instance = none;
  monotonic_num_proposed_apps = 1;
  schema_version = state_schema_version;
})

unfoldable pub add_proposal : StateChannel → AppInstanceProposal → Result StateChannel
unfolding build
add_proposal ch proposal = build ch (record unchanged {
  new_proposals = some (set proposal.identity_hash proposal ch.proposed_app_instances);
  new_num_proposed_apps = some (ch.monotonic_num_proposed_apps + 1);
})

unfoldable pub remove_proposal : StateChannel → String → Result StateChannel
unfolding build
remove_proposal ch hash =
    build ch (record unchanged { new_proposals = some (delete hash ch.proposed_app_instances) })

unfoldable pub add_app_instance : Ethers → StateChannel → AppInstance → Result StateChannel
unfolding build
add_app_instance e ch app = build ch (record unchanged {
  new_apps = some (set (identity_hash e app) app ch.app_instances);
  new_num_proposed_apps = some (ch.monotonic_num_proposed_apps + 1);
})

unfoldable pub remove_app_instance : StateChannel → String → Result StateChannel
unfolding build
remove_app_instance ch hash =
    build ch (record unchanged { new_apps = some (delete hash ch.app_instances) })

-- `setState` of a channel; the app's own `setState` may throw.
unfoldable pub set_app_state : Ethers → StateChannel → AppInstance → AppState → Result StateChannel
unfolding build
set_app_state e ch app state = do
  app' ← set_state e app state none
  build ch (record unchanged { new_apps = some (set (identity_hash e app) app' ch.app_instances) })

-- `participants.every((v, idx) => v === appInstance.participants[idx])`
unfoldable pub every_same : List String → List String → Bool
every_same [] others = true
every_same (v ∷ vs) [] = false
every_same (v ∷ vs) (o ∷ others) = str_eq v o && every_same vs others

-- The proposals of an installed app's channel: `undefined` where the app was not proposed.
unfoldable pub without_proposal : StateChannel → String → Result (Option (Dict AppInstanceProposal))
unfolding remove_proposal
without_proposal ch hash =
    if has hash ch.proposed_app_instances
    then (do ch' ← remove_proposal ch hash; ok (some ch'.proposed_app_instances))
    else ok none

unfoldable pub install_app :
    Ethers → StateChannel → AppInstance → TokenIndexedCoinTransferMap → Result StateChannel
unfolding every_same without_proposal build add_active_app_and_increment_free_balance
install_app e ch app decrements = do
  throw_if (not (every_same (get_signing_keys_for e ch app.app_seq_no) app.participants))
      "AppInstance passed to installApp has incorrect participants."
  proposals ← without_proposal ch (identity_hash e app)
  ch' ← build ch (record unchanged {
    new_apps = some (set (identity_hash e app) app ch.app_instances);
    new_proposals = proposals;
  })
  add_active_app_and_increment_free_balance e ch' (identity_hash e app)
      (flip_token_indexed_balances decrements)

unfoldable pub uninstall_app :
    Ethers → StateChannel → AppInstance → TokenIndexedCoinTransferMap → Result StateChannel
unfolding build remove_active_app_and_increment_free_balance
uninstall_app e ch app increments = do
  throw_if (not (has (identity_hash e app) ch.app_instances)) "Consistency error"
  ch' ←
      build ch
        (record unchanged { new_apps = some (delete (identity_hash e app) ch.app_instances) })
  remove_active_app_and_increment_free_balance e ch' (identity_hash e app) increments
