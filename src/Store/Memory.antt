-- ===== src/Store/Memory.antt =====
-- modules/store/src/wrappers/memoryStorage.ts: a store in memory. Its maps are dictionaries; apps,
-- proposals and free balances are kept beside the channels, for all channels together. A JSON object
-- that is pushed to is the one in the map; that its caller may hold it too is left out, and so is what
-- is in the store after an error.
pub mod Shared
use indra.Prelude.{
  String, str_eq, not, ℕ, Option, none, some, List, [], ◌∷◌, ◌++◌, Result, ok, err, ◌>>=◌, or_throw,
  filter, ◌||◌, if◌then◌else◌,
}
use indra.Dict.{Dict, lookup, has, set, delete, values}
use indra.AppInstance.{AppInstanceJson}
use indra.StateChannel.Channel.{AppInstanceProposal}
use indra.StateChannel.Json.{StateChannelJson}
use indra.Commitment.{SetStateCommitment}
use indra.Commitment.Multisig.{MultisigCommitment, SignedTransaction}

-- The fields of the class; the object of a withdrawal that is monitored is a text.
pub record MemoryStorage : Type 0 where
  pub channels : Dict StateChannelJson
  pub set_state_commitments : Dict SetStateCommitment
  pub conditional_tx_commitment : Dict MultisigCommitment
  pub withdrawals : Dict SignedTransaction
  pub proposed_apps : Dict AppInstanceProposal
  pub app_instances : Dict AppInstanceJson
  pub user_withdrawals : Option String
  pub free_balances : Dict (Option AppInstanceJson)
  pub setup_commitments : Dict SignedTransaction
  pub schema_version : ℕ

-- `m.get(k)` of a map whose values may be undefined.
abbrev pub flatten {ℓ} : {A : Type ℓ} → Option (Option A) → Option A
flatten none = none
flatten (some o) = o

unfoldable pub set_schema_version : MemoryStorage → ℕ → MemoryStorage
set_schema_version s version = record s { schema_version = version }

unfoldable pub get_all_channels : MemoryStorage → List StateChannelJson
get_all_channels s = values s.channels

-- The object that `getStateChannel` spreads a stored channel into.
abbrev pub with_shared : MemoryStorage → String → StateChannelJson → StateChannelJson
with_shared s m ch = record ch {
  app_instances = s.app_instances;
  proposed_app_instances = s.proposed_apps;
  free_balance_app_instance = flatten (lookup m s.free_balances);
}

unfoldable pub get_state_channel : MemoryStorage → String → Option StateChannelJson
get_state_channel s m = elim (lookup m s.channels) [
  | none ↦ none
  | some ch ↦ some (with_shared s m ch)
]

unfoldable pub find_channel : String → List StateChannelJson → Option StateChannelJson
find_channel id [] = none
find_channel id (j ∷ js) =
    let rest = find_channel id js in
    if has id j.proposed_app_instances || has id j.app_instances
    then some j
    else (elim j.free_balance_app_instance [
      | none ↦ rest
      | some fb ↦ if str_eq fb.identity_hash id then some j else rest
    ])

unfoldable pub get_state_channel_by_app_instance_id :
    MemoryStorage → String → Option StateChannelJson
unfolding find_channel
get_state_channel_by_app_instance_id s id = find_channel id (values s.channels)

-- `entries.forEach(([k, v]) => m.set(k, v))`
unfoldable pub set_each {ℓ} : {V : Type ℓ} → Dict V → Dict V → Dict V
set_each [] d = d
set_each ((k, v) ∷ entries) d = set_each entries (set k v d)

unfoldable pub save_state_channel : MemoryStorage → StateChannelJson → MemoryStorage
unfolding set_each
save_state_channel s j = record s {
  channels = set j.multisig_address j s.channels;
  app_instances = set_each j.app_instances s.app_instances;
  proposed_apps = set_each j.proposed_app_instances s.proposed_apps;
  free_balances = set j.multisig_address j.free_balance_app_instance s.free_balances;
}

unfoldable pub get_app_instance : MemoryStorage → String → Option AppInstanceJson
get_app_instance s id = lookup id s.app_instances

unfoldable pub save_app_instance : MemoryStorage → String → AppInstanceJson → Result MemoryStorage
save_app_instance s m a = do
  ch ← or_throw (lookup m s.channels) "Channel not found"
  ok (record s {
    channels =
        set m (record ch { app_instances = ch.app_instances ++ ((a.identity_hash, a) ∷ []) })
          s.channels;
    app_instances = set a.identity_hash a s.app_instances;
  })

-- `entries.filter(([id]) => id !== hash)`
abbrev pub filter_out {ℓ} : {V : Type ℓ} → String → Dict V → Dict V
filter_out hash [] = []
filter_out hash ((id, v) ∷ d) =
    if str_eq id hash then filter_out hash d else (id, v) ∷ filter_out hash d

unfoldable pub remove_app_instance : MemoryStorage → String → String → Result MemoryStorage
unfolding get_state_channel
remove_app_instance s m hash = do
  ch ← or_throw (get_state_channel s m) "Cannot read property 'multisigAddress' of undefined"
  ok (record s {
    app_instances = delete hash s.app_instances;
    channels =
        set ch.multisig_address (record ch { app_instances = filter_out hash ch.app_instances })
          s.channels;
  })

unfoldable pub get_app_proposal : MemoryStorage → String → Option AppInstanceProposal
get_app_proposal s id = lookup id s.proposed_apps

unfoldable pub save_app_proposal :
    MemoryStorage → String → AppInstanceProposal → Result MemoryStorage
save_app_proposal s m p = do
  ch ← or_throw (lookup m s.channels) "Channel not found"
  ok (record s {
    channels =
        set m
          (record ch {
            proposed_app_instances = ch.proposed_app_instances ++ ((p.identity_hash, p) ∷ []);
          })
          s.channels;
    proposed_apps = set p.identity_hash p s.proposed_apps;
  })

unfoldable pub remove_app_proposal : MemoryStorage → String → String → Result MemoryStorage
unfolding get_state_channel
remove_app_proposal s m hash = do
  ch ← or_throw (get_state_channel s m) "Cannot read property 'multisigAddress' of undefined"
  ok (record s {
    proposed_apps = delete hash s.proposed_apps;
    channels =
        set ch.multisig_address
          (record ch { proposed_app_instances = filter_out hash ch.proposed_app_instances })
          s.channels;
  })

unfoldable pub get_free_balance : MemoryStorage → String → Option AppInstanceJson
get_free_balance s m = flatten (lookup m s.free_balances)

unfoldable pub save_free_balance : MemoryStorage → String → AppInstanceJson → MemoryStorage
save_free_balance s m fb = record s { free_balances = set m (some fb) s.free_balances }

unfoldable pub save_setup_commitment : MemoryStorage → String → SignedTransaction → MemoryStorage
save_setup_commitment s m c = record s { setup_commitments = set m c s.setup_commitments }

unfoldable pub save_latest_set_state_commitment :
    MemoryStorage → String → SetStateCommitment → MemoryStorage
save_latest_set_state_commitment s id c = record s {
  set_state_commitments = set id c s.set_state_commitments;
}

unfoldable pub save_conditional_transaction_commitment :
    MemoryStorage → String → MultisigCommitment → MemoryStorage
save_conditional_transaction_commitment s id c = record s {
  conditional_tx_commitment = set id c s.conditional_tx_commitment;
}

unfoldable pub save_withdrawal_commitment :
    MemoryStorage → String → SignedTransaction → MemoryStorage
save_withdrawal_commitment s m c = record s { withdrawals = set m c s.withdrawals }

unfoldable pub set_user_withdrawal : MemoryStorage → String → MemoryStorage
set_user_withdrawal s w = record s { user_withdrawals = some w }

unfoldable pub clear : MemoryStorage → MemoryStorage
clear s = record s { channels = []; withdrawals = []; app_instances = []; user_withdrawals = none }

-- `restore` clears the store and throws, with a backup service or without one.
unfoldable pub restore : MemoryStorage → Option String → Result (Unit {0}) × MemoryStorage
unfolding clear
restore s none = (err "No backup provided, store cleared", clear s)
restore s (some backup) = (err "Method not implemented for MemoryStorage", clear s)
