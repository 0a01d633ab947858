-- ===== src/Store/Service.antt =====
-- The part of IStoreService (modules/types/src/store.ts) that keeps channels, and what it promises of
-- the channel that an operation is called for.
use indra.Prelude.{String, Option, some, Result, ok, ◌≡◌}
use indra.Dict.{set, delete}
use indra.AppInstance.{AppInstanceJson}
use indra.StateChannel.Channel.{AppInstanceProposal}
use indra.StateChannel.Json.{StateChannelJson}

pub record StoreService (W : Type 0) : Type 0 where
  pub get_state_channel : W → String → Option StateChannelJson
  pub save_state_channel : W → StateChannelJson → W
  pub save_free_balance : W → String → AppInstanceJson → Result W
  pub get_app_proposal : W → String → Result (Option AppInstanceProposal)
  pub save_app_proposal : W → String → AppInstanceProposal → Result W
  pub remove_app_proposal : W → String → String → Result W
  pub save_app_instance : W → String → AppInstanceJson → Result W
  pub remove_app_instance : W → String → String → Result W

-- The changes of the one channel.
abbrev pub with_free_balance : AppInstanceJson → StateChannelJson → StateChannelJson
with_free_balance fb j = record j { free_balance_app_instance = some fb }

abbrev pub with_proposal : AppInstanceProposal → StateChannelJson → StateChannelJson
with_proposal p j = record j {
  proposed_app_instances = set p.identity_hash p j.proposed_app_instances;
}

abbrev pub without_proposal : String → StateChannelJson → StateChannelJson
without_proposal hash j = record j { proposed_app_instances = delete hash j.proposed_app_instances }

abbrev pub with_app : AppInstanceJson → StateChannelJson → StateChannelJson
with_app a j = record j { app_instances = set a.identity_hash a j.app_instances }

abbrev pub without_app : String → StateChannelJson → StateChannelJson
without_app hash j = record j { app_instances = delete hash j.app_instances }

-- The store holds the channel under its address.
abbrev pub Keeps : {W : Type 0} → StoreService W → W → StateChannelJson → Type 0
Keeps svc w j = svc.get_state_channel w j.multisig_address ≡ some j

-- An operation that succeeds, after which the store keeps the given channel.
abbrev pub Leads : {W : Type 0} → StoreService W → Result W → StateChannelJson → Type 0
Leads {W = W} svc run j = (w' : W) × (run ≡ ok w') × Keeps svc w' j

-- The promises, for the channel at one address.
pub record Promises {W : Type 0} (svc : StoreService W) (m : String) : Type 0 where
  pub saves_channel :
      (w : W) (j : StateChannelJson)
      → j.multisig_address ≡ m
      → Keeps svc (svc.save_state_channel w j) j
  pub saves_free_balance :
      (w : W) (j : StateChannelJson) (fb : AppInstanceJson)
      → j.multisig_address ≡ m
      → Keeps svc w j
      → Leads svc (svc.save_free_balance w m fb) (with_free_balance fb j)
  pub saves_proposal :
      (w : W) (j : StateChannelJson) (p : AppInstanceProposal)
      → j.multisig_address ≡ m
      → Keeps svc w j
      → Leads svc (svc.save_app_proposal w m p) (with_proposal p j)
  pub removes_proposal :
      (w : W) (j : StateChannelJson) (hash : String)
      → j.multisig_address ≡ m
      → Keeps svc w j
      → Leads svc (svc.remove_app_proposal w m hash) (without_proposal hash j)
  pub saves_app :
      (w : W) (j : StateChannelJson) (a : AppInstanceJson)
      → j.multisig_address ≡ m
      → Keeps svc w j
      → Leads svc (svc.save_app_instance w m a) (with_app a j)
  pub removes_app :
      (w : W) (j : StateChannelJson) (hash : String)
      → j.multisig_address ≡ m
      → Keeps svc w j
      → Leads svc (svc.remove_app_instance w m hash) (without_app hash j)
