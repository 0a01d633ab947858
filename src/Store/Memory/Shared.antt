-- ===== src/Store/Memory/Shared.antt =====
-- Apps and free balances in the store in memory.
use indra.Prelude.{
  String, str_eq, some, ◌≡◌, refl, ok, >>=-eq-ok, or_throw, Bool-cases, Option-cases, ok-injective,
  inl, inr, arith,
}
use indra.Dict.{Dict, lookup, set}
use indra.Dict.Laws.{lookup-set, lookup-set_self}
use indra.AppInstance.{AppInstanceJson}
use indra.StateChannel.Json.{StateChannelJson}
use indra.Store.Memory.{MemoryStorage, with_shared, get_state_channel, save_app_instance}

get_state_channel-stored :
    (s : MemoryStorage) (m : String) (c : StateChannelJson)
    → lookup m s.channels ≡ some c
    → get_state_channel s m ≡ some (with_shared s m c)
unfolding get_state_channel
get_state_channel-stored s m c h = rw (get_state_channel, h) refl

-- A channel that can be read stands in the map of channels.
get_state_channel_inv :
    (s : MemoryStorage) (m : String) (j : StateChannelJson)
    → get_state_channel s m ≡ some j
    → (c : StateChannelJson) × (lookup m s.channels ≡ some c)
unfolding get_state_channel
get_state_channel_inv s m j h = elim (Option-cases (lookup m s.channels)) [
  | inl absent ↦ ground arith
  | inr there ↦ there
]

-- It still does when any channel is set.
set-stays :
    (m other : String) (v c : StateChannelJson) (d : Dict StateChannelJson)
    → lookup other d ≡ some c
    → (c' : StateChannelJson) × (lookup other (set m v d) ≡ some c')
set-stays m other v c d h = elim (Bool-cases (str_eq m other)) [
  | inl same ↦ (v, rw (lookup-set other m v d, same) refl)
  | inr differs ↦ (c, rw (lookup-set other m v d, differs) h)
]

-- Saving an app of one channel in the store in memory makes it an app of every other stored channel
-- too: whatever channel is read afterwards, it has the app under its identity hash.
pub save_app_instance-everywhere :
    (s s' : MemoryStorage) (m other : String) (a : AppInstanceJson) (j : StateChannelJson)
    → get_state_channel s other ≡ some j
    → save_app_instance s m a ≡ ok s'
    → (j' : StateChannelJson) × (get_state_channel s' other ≡ some j')
      × (lookup a.identity_hash j'.app_instances ≡ some a)
unfolding save_app_instance
save_app_instance-everywhere s s' m other a j there saved =
    let (c, found) = get_state_channel_inv s other j there in
    let (ch, _, moved) = >>=-eq-ok (or_throw (lookup m s.channels) "Channel not found") _ saved in
    let (c', stays) = set-stays m other _ c s.channels found in
    rw (← ok-injective moved) (
      _,
      get_state_channel-stored _ other c' stays,
      lookup-set_self a.identity_hash a s.app_instances,
    )
