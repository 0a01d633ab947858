-- ===== src/StateChannel/Funds.antt =====
-- What the operations of a channel do to its free balance: `installApp` takes the deposits out of
-- it, `uninstallApp` pays the outcome into it.
use indra.Prelude.{String, ◌+◌, ◌≡◌, refl, ◌∙◌, ap, some, ok, arith, >>=-eq-ok}
use indra.Dict.{keys}
use indra.Coins.{TokenIndexedCoinTransferMap}
use indra.States.{big_numberify_json}
use indra.Ethers.{Ethers, ReadsHex}
use indra.AppInstance.{AppInstance, set_state, construct}
use indra.FreeBalance.{
  FreeBalanceClass, increment, add_active_app, remove_active_app, to_app_instance,
  from_app_instance, serialize_free_balance_state, deserialize_free_balance_state,
}
use indra.FreeBalance.Serial.{IsWellFormed, deserialize-serialize}
use indra.FreeBalance.WellFormed.{
  TokensChecksummed, increment-IsWellFormed, add_active_app-IsWellFormed,
  remove_active_app-IsWellFormed,
}
use indra.StateChannel.Channel.{StateChannel, free_balance}
use indra.StateChannel.Updates.{
  get_free_balance_class, set_free_balance, add_active_app_and_increment_free_balance,
  remove_active_app_and_increment_free_balance,
}

-- The channel has a free balance app, and its state is that of `fb`.
pub record Holds (e : Ethers) (ch : StateChannel) (fb : FreeBalanceClass) : Type 0 where
  pub app : AppInstance
  pub stored : ch.free_balance_app_instance ≡ some app
  pub reads : from_app_instance e app ≡ ok fb
  pub well_formed : IsWellFormed e fb

to_app_instance-state :
    (e : Ethers) (fb : FreeBalanceClass) (old app : AppInstance)
    → to_app_instance e fb old ≡ ok app
    → (app.latest_state ≡ big_numberify_json (serialize_free_balance_state e fb))
      × (app.latest_version_number ≡ old.latest_version_number + 1)
unfolding to_app_instance set_state construct
to_app_instance-state e fb old app h = ground arith

-- What is written into the free balance app is what is read from it.
from-to_app_instance :
    (e : Ethers) (fb : FreeBalanceClass) (old app : AppInstance)
    → ReadsHex e
    → IsWellFormed e fb
    → to_app_instance e fb old ≡ ok app
    → from_app_instance e app ≡ ok fb
unfolding from_app_instance deserialize_free_balance_state
from-to_app_instance e fb old app r w h =
    ap (deserialize_free_balance_state e) (to_app_instance-state e fb old app h).0
    ∙ deserialize-serialize e fb r w

pub set_free_balance_inv :
    (e : Ethers) (ch : StateChannel) (fb : FreeBalanceClass) {ch' : StateChannel}
    → set_free_balance e ch fb ≡ ok ch'
    → (old : AppInstance) × (app : AppInstance) × (ch.free_balance_app_instance ≡ some old)
      × (to_app_instance e fb old ≡ ok app)
      × (ch' ≡ record ch { free_balance_app_instance = some app })
unfolding set_free_balance
set_free_balance_inv e ch fb h =
    let (old, found, rest) = >>=-eq-ok (free_balance ch) _ h in
    let (app, written, built) = >>=-eq-ok (to_app_instance e fb old) _ rest in
    (old, app, ground arith, written, ground arith)

-- Writing a well formed free balance into a channel: it holds that, and nothing else has changed.
pub set_free_balance-Holds :
    (e : Ethers) (ch : StateChannel) (fb : FreeBalanceClass) {ch' : StateChannel}
    → ReadsHex e
    → IsWellFormed e fb
    → set_free_balance e ch fb ≡ ok ch'
    → Holds e ch' fb
      × (ch' ≡ record ch { free_balance_app_instance = ch'.free_balance_app_instance })
set_free_balance-Holds e ch fb r w h =
    let (old, app, _, written, same) = set_free_balance_inv e ch fb h in
    (
      rw same (record {
        app = app;
        stored = refl;
        reads = from-to_app_instance e fb old app r w written;
        well_formed = w;
      }),
      rw same,
    )

pub get_free_balance_class-Holds :
    (e : Ethers) (ch : StateChannel) (fb : FreeBalanceClass)
    → Holds e ch fb
    → get_free_balance_class e ch ≡ ok fb
unfolding get_free_balance_class
get_free_balance_class-Holds e ch fb h = rw h.stored h.reads

pub add_active_app_and_increment-Holds :
    (e : Ethers) (ch : StateChannel) (app : String) (incs : TokenIndexedCoinTransferMap)
    (fb : FreeBalanceClass) {ch' : StateChannel}
    → ReadsHex e
    → Holds e ch fb
    → TokensChecksummed e (keys incs)
    → add_active_app_and_increment_free_balance e ch app incs ≡ ok ch'
    → (fb' : FreeBalanceClass) × (increment incs fb ≡ ok fb')
      × Holds e ch' (add_active_app app fb')
      × (ch' ≡ record ch { free_balance_app_instance = ch'.free_balance_app_instance })
unfolding add_active_app_and_increment_free_balance
add_active_app_and_increment-Holds e ch app incs fb r h k run =
    let (fb', paid, rest) =
      >>=-eq-ok (increment incs fb) _ (rw (get_free_balance_class-Holds e ch fb h) at run) in
    let (holds, same) =
      set_free_balance-Holds e ch (add_active_app app fb') r
        (add_active_app-IsWellFormed e app fb'
          (increment-IsWellFormed e incs fb k h.well_formed paid))
        rest in
    (fb', paid, holds, same)

pub remove_active_app_and_increment-Holds :
    (e : Ethers) (ch : StateChannel) (app : String) (incs : TokenIndexedCoinTransferMap)
    (fb : FreeBalanceClass) {ch' : StateChannel}
    → ReadsHex e
    → Holds e ch fb
    → TokensChecksummed e (keys incs)
    → remove_active_app_and_increment_free_balance e ch app incs ≡ ok ch'
    → (fb' : FreeBalanceClass) × (increment incs (remove_active_app app fb) ≡ ok fb')
      × Holds e ch' fb'
      × (ch' ≡ record ch { free_balance_app_instance = ch'.free_balance_app_instance })
unfolding remove_active_app_and_increment_free_balance
remove_active_app_and_increment-Holds e ch app incs fb r h k run =
    let (fb', paid, rest) =
      >>=-eq-ok (increment incs (remove_active_app app fb)) _
        (rw (get_free_balance_class-Holds e ch fb h) at run) in
    let (holds, same) =
      set_free_balance-Holds e ch fb' r
        (increment-IsWellFormed e incs (remove_active_app app fb) k
          (remove_active_app-IsWellFormed e app fb h.well_formed) paid)
        rest in
    (fb', paid, holds, same)
