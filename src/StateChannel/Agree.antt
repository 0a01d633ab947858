-- ===== src/StateChannel/Agree.antt =====
-- The invariant of a channel: its apps are the active apps of its free balance; along any sequence of
-- installations, uninstallations and new states.
use indra.Prelude.{
  String, ◌≡◌, sym, ◌∙◌, true, false, some, ok, arith, subst, Bool-cases, inl, inr, if◌then◌else◌,
  eq_iff, str_eq,
}
use indra.Dict.{Dict, lookup, has, set, delete, keys}
use indra.Dict.Laws.{Distinct, lookup-set, lookup-delete, set-Distinct, delete-Distinct}
use indra.Coins.{TokenIndexedCoinTransferMap}
use indra.States.{AppState}
use indra.Ethers.{Ethers, ReadsHex}
use indra.Keys.{sort_addresses}
use indra.AppInstance.{AppInstance, identity_hash}
use indra.FreeBalance.{FreeBalanceClass}
use indra.FreeBalance.Flip.{OwnersDistinct}
use indra.FreeBalance.WellFormed.{TokensChecksummed}
use indra.StateChannel.Channel.{StateChannel}
use indra.StateChannel.Updates.{install_app, uninstall_app, set_app_state}
use indra.StateChannel.Funds.{Holds}
use indra.StateChannel.Apps.{install_app-effect, uninstall_app-effect}
use indra.StateChannel.Progress.{set_app_state-effect}

has-set :
    {V : Type 0} (j k : String) (v : V) (d : Dict V)
    → has j (set k v d) ≡ (if str_eq k j then true else has j d)
has-set j k v d =
    rw (lookup-set j k v d)
      (elim (Bool-cases (str_eq k j)) [ inl same ↦ rw same | inr other ↦ rw other ])

has-delete :
    {V : Type 0} (j k : String) (d : Dict V)
    → Distinct d
    → has j (delete k d) ≡ (if str_eq k j then false else has j d)
has-delete j k d h =
    rw (lookup-delete j k d h)
      (elim (Bool-cases (str_eq k j)) [ inl same ↦ rw same | inr other ↦ rw other ])

-- The channel holds some free balance, and its apps are the active apps of that.
pub record IsConsistent (e : Ethers) (ch : StateChannel) : Type 0 where
  pub funds : FreeBalanceClass
  pub holds : Holds e ch funds
  pub apps_distinct : Distinct ch.app_instances
  pub agree : (h : String) → has h ch.app_instances ≡ has h funds.active_apps_map

-- One operation on the apps of a channel, that returned.
pub data Step (e : Ethers) : StateChannel → StateChannel → Type 0 where
  installs :
      {ch ch' : StateChannel} (app : AppInstance) (decs : TokenIndexedCoinTransferMap)
      → Distinct decs
      → OwnersDistinct decs
      → TokensChecksummed e (keys decs)
      → install_app e ch app decs ≡ ok ch'
      → Step e ch ch'
  uninstalls :
      {ch ch' : StateChannel} (app : AppInstance) (incs : TokenIndexedCoinTransferMap)
      → Distinct incs
      → TokensChecksummed e (keys incs)
      → uninstall_app e ch app incs ≡ ok ch'
      → Step e ch ch'
  moves :
      {ch ch' : StateChannel} (app : AppInstance) (state : AppState)
      → lookup (identity_hash e app) ch.app_instances ≡ some app
      → sort_addresses app.participants ≡ app.participants
      → set_app_state e ch app state ≡ ok ch'
      → Step e ch ch'

-- Any number of operations.
pub data Steps (e : Ethers) : StateChannel → StateChannel → Type 0 where
  stay : {ch : StateChannel} → Steps e ch ch
  then_step : {ch ch' ch'' : StateChannel} → Steps e ch ch' → Step e ch' ch'' → Steps e ch ch''

install_app-IsConsistent :
    (e : Ethers) (ch : StateChannel) (app : AppInstance) (decs : TokenIndexedCoinTransferMap)
    {ch' : StateChannel}
    → ReadsHex e
    → IsConsistent e ch
    → Distinct decs
    → OwnersDistinct decs
    → TokensChecksummed e (keys decs)
    → install_app e ch app decs ≡ ok ch'
    → IsConsistent e ch'
install_app-IsConsistent e ch app decs r c d o k run =
    let (fb', holds, _, apps, _, active, _) =
      install_app-effect e ch app decs c.funds r c.holds d o k run in
    record {
      funds = fb';
      holds = holds;
      apps_distinct = rw apps (set-Distinct _ app ch.app_instances c.apps_distinct);
      agree = λ h. rw (
        apps,
        active,
        has-set h (identity_hash e app) app ch.app_instances,
        has-set h (identity_hash e app) true c.funds.active_apps_map,
        c.agree h,
      );
    }

uninstall_app-IsConsistent :
    (e : Ethers) (ch : StateChannel) (app : AppInstance) (incs : TokenIndexedCoinTransferMap)
    {ch' : StateChannel}
    → ReadsHex e
    → IsConsistent e ch
    → Distinct incs
    → TokensChecksummed e (keys incs)
    → uninstall_app e ch app incs ≡ ok ch'
    → IsConsistent e ch'
uninstall_app-IsConsistent e ch app incs r c d k run =
    let (fb', holds, _, apps, _, active, _) =
      uninstall_app-effect e ch app incs c.funds r c.holds d k run in
    record {
      funds = fb';
      holds = holds;
      apps_distinct = rw apps (delete-Distinct _ ch.app_instances c.apps_distinct);
      agree = λ h. rw (
        apps,
        active,
        has-delete h (identity_hash e app) ch.app_instances c.apps_distinct,
        has-delete h (identity_hash e app) c.funds.active_apps_map
            c.holds.well_formed.apps_distinct,
        c.agree h,
      );
    }

-- Putting a value where there is one keeps the keys.
has-set_present :
    {V : Type 0} (h k : String) (v w : V) (d : Dict V)
    → lookup k d ≡ some w
    → has h (set k v d) ≡ has h d
has-set_present h k v w d there = ground (arith, has-set h k v d, eq_iff k h)

set_app_state-IsConsistent :
    (e : Ethers) (ch : StateChannel) (app : AppInstance) (state : AppState) {ch' : StateChannel}
    → IsConsistent e ch
    → lookup (identity_hash e app) ch.app_instances ≡ some app
    → sort_addresses app.participants ≡ app.participants
    → set_app_state e ch app state ≡ ok ch'
    → IsConsistent e ch'
set_app_state-IsConsistent e ch app state {ch'} c there sorted run =
    let (app', _, same, _, _, _, _, _) = set_app_state-effect e ch app state sorted run in
    subst (IsConsistent e) (sym same) (record {
      funds = c.funds;
      holds = record {
        app = c.holds.app;
        stored = c.holds.stored;
        reads = c.holds.reads;
        well_formed = c.holds.well_formed;
      };
      apps_distinct = set-Distinct _ app' ch.app_instances c.apps_distinct;
      agree =
          λ h. has-set_present h (identity_hash e app) app' app ch.app_instances there ∙ c.agree h;
    })

Step-IsConsistent :
    (e : Ethers) {ch ch' : StateChannel}
    → ReadsHex e
    → IsConsistent e ch
    → Step e ch ch'
    → IsConsistent e ch'
Step-IsConsistent e {ch} r c (installs app decs d o k run) =
    install_app-IsConsistent e ch app decs r c d o k run
Step-IsConsistent e {ch} r c (uninstalls app incs d k run) =
    uninstall_app-IsConsistent e ch app incs r c d k run
Step-IsConsistent e {ch} r c (moves app state there sorted run) =
    set_app_state-IsConsistent e ch app state c there sorted run

-- A channel that holds a free balance and whose apps are exactly the active apps of that stays so
-- along any sequence of installations, uninstallations and new states of its apps. The amounts name
-- no token twice, their tokens are checksummed addresses, and the participants of an app that gets a
-- new state are sorted.
pub Steps-IsConsistent :
    (e : Ethers) {ch ch' : StateChannel}
    → ReadsHex e
    → IsConsistent e ch
    → Steps e ch ch'
    → IsConsistent e ch'
Steps-IsConsistent e r c stay = c
Steps-IsConsistent e r c (then_step before last) =
    Step-IsConsistent e r (Steps-IsConsistent e r c before) last
