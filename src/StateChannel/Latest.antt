-- ===== src/StateChannel/Latest.antt =====
-- Which app `mostRecentlyInstalledAppInstance` names. The install protocol takes its answer for the
-- app that it has just installed.
use indra.Prelude.{
  String, str_eq, ℕ, ◌≤◌, ◌<◌, ◌≡◌, ◌≢◌, refl, ap, false, some, [], ◌∷◌, List, ok, arith, >>=-eq-ok,
}
use indra.Dict.{Dict, lookup, set, values}
use indra.Dict.Laws.{lookup-set}
use indra.Coins.{TokenIndexedCoinTransferMap, flip_token_indexed_balances}
use indra.Ethers.{Ethers}
use indra.AppInstance.{AppInstance, identity_hash}
use indra.FreeBalance.{increment, add_active_app}
use indra.StateChannel.Channel.{StateChannel}
use indra.StateChannel.Queries.{latest_app, latest_of, most_recently_installed_app_instance}
use indra.StateChannel.Updates.{
  install_app, get_free_balance_class, add_active_app_and_increment_free_balance,
}
use indra.StateChannel.Funds.{set_free_balance_inv}
use indra.StateChannel.Apps.{install_app_inv, with_app}

-- Every app of the list has a number below `n`.
abbrev pub Older : ℕ → Dict AppInstance → Type 0
Older n [] = Unit
Older n ((k, b) ∷ d) = (b.app_seq_no < n) × Older n d

latest_app-above :
    (prev : AppInstance) (rest : List AppInstance)
    → prev.app_seq_no ≤ (latest_app prev rest).app_seq_no
unfolding latest_app
latest_app-above prev [] = omega arith
latest_app-above prev (b ∷ rest) =
    ground (arith, latest_app-above prev rest, latest_app-above b rest)

latest_app-all :
    (prev : AppInstance) (j : String) (b : AppInstance) (d : Dict AppInstance)
    → lookup j d ≡ some b
    → b.app_seq_no ≤ (latest_app prev (values d)).app_seq_no
unfolding latest_app lookup values
latest_app-all prev j b [] h = cc
latest_app-all prev j b ((k, c) ∷ d) h = ground (
  arith,
  latest_app-above prev (values d),
  latest_app-above c (values d),
  latest_app-all prev j b d,
  latest_app-all c j b d,
)

latest_of-all :
    (j : String) (a b : AppInstance) (d : Dict AppInstance)
    → lookup j d ≡ some b
    → latest_of (values d) ≡ ok a
    → b.app_seq_no ≤ a.app_seq_no
unfolding latest_of lookup values
latest_of-all j a b [] h e = cc
latest_of-all j a b ((k, c) ∷ d) h e =
    ground (arith, latest_app-above c (values d), latest_app-all c j b d)

latest_app-Older :
    (app : AppInstance) (d : Dict AppInstance)
    → Older app.app_seq_no d
    → latest_app app (values d) ≡ app
unfolding latest_app values
latest_app-Older app [] o = refl
latest_app-Older app ((k, c) ∷ d) o = ground (arith, latest_app-Older app d)

latest_app-newest :
    (prev : AppInstance) (h : String) (app : AppInstance) (d : Dict AppInstance)
    → Older app.app_seq_no d
    → prev.app_seq_no < app.app_seq_no
    → latest_app prev (values (set h app d)) ≡ app
unfolding latest_app lookup set values
latest_app-newest prev h app [] o lt = ground arith
latest_app-newest prev h app ((k, c) ∷ d) o lt =
    ground
      (arith, latest_app-newest prev h app d, latest_app-newest c h app d, latest_app-Older app d)

latest_of-newest :
    (h : String) (app : AppInstance) (d : Dict AppInstance)
    → Older app.app_seq_no d
    → latest_of (values (set h app d)) ≡ ok app
unfolding latest_of lookup set values
latest_of-newest h app [] o = ground arith
latest_of-newest h app ((k, c) ∷ d) o =
    ground (arith, latest_app-newest c h app d, latest_app-Older app d)

install_app-app_instances :
    (e : Ethers) (ch : StateChannel) (app : AppInstance) (decs : TokenIndexedCoinTransferMap)
    {ch' : StateChannel}
    → install_app e ch app decs ≡ ok ch'
    → ch'.app_instances ≡ set (identity_hash e app) app ch.app_instances
unfolding add_active_app_and_increment_free_balance
install_app-app_instances e ch app decs run =
    let (_, added) = install_app_inv e ch app decs run in
    let (fb, _, rest) = >>=-eq-ok (get_free_balance_class e (with_app e ch app)) _ added in
    let (fb', _, written) = >>=-eq-ok (increment (flip_token_indexed_balances decs) fb) _ rest in
    let (_, _, _, _, same) =
      set_free_balance_inv e (with_app e ch app) (add_active_app (identity_hash e app) fb')
        written in
    ap (λ (c : StateChannel). c.app_instances) same

-- After `installApp` of an app with a higher number than all the apps of the channel, `mostRecentlyInstalledAppInstance` is that app.
pub most_recently_installed-install_app :
    (e : Ethers) (ch : StateChannel) (app : AppInstance) (decs : TokenIndexedCoinTransferMap)
    {ch' : StateChannel}
    → Older app.app_seq_no ch.app_instances
    → install_app e ch app decs ≡ ok ch'
    → most_recently_installed_app_instance ch' ≡ ok app
unfolding most_recently_installed_app_instance
most_recently_installed-install_app e ch app decs o run =
    rw (install_app-app_instances e ch app decs run)
      (latest_of-newest (identity_hash e app) app ch.app_instances o)

-- After `installApp` of an app while another app of the channel has a higher number (it was proposed
-- later and installed first), `mostRecentlyInstalledAppInstance` is not the app that was installed.
pub most_recently_installed-out_of_order :
    (e : Ethers) (ch : StateChannel) (app other : AppInstance) (j : String)
    (decs : TokenIndexedCoinTransferMap) {ch' : StateChannel}
    → str_eq (identity_hash e app) j ≡ false
    → lookup j ch.app_instances ≡ some other
    → app.app_seq_no < other.app_seq_no
    → install_app e ch app decs ≡ ok ch'
    → most_recently_installed_app_instance ch' ≢ ok app
unfolding most_recently_installed_app_instance
most_recently_installed-out_of_order e ch app other j decs differs there higher run named = absurd (
    omega (
      arith,
      latest_of-all j app other _ found (rw (install_app-app_instances e ch app decs run) at named),
    ))
  where
    found : lookup j (set (identity_hash e app) app ch.app_instances) ≡ some other
    found = rw (lookup-set j (identity_hash e app) app ch.app_instances, differs) there
