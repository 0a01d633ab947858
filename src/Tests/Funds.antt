-- ===== src/Tests/Funds.antt =====
-- Installing and uninstalling the app of the fixture.
use indra.Prelude.{◌≡◌, refl, ok, []}
use indra.Dict.Laws.{Distinct}
use indra.FreeBalance.{FreeBalanceClass, increment}
use indra.FreeBalance.Serial.{IsWellFormed}
use indra.FreeBalance.Increment.{balance, amount_in}
use indra.StateChannel.Channel.{StateChannel}
use indra.StateChannel.Updates.{install_app, uninstall_app}
use indra.StateChannel.Funds.{Holds}
use indra.StateChannel.Apps.{
  proposals_without, install_app-effect, uninstall_app-effect, uninstall_app-install_app,
}
use indra.StateChannel.Channel.{get_signing_keys_for}
use indra.StateChannel.Updates.{every_same, get_free_balance_class}
use indra.FreeBalance.Flip.{OwnersDistinct}
use indra.FreeBalance.WellFormed.{TokensChecksummed}
use indra.Dict.{set, delete, has, keys}
use indra.AppInstance.{identity_hash}
use indra.Prelude.{String, ◌+ℤ◌, ◌-ℤ◌, true, or_throw}
use indra.Tests.Evaluation.{evaluation}
use indra.Tests.Fixture.{
  ethers, ethers-ReadsHex, funds, deposits, outcome, funds_app, app, channel, value_or,
}

abbrev pub paid : FreeBalanceClass
paid = value_or (increment outcome funds) funds

pub pays : increment outcome funds ≡ ok paid
unfolding evaluation
pays = refl

pub funds-IsWellFormed : IsWellFormed ethers funds
unfolding evaluation
funds-IsWellFormed = record {
  tokens_distinct = (refl, tt);
  checksummed = (refl, tt);
  apps_distinct = tt;
  all_true = tt;
}

pub channel-Holds : Holds ethers channel funds
unfolding evaluation
channel-Holds = record {
  app = funds_app;
  stored = refl;
  reads = refl;
  well_formed = funds-IsWellFormed;
}

abbrev installed : StateChannel
installed = value_or (install_app ethers channel app deposits) channel

abbrev uninstalled : StateChannel
uninstalled = value_or (uninstall_app ethers installed app outcome) installed

installs : install_app ethers channel app deposits ≡ ok installed
unfolding evaluation
installs = refl

uninstalls : uninstall_app ethers installed app outcome ≡ ok uninstalled
unfolding evaluation
uninstalls = refl

deposits-Distinct : Distinct deposits
unfolding evaluation
deposits-Distinct = (refl, tt)

deposits-OwnersDistinct : OwnersDistinct deposits
unfolding evaluation
deposits-OwnersDistinct = ((refl, (refl, tt)), tt)

deposits-TokensChecksummed : TokensChecksummed ethers (keys deposits)
unfolding evaluation
deposits-TokensChecksummed = (refl, tt)

outcome-Distinct : Distinct outcome
unfolding evaluation
outcome-Distinct = (refl, tt)

outcome-TokensChecksummed : TokensChecksummed ethers (keys outcome)
unfolding evaluation
outcome-TokensChecksummed = (refl, tt)

install_app-effect_example :
    (fb' : FreeBalanceClass) × Holds ethers installed fb'
    × (every_same (get_signing_keys_for ethers channel 2) app.participants ≡ true)
    × (installed.app_instances ≡ set (identity_hash ethers app) app [])
    × (installed.proposed_app_instances ≡ proposals_without channel (identity_hash ethers app))
    × (fb'.active_apps_map ≡ set (identity_hash ethers app) true [])
    × ((t a : String) → balance fb' t a ≡ balance funds t a -ℤ amount_in deposits t a)
install_app-effect_example =
    install_app-effect ethers channel app deposits funds ethers-ReadsHex channel-Holds
      deposits-Distinct deposits-OwnersDistinct deposits-TokensChecksummed installs

-- The free balance while the app is installed.
abbrev locked : FreeBalanceClass
locked = value_or (get_free_balance_class ethers installed) funds

installed-Holds : Holds ethers installed locked
unfolding evaluation
installed-Holds = record {
  app = value_or (or_throw installed.free_balance_app_instance "") funds_app;
  stored = refl;
  reads = refl;
  well_formed = record {
    tokens_distinct = (refl, tt);
    checksummed = (refl, tt);
    apps_distinct = (refl, tt);
    all_true = (refl, tt);
  };
}

uninstall_app-effect_example :
    (fb' : FreeBalanceClass) × Holds ethers uninstalled fb'
    × (has (identity_hash ethers app) installed.app_instances ≡ true)
    × (uninstalled.app_instances ≡ delete (identity_hash ethers app) installed.app_instances)
    × (uninstalled.proposed_app_instances ≡ installed.proposed_app_instances)
    × (fb'.active_apps_map ≡ delete (identity_hash ethers app) locked.active_apps_map)
    × ((t a : String) → balance fb' t a ≡ balance locked t a +ℤ amount_in outcome t a)
uninstall_app-effect_example =
    uninstall_app-effect ethers installed app outcome locked ethers-ReadsHex installed-Holds
      outcome-Distinct outcome-TokensChecksummed uninstalls

uninstall_app-install_app_example :
    (fb2 : FreeBalanceClass) × Holds ethers uninstalled fb2
    × (uninstalled.app_instances ≡ [])
    × (fb2.active_apps_map ≡ [])
    × ((t a : String)
        → balance fb2 t a ≡ balance funds t a -ℤ amount_in deposits t a +ℤ amount_in outcome t a)
unfolding evaluation
uninstall_app-install_app_example =
    uninstall_app-install_app ethers channel app deposits outcome funds ethers-ReadsHex
      channel-Holds refl refl deposits-Distinct deposits-OwnersDistinct deposits-TokensChecksummed
      outcome-Distinct outcome-TokensChecksummed installs uninstalls
