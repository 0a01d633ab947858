-- ===== src/Tests/Order.antt =====
-- Two apps of one channel: installed in the order of their numbers, and in the other order; and a
-- state of one of them.
use indra.Prelude.{◌≡◌, refl, ok}
use indra.States.{opaque_state}
use indra.AppInstance.{AppInstance}
use indra.StateChannel.Channel.{StateChannel}
use indra.StateChannel.Updates.{install_app, set_app_state}
use indra.Tests.Evaluation.{evaluation}
use indra.StateChannel.Agree.{
  IsConsistent, installs, uninstalls, Steps, stay, then_step, Steps-IsConsistent,
}
use indra.StateChannel.Updates.{uninstall_app}
use indra.Tests.Funds.{channel-Holds}
use indra.Tests.Fixture.{ethers, ethers-ReadsHex, funds, outcome, deposits, app, channel, value_or}

abbrev later_app : AppInstance
later_app = record app { app_seq_no = 3 }

abbrev with_app : StateChannel
with_app = value_or (install_app ethers channel app deposits) channel

abbrev with_later : StateChannel
with_later = value_or (install_app ethers channel later_app deposits) channel

abbrev both : StateChannel
both = value_or (install_app ethers with_app later_app deposits) channel

abbrev both_reversed : StateChannel
both_reversed = value_or (install_app ethers with_later app deposits) channel

installs_later : install_app ethers with_app later_app deposits ≡ ok both
unfolding evaluation
installs_later = refl

installs_earlier : install_app ethers with_later app deposits ≡ ok both_reversed
unfolding evaluation
installs_earlier = refl

abbrev moved : StateChannel
moved = value_or (set_app_state ethers with_app app (opaque_state "next")) channel

moves : set_app_state ethers with_app app (opaque_state "next") ≡ ok moved
unfolding evaluation
moves = refl

channel-IsConsistent : IsConsistent ethers channel
unfolding evaluation
channel-IsConsistent = record {
  funds = funds;
  holds = channel-Holds;
  apps_distinct = tt;
  agree = λ h. refl;
}

-- Both apps are installed, and the later one ends.
abbrev after_later : StateChannel
after_later = value_or (uninstall_app ethers both later_app outcome) both

life : Steps ethers channel after_later
unfolding evaluation
life =
    then_step
      (then_step
        (then_step stay (installs app deposits (refl, tt) ((refl, (refl, tt)), tt) (refl, tt) refl))
        (installs later_app deposits (refl, tt) ((refl, (refl, tt)), tt) (refl, tt) refl))
      (uninstalls later_app outcome (refl, tt) (refl, tt) refl)

Steps-IsConsistent_example : IsConsistent ethers after_later
Steps-IsConsistent_example = Steps-IsConsistent ethers ethers-ReadsHex channel-IsConsistent life
