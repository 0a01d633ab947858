-- ===== src/StateChannel/Apps.antt =====
-- What `installApp` and `uninstallApp` do to a channel: its apps, its proposals and its balances.
use indra.Prelude.{
  String, ◌≡◌, sym, ◌∙◌, ap, true, none, ok, arith, subst, ◌+ℤ◌, ◌-ℤ◌, int_laws, if◌then◌else◌,
  Bool-cases, inl, inr, Option, some, or_else, Result,
}
use indra.Dict.{Dict, lookup, has, set, delete, keys}
use indra.Dict.Laws.{Distinct, delete-set}
use indra.Coins.{TokenIndexedCoinTransferMap, flip_token_indexed_balances}
use indra.Ethers.{Ethers, ReadsHex}
use indra.AppInstance.{AppInstance, identity_hash}
use indra.FreeBalance.{FreeBalanceClass, add_active_app, remove_active_app}
use indra.FreeBalance.Increment.{balance, amount_in, balance-increment}
use indra.FreeBalance.Flip.{
  OwnersDistinct, amount_in-flip, flip_token_indexed_balances-Distinct, keys-flip,
}
use indra.FreeBalance.WellFormed.{TokensChecksummed}
use indra.StateChannel.Channel.{all_xpubs, AppInstanceProposal, StateChannel, get_signing_keys_for}
use indra.StateChannel.Updates.{
  every_same, without_proposal, install_app, uninstall_app,
  add_active_app_and_increment_free_balance, remove_active_app_and_increment_free_balance,
}
use indra.StateChannel.Funds.{
  Holds, add_active_app_and_increment-Holds, remove_active_app_and_increment-Holds,
}

-- The proposals without that of an installed app.
abbrev pub proposals_without : StateChannel → String → Dict AppInstanceProposal
proposals_without ch hash =
    if has hash ch.proposed_app_instances
    then delete hash ch.proposed_app_instances
    else ch.proposed_app_instances

-- A channel with the app among its apps, and before the free balance is written.
abbrev pub with_app : Ethers → StateChannel → AppInstance → StateChannel
with_app e ch app = record ch {
  app_instances = set (identity_hash e app) app ch.app_instances;
  proposed_app_instances = proposals_without ch (identity_hash e app);
}

pub install_app_inv :
    (e : Ethers) (ch : StateChannel) (app : AppInstance) (decs : TokenIndexedCoinTransferMap)
    {ch' : StateChannel}
    → install_app e ch app decs ≡ ok ch'
    → (every_same (get_signing_keys_for e ch app.app_seq_no) app.participants ≡ true)
      × (add_active_app_and_increment_free_balance e
            (with_app e ch app)
            (identity_hash e app)
            (flip_token_indexed_balances decs)
          ≡ ok ch')
unfolding install_app
install_app_inv e ch app decs h = ground arith

pub without_proposal_lem :
    (ch : StateChannel) (hash : String)
    → all_xpubs ch.user_neutered_extended_keys ≡ true
    → (p : Option (Dict AppInstanceProposal)) × (without_proposal ch hash ≡ ok p)
      × (or_else p ch.proposed_app_instances ≡ proposals_without ch hash)
unfolding without_proposal
without_proposal_lem ch hash valid = elim (Bool-cases (has hash ch.proposed_app_instances)) [
  | inl there ↦ (some (delete hash ch.proposed_app_instances), rw (there, valid), rw there)
  | inr missing ↦ (none, rw missing, rw missing)
]

-- On valid keys and matching participants `installApp` comes to the update of the free balance.
pub install_app_lem :
    (e : Ethers) (ch : StateChannel) (app : AppInstance) (decs : TokenIndexedCoinTransferMap)
    {r : Result StateChannel}
    → every_same (get_signing_keys_for e ch app.app_seq_no) app.participants ≡ true
    → all_xpubs ch.user_neutered_extended_keys ≡ true
    → add_active_app_and_increment_free_balance e
        (with_app e ch app)
        (identity_hash e app)
        (flip_token_indexed_balances decs)
      ≡ r
    → install_app e ch app decs ≡ r
unfolding install_app
install_app_lem e ch app decs {r} matched valid added =
    let (p, found, same) = without_proposal_lem ch (identity_hash e app) valid in
    rw (matched, found, valid)
      (subst
        (λ proposals.
          add_active_app_and_increment_free_balance e
            (record ch {
              app_instances = set (identity_hash e app) app ch.app_instances;
              proposed_app_instances = proposals;
            })
            (identity_hash e app) (flip_token_indexed_balances decs)
          ≡ r)
        (sym same) added)

abbrev pub with_app-Holds :
    (e : Ethers) (ch : StateChannel) (app : AppInstance) (fb : FreeBalanceClass)
    → Holds e ch fb
    → Holds e (with_app e ch app) fb
with_app-Holds e ch app fb h = record {
  app = h.app;
  stored = h.stored;
  reads = h.reads;
  well_formed = h.well_formed;
}

-- `installApp`, when it does not throw, on a channel whose free balance is `fb`: the app's
-- participants are the channel's keys for its number; the app is among the apps under its identity
-- hash and active in the free balance; its proposal is gone; and every owner has in each token the
-- decrement less than before. The decrements name no token and no owner twice, and their tokens are
-- checksummed addresses.
pub install_app-effect :
    (e : Ethers) (ch : StateChannel) (app : AppInstance) (decs : TokenIndexedCoinTransferMap)
    (fb : FreeBalanceClass) {ch' : StateChannel}
    → ReadsHex e
    → Holds e ch fb
    → Distinct decs
    → OwnersDistinct decs
    → TokensChecksummed e (keys decs)
    → install_app e ch app decs ≡ ok ch'
    → (fb' : FreeBalanceClass) × Holds e ch' fb'
      × (every_same (get_signing_keys_for e ch app.app_seq_no) app.participants ≡ true)
      × (ch'.app_instances ≡ set (identity_hash e app) app ch.app_instances)
      × (ch'.proposed_app_instances ≡ proposals_without ch (identity_hash e app))
      × (fb'.active_apps_map ≡ set (identity_hash e app) true fb.active_apps_map)
      × ((t a : String) → balance fb' t a ≡ balance fb t a -ℤ amount_in decs t a)
unfolding add_active_app
install_app-effect e ch app decs fb {ch'} r h d o k run =
    let (matched, added) = install_app_inv e ch app decs run in
    let (fb', paid, holds, same) =
      add_active_app_and_increment-Holds e (with_app e ch app) (identity_hash e app)
        (flip_token_indexed_balances decs) fb r (with_app-Holds e ch app fb h)
        (subst (TokensChecksummed e) (sym (keys-flip decs d)) k) added in
    let (paid_out, apps) =
      balance-increment (flip_token_indexed_balances decs) fb
        (flip_token_indexed_balances-Distinct decs d) paid in
    (
      add_active_app (identity_hash e app) fb',
      holds,
      matched,
      ap (λ (c : StateChannel). c.app_instances) same,
      ap (λ (c : StateChannel). c.proposed_app_instances) same,
      ap (set (identity_hash e app) true) apps,
      λ t a. paid_out t a ∙ rw (amount_in-flip decs t a d o) (omega int_laws),
    )

-- A channel without the app, before the free balance is written.
abbrev pub without_app : Ethers → StateChannel → AppInstance → StateChannel
without_app e ch app = record ch { app_instances = delete (identity_hash e app) ch.app_instances }

pub uninstall_app_inv :
    (e : Ethers) (ch : StateChannel) (app : AppInstance) (incs : TokenIndexedCoinTransferMap)
    {ch' : StateChannel}
    → uninstall_app e ch app incs ≡ ok ch'
    → (has (identity_hash e app) ch.app_instances ≡ true)
      × (remove_active_app_and_increment_free_balance e
            (without_app e ch app)
            (identity_hash e app)
            incs
          ≡ ok ch')
unfolding uninstall_app
uninstall_app_inv e ch app incs h = ground arith

-- `uninstallApp`, when it does not throw, on a channel whose free balance is `fb`: the app was
-- installed, and is gone from the apps and from the active apps of the free balance; the proposals
-- stay; and every owner has in each token the increment more than before. The increments name no
-- token twice, and their tokens are checksummed addresses.
pub uninstall_app-effect :
    (e : Ethers) (ch : StateChannel) (app : AppInstance) (incs : TokenIndexedCoinTransferMap)
    (fb : FreeBalanceClass) {ch' : StateChannel}
    → ReadsHex e
    → Holds e ch fb
    → Distinct incs
    → TokensChecksummed e (keys incs)
    → uninstall_app e ch app incs ≡ ok ch'
    → (fb' : FreeBalanceClass) × Holds e ch' fb'
      × (has (identity_hash e app) ch.app_instances ≡ true)
      × (ch'.app_instances ≡ delete (identity_hash e app) ch.app_instances)
      × (ch'.proposed_app_instances ≡ ch.proposed_app_instances)
      × (fb'.active_apps_map ≡ delete (identity_hash e app) fb.active_apps_map)
      × ((t a : String) → balance fb' t a ≡ balance fb t a +ℤ amount_in incs t a)
unfolding remove_active_app
uninstall_app-effect e ch app incs fb {ch'} r h d k run =
    let (there, removed) = uninstall_app_inv e ch app incs run in
    let (fb', paid, holds, same) =
      remove_active_app_and_increment-Holds e (without_app e ch app) (identity_hash e app) incs fb r
        (kept h) k removed in
    let (paid_in, apps) =
      balance-increment incs (remove_active_app (identity_hash e app) fb) d paid in
    (
      fb',
      holds,
      there,
      ap (λ (c : StateChannel). c.app_instances) same,
      ap (λ (c : StateChannel). c.proposed_app_instances) same,
      apps,
      paid_in,
    )
  where
    kept : Holds e ch fb → Holds e (without_app e ch app) fb
    kept h = record { app = h.app; stored = h.stored; reads = h.reads; well_formed = h.well_formed }

-- Installing an app that is new to the channel and uninstalling it again: the apps and the active
-- apps are those from before, and the balances have moved by the outcome less the deposits.
pub uninstall_app-install_app :
    (e : Ethers) (ch : StateChannel) (app : AppInstance) (decs incs : TokenIndexedCoinTransferMap)
    (fb : FreeBalanceClass) {ch1 ch2 : StateChannel}
    → ReadsHex e
    → Holds e ch fb
    → lookup (identity_hash e app) ch.app_instances ≡ none
    → lookup (identity_hash e app) fb.active_apps_map ≡ none
    → Distinct decs
    → OwnersDistinct decs
    → TokensChecksummed e (keys decs)
    → Distinct incs
    → TokensChecksummed e (keys incs)
    → install_app e ch app decs ≡ ok ch1
    → uninstall_app e ch1 app incs ≡ ok ch2
    → (fb2 : FreeBalanceClass) × Holds e ch2 fb2
      × (ch2.app_instances ≡ ch.app_instances)
      × (fb2.active_apps_map ≡ fb.active_apps_map)
      × ((t a : String)
          → balance fb2 t a ≡ balance fb t a -ℤ amount_in decs t a +ℤ amount_in incs t a)
uninstall_app-install_app e ch app decs incs fb r h new_app new_active d o k d' k' first second =
    let (fb1, h1, _, apps1, _, active1, paid1) =
      install_app-effect e ch app decs fb r h d o k first in
    let (fb2, h2, _, apps2, _, active2, paid2) =
      uninstall_app-effect e _ app incs fb1 r h1 d' k' second in
    (
      fb2,
      h2,
      apps2 ∙ ap (delete (identity_hash e app)) apps1 ∙ delete-set _ app ch.app_instances new_app,
      active2
          ∙ ap (delete (identity_hash e app)) active1
          ∙ delete-set _ true fb.active_apps_map new_active,
      λ t a. paid2 t a ∙ ap (λ v. v +ℤ amount_in incs t a) (paid1 t a),
    )
