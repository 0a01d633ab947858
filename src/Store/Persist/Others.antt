-- ===== src/Store/Persist/Others.antt =====
-- The stored channel after an uninstallation and after a proposal.
use indra.Prelude.{◌+◌, str_eq, false, some, ◌≡◌, refl, sym, ap, subst, ◌∙◌, ok, arith}
use indra.Dict.{set, delete}
use indra.Dict.Laws.{Distinct, set-set, lookup-set_self, lookup-delete_self}
use indra.Ethers.{Ethers}
use indra.Coins.{TokenIndexedCoinTransferMap}
use indra.AppInstance
use indra.AppInstance.{AppInstance, identity_hash}
use indra.StateChannel.Channel.{
  StateChannel, build, free_balance, has_app_instance, has_app_proposal,
}
use indra.StateChannel.Updates.{uninstall_app}
use indra.StateChannel.Apps.{uninstall_app_inv, without_app as channel_without_app}
use indra.StateChannel.Json.{
  to_json, proposal_to_json, IsPlain, proposal_to_json-IsPlain, map_values, map_values-set,
  map_values-delete,
}
use indra.Machine.{uninstall}
use indra.Store.Service.{StoreService, Keeps, Leads, Promises}
use indra.Store.Persist.{save_free_balance, remove_app_instance, persist_app, persist_app_instance}
use indra.Store.Persist.Balance.{remove_active-freed}
use indra.StateChannel.Channel.{AppInstanceProposal, construct}
use indra.StateChannel.Updates.{add_proposal}
use indra.Machine.{proposal}
use indra.Store.Persist.{save_app_proposal}

module _ {W : Type 0} (e : Ethers) (svc : StoreService W) where
  -- The channel after an app has been taken out of it.
  abbrev without_instance : StateChannel → AppInstance → AppInstance → StateChannel
  without_instance pre app fb = record pre {
    app_instances = delete (identity_hash e app) pre.app_instances;
    free_balance_app_instance = some fb;
  }

  persist_uninstall_lem :
      (w w1 w2 : W) (pre : StateChannel) (app fb : AppInstance)
      → svc.save_free_balance w pre.multisig_address (AppInstance.to_json e fb) ≡ ok w1
      → svc.remove_app_instance w1 pre.multisig_address (identity_hash e app) ≡ ok w2
      → Distinct pre.app_instances
      → persist_app_instance e svc w (without_instance pre app fb) (uninstall app) ≡ ok w2
  unfolding persist_app_instance save_free_balance persist_app remove_app_instance free_balance
      has_app_instance
  persist_uninstall_lem w w1 w2 pre app fb saved removed distinct =
      rw (saved, lookup-delete_self (identity_hash e app) pre.app_instances distinct, removed) refl

  persist_uninstall-Leads :
      (w : W) (pre : StateChannel) (app fb : AppInstance)
      → Promises svc pre.multisig_address
      → Keeps svc w (to_json e pre)
      → Distinct pre.app_instances
      → Leads svc
          (persist_app_instance e svc w (without_instance pre app fb) (uninstall app))
          (to_json e (without_instance pre app fb))
  unfolding to_json
  persist_uninstall-Leads w pre app fb promises keeps distinct =
      let (w1, saved, keeps1) =
        promises.saves_free_balance w (to_json e pre) (AppInstance.to_json e fb) refl keeps in
      let (w2, removed, keeps2) = promises.removes_app w1 _ (identity_hash e app) refl keeps1 in
      (
        w2,
        persist_uninstall_lem w w1 w2 pre app fb saved removed distinct,
        keeps2
            ∙ ap
                (λ d. some (record (to_json e (without_instance pre app fb)) { app_instances = d }))
                (sym (
                  map_values-delete (AppInstance.to_json e) (identity_hash e app)
                    pre.app_instances)),
      )

  -- A store that keeps its promises and holds the channel before an uninstallation holds, after the
  -- end of the app has been persisted, exactly the channel that `uninstallApp` has computed. No app
  -- stands twice in the channel.
  pub persist-uninstall_app :
      (w : W) (pre post : StateChannel) (app : AppInstance) (incs : TokenIndexedCoinTransferMap)
      → Promises svc pre.multisig_address
      → Keeps svc w (to_json e pre)
      → Distinct pre.app_instances
      → uninstall_app e pre app incs ≡ ok post
      → Leads svc (persist_app_instance e svc w post (uninstall app)) (to_json e post)
  persist-uninstall_app w pre post app incs promises keeps distinct run =
      let (_, removed) = uninstall_app_inv e pre app incs run in
      let (fb, same) =
        remove_active-freed e (channel_without_app e pre app) (identity_hash e app) incs removed in
      subst
        (λ (c : StateChannel).
          Leads svc (persist_app_instance e svc w c (uninstall app)) (to_json e c))
        (sym same) (persist_uninstall-Leads w pre app fb promises keeps distinct)

  -- The channel after a proposal has been added to it.
  abbrev with_added : StateChannel → AppInstanceProposal → AppInstance → StateChannel
  with_added pre p fb = record pre {
    proposed_app_instances = set p.identity_hash p pre.proposed_app_instances;
    monotonic_num_proposed_apps = pre.monotonic_num_proposed_apps + 1;
    free_balance_app_instance = some fb;
  }

  add_proposal-with_added :
      (pre post : StateChannel) (p : AppInstanceProposal) (fb : AppInstance)
      → add_proposal pre p ≡ ok post
      → pre.free_balance_app_instance ≡ some fb
      → post ≡ with_added pre p fb
  unfolding add_proposal build construct
  add_proposal-with_added pre post p fb run here = ground arith

  persist_proposal_lem :
      (w w1 w2 : W) (pre : StateChannel) (p : AppInstanceProposal) (fb : AppInstance)
      → svc.save_free_balance w pre.multisig_address (AppInstance.to_json e fb) ≡ ok w1
      → svc.save_app_proposal
          (svc.save_state_channel w1 (to_json e (with_added pre p fb)))
          pre.multisig_address
          p
        ≡ ok w2
      → str_eq p.identity_hash (identity_hash e fb) ≡ false
      → persist_app_instance e svc w (with_added pre p fb) (proposal p) ≡ ok w2
  unfolding persist_app_instance save_free_balance persist_app save_app_proposal free_balance
      has_app_proposal
  persist_proposal_lem w w1 w2 pre p fb saved stored other =
      rw (saved, other, lookup-set_self p.identity_hash p pre.proposed_app_instances, stored) refl

  -- A store that keeps its promises and holds the channel before a proposal holds, after the proposal
  -- has been persisted, exactly the channel that `addProposal` has computed. The proposed app is not
  -- the free balance of the channel, and its state holds no instance of BigNumber.
  pub persist-add_proposal :
      (w : W) (pre post : StateChannel) (p : AppInstanceProposal) (fb : AppInstance)
      → Promises svc pre.multisig_address
      → Keeps svc w (to_json e pre)
      → add_proposal pre p ≡ ok post
      → pre.free_balance_app_instance ≡ some fb
      → str_eq p.identity_hash (identity_hash e fb) ≡ false
      → IsPlain p
      → Leads svc (persist_app_instance e svc w post (proposal p)) (to_json e post)
  unfolding to_json
  persist-add_proposal w pre post p fb promises keeps run here other plain =
      let added : map_values proposal_to_json (set p.identity_hash p pre.proposed_app_instances)
          ≡ set p.identity_hash p (map_values proposal_to_json pre.proposed_app_instances) =
        map_values-set proposal_to_json p.identity_hash p pre.proposed_app_instances
        ∙ ap (λ q. set p.identity_hash q (map_values proposal_to_json pre.proposed_app_instances))
            (proposal_to_json-IsPlain p plain) in
      let (w1, saved, _) =
        promises.saves_free_balance w (to_json e pre) (AppInstance.to_json e fb) refl keeps in
      let (w2, stored, keeps2) =
        promises.saves_proposal (svc.save_state_channel w1 (to_json e (with_added pre p fb)))
          (to_json e (with_added pre p fb)) p refl
          (promises.saves_channel w1 (to_json e (with_added pre p fb)) refl) in
      subst
        (λ (c : StateChannel).
          Leads svc (persist_app_instance e svc w c (proposal p)) (to_json e c))
        (sym (add_proposal-with_added pre post p fb run here))
        (
          w2,
          persist_proposal_lem w w1 w2 pre p fb saved stored other,
          keeps2
              ∙ ap
                  (λ d.
                    some (record (to_json e (with_added pre p fb)) { proposed_app_instances = d }))
                  (ap (set p.identity_hash p) added
                    ∙ set-set p.identity_hash p
                        (map_values proposal_to_json pre.proposed_app_instances)
                    ∙ sym added),
        )
