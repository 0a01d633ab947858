-- ===== src/Store/Persist/Follows.antt =====
-- The store follows the channel: when a protocol persists an app, the stored channel becomes the one
-- that the protocol has computed.
use indra.Prelude.{
  String, str_eq, false, some, ◌≡◌, refl, sym, ap, subst, ◌∙◌, ok, Option-cases, inl, inr,
}
use indra.Dict.{lookup, set, delete}
use indra.Dict.Laws.{Distinct, lookup-set_self, lookup-delete_self}
use indra.Ethers.{Ethers}
use indra.Coins.{TokenIndexedCoinTransferMap, flip_token_indexed_balances}
use indra.AppInstance
use indra.AppInstance.{AppInstance, identity_hash}
use indra.StateChannel.Channel.{StateChannel, free_balance, has_app_instance, has_app_proposal}
use indra.StateChannel.Updates.{install_app}
use indra.StateChannel.Apps.{install_app_inv, with_app as channel_with_app}
use indra.StateChannel.Json.{
  StateChannelJson, to_json, proposal_to_json, map_values, map_values-set, map_values-delete,
}
use indra.Machine.{app_instance}
use indra.Store.Service.{
  StoreService, Keeps, Leads, Promises, with_free_balance, without_proposal, with_app,
}
use indra.Store.KeyValue.Promises.{delete-absent}
use indra.Store.Persist.{
  save_free_balance, remove_installed_proposal, save_app_instance, persist_app,
  persist_app_instance,
}
use indra.Store.Persist.Balance.{add_active-freed, proposals_without-delete}

module _ {W : Type 0} (e : Ethers) (svc : StoreService W) where
  remove_installed_proposal-Leads :
      (m : String) (w : W) (j : StateChannelJson) (hash : String)
      → Promises svc m
      → j.multisig_address ≡ m
      → Keeps svc w j
      → svc.get_app_proposal w hash ≡ ok (lookup hash j.proposed_app_instances)
      → Leads svc (remove_installed_proposal e svc w m hash) (without_proposal hash j)
  unfolding remove_installed_proposal
  remove_installed_proposal-Leads m w j hash promises here keeps found =
      elim (Option-cases (lookup hash j.proposed_app_instances)) [
        | inl absent ↦ (
          w,
          rw (found, absent) refl,
          keeps
              ∙ ap (λ d. some (record j { proposed_app_instances = d }))
                  (sym (delete-absent hash j.proposed_app_instances (rw absent refl))),
        )
        | inr (p, there) ↦
            let (w', ran, keeps') = promises.removes_proposal w j hash here keeps in
            (w', rw (found, there) ran, keeps')
      ]

  -- The channel after an app has been saved in it, and its free balance with it.
  abbrev pub with_instance : StateChannel → AppInstance → AppInstance → StateChannel
  with_instance pre app fb = record pre {
    app_instances = set (identity_hash e app) app pre.app_instances;
    proposed_app_instances = delete (identity_hash e app) pre.proposed_app_instances;
    free_balance_app_instance = some fb;
  }

  -- The store finds the proposal of an app, or that there is none, once the free balance is saved.
  abbrev pub FindsProposal : W → StateChannel → AppInstance → AppInstance → Type 0
  FindsProposal w pre app fb =
      (w1 : W)
      → svc.save_free_balance w pre.multisig_address (AppInstance.to_json e fb) ≡ ok w1
      → svc.get_app_proposal w1 (identity_hash e app)
        ≡ ok (lookup (identity_hash e app) (to_json e pre).proposed_app_instances)

  persist_instance_lem :
      (w w1 w2 w3 : W) (pre : StateChannel) (app fb : AppInstance)
      → svc.save_free_balance w pre.multisig_address (AppInstance.to_json e fb) ≡ ok w1
      → remove_installed_proposal e svc w1 pre.multisig_address (identity_hash e app) ≡ ok w2
      → svc.save_app_instance w2 pre.multisig_address (AppInstance.to_json e app) ≡ ok w3
      → str_eq (identity_hash e app) (identity_hash e fb) ≡ false
      → Distinct pre.proposed_app_instances
      → persist_app_instance e svc w (with_instance pre app fb) (app_instance app) ≡ ok w3
  unfolding persist_app_instance save_free_balance persist_app save_app_instance free_balance
      has_app_proposal has_app_instance
  persist_instance_lem w w1 w2 w3 pre app fb saved removed stored other distinct =
      rw
        (
          saved,
          other,
          lookup-delete_self (identity_hash e app) pre.proposed_app_instances distinct,
          lookup-set_self (identity_hash e app) app pre.app_instances,
          removed,
          stored,
        )
        refl

  kept_instance :
      (w : W) (pre : StateChannel) (app fb : AppInstance)
      → Keeps svc w (
          with_app (AppInstance.to_json e app) (
            without_proposal
              (identity_hash e app)
              (with_free_balance (AppInstance.to_json e fb) (to_json e pre))))
      → Keeps svc w (to_json e (with_instance pre app fb))
  unfolding to_json AppInstance.to_json
  kept_instance w pre app fb keeps =
      keeps
      ∙ ap
          (λ d. some (record (to_json e (with_instance pre app fb)) {
            app_instances = d;
            proposed_app_instances =
                delete (identity_hash e app)
                  (map_values proposal_to_json pre.proposed_app_instances);
          }))
          (sym (map_values-set (AppInstance.to_json e) (identity_hash e app) app pre.app_instances))
      ∙ ap
          (λ d. some (record (to_json e (with_instance pre app fb)) { proposed_app_instances = d }))
          (sym
            (map_values-delete proposal_to_json (identity_hash e app) pre.proposed_app_instances))

  persist_instance-Leads :
      (w : W) (pre : StateChannel) (app fb : AppInstance)
      → Promises svc pre.multisig_address
      → Keeps svc w (to_json e pre)
      → Distinct pre.proposed_app_instances
      → str_eq (identity_hash e app) (identity_hash e fb) ≡ false
      → FindsProposal w pre app fb
      → Leads svc
          (persist_app_instance e svc w (with_instance pre app fb) (app_instance app))
          (to_json e (with_instance pre app fb))
  unfolding to_json
  persist_instance-Leads w pre app fb promises keeps distinct other finds =
      let (w1, saved, keeps1) =
        promises.saves_free_balance w (to_json e pre) (AppInstance.to_json e fb) refl keeps in
      let (w2, removed, keeps2) =
        remove_installed_proposal-Leads pre.multisig_address w1
          (with_free_balance (AppInstance.to_json e fb) (to_json e pre)) (identity_hash e app)
          promises refl keeps1 (finds w1 saved) in
      let (w3, stored, keeps3) = promises.saves_app w2 _ (AppInstance.to_json e app) refl keeps2 in
      (
        w3,
        persist_instance_lem w w1 w2 w3 pre app fb saved removed stored other distinct,
        kept_instance w3 pre app fb keeps3,
      )

  -- The channel that `installApp` computes.
  pub install_app-with_instance :
      (pre post : StateChannel) (app fb : AppInstance) (decs : TokenIndexedCoinTransferMap)
      → install_app e pre app decs ≡ ok post
      → post.free_balance_app_instance ≡ some fb
      → post ≡ with_instance pre app fb
  install_app-with_instance pre post app fb decs run here =
      let (_, added) = install_app_inv e pre app decs run in
      let (fb', same) =
        add_active-freed e (channel_with_app e pre app) (identity_hash e app)
          (flip_token_indexed_balances decs) added in
      let same_fb : some fb' ≡ some fb =
        sym (ap (λ (c : StateChannel). c.free_balance_app_instance) same) ∙ here in
      same
      ∙ ap (λ o. record (channel_with_app e pre app) { free_balance_app_instance = o }) same_fb
      ∙ ap (λ d. record (with_instance pre app fb) { proposed_app_instances = d })
          (proposals_without-delete pre (identity_hash e app))

  -- A store that keeps its promises and holds the channel before an installation holds, after the app
  -- has been persisted, exactly the channel that `installApp` has computed. The proposals have no key
  -- twice, the app is not the free balance, and the store finds the app's proposal by its hash.
  pub persist-install_app :
      (w : W) (pre post : StateChannel) (app fb : AppInstance) (decs : TokenIndexedCoinTransferMap)
      → Promises svc pre.multisig_address
      → Keeps svc w (to_json e pre)
      → Distinct pre.proposed_app_instances
      → install_app e pre app decs ≡ ok post
      → post.free_balance_app_instance ≡ some fb
      → str_eq (identity_hash e app) (identity_hash e fb) ≡ false
      → FindsProposal w pre app fb
      → Leads svc (persist_app_instance e svc w post (app_instance app)) (to_json e post)
  persist-install_app w pre post app fb decs promises keeps distinct run here other finds =
      subst
        (λ (c : StateChannel).
          Leads svc (persist_app_instance e svc w c (app_instance app)) (to_json e c))
        (sym (install_app-with_instance pre post app fb decs run here))
        (persist_instance-Leads w pre app fb promises keeps distinct other finds)
