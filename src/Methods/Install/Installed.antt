-- ===== src/Methods/Install/Installed.antt =====
-- A request to install a proposed app, from the proposal in the store to the app in the store.
use indra.Prelude.{
  String, str_eq, false, none, some, [], ◌∷◌, ◌≡◌, refl, sym, ap, subst, ◌∙◌, ok, Result, is_some,
}
use indra.Dict.{lookup, delete, has, set}
use indra.Dict.Laws.{Distinct, lookup-set_self, lookup-delete_self}
use indra.Coins.{TokenIndexedCoinTransferMap}
use indra.AppInstance.{AppInstance, identity_hash}
use indra.StateChannel.Channel.{StateChannel, AppInstanceProposal, has_app_proposal}
use indra.StateChannel.Updates.{install_app}
use indra.StateChannel.Json.{to_json, proposal_to_json, map_values, map_values-delete}
use indra.Protocol.Install.{InstallParams}
use indra.Protocol.Install.Exchange.{
  Install, Installation, FreeBalanceUpdate, prepare_install, prepare_free_balance_update,
  check as check_signature, initiating,
}
use indra.Protocol.Install.Sufficient.{decrement_of}
use indra.Protocol.Install.Prepared.{IsNewest}
use indra.Store.Service.{Keeps, Leads}
use indra.Store.KeyValue.Promises.{delete-absent}
use indra.Store.Persist.{remove_app_proposal}
use indra.Store.Persist.Follows.{FindsProposal, with_instance, install_app-with_instance}
use indra.Store.Node.{World}
use indra.Store.Node.Installs.{expects, run_at_node, run_at_node-installs}
use indra.Methods.Params.{is_blank, install_params}
use indra.Methods.Request.{RequestHandler, run}
use indra.Methods.Initiate.{initiate_install}
use indra.Methods.Install.{install}
use indra.Methods.Install.Rejected.{
  HoldsProposal, without_proposal, found_channel, found_proposal, stored_channel, removed,
}

module _ {W : Type 0} (h : RequestHandler W) (b b2 : String) where
  -- The protocol that the request starts.
  abbrev pub started : InstallParams → StateChannel → Install
  started params pre = record {
    process_id = h.process_id;
    params = params;
    network = h.network;
    pre_channel = ok pre;
  }

  -- What the node is to be answered, on top of what it holds.
  abbrev pub answered : InstallParams → StateChannel → World W → World W
  answered params pre w =
      expects h.ethers h.signing h.coder h.svc h.sign (started params pre) b b2 w

  abbrev ran_at_node : InstallParams → StateChannel → World W → Result (Unit {0}) × World W
  ran_at_node params pre w =
      run_at_node h.ethers h.signing h.coder h.svc h.sign (started params pre) b b2 w

  initiate_install-run_at_node :
      (w : World W) (pre : StateChannel) (p : AppInstanceProposal) (params : InstallParams)
      → HoldsProposal h w.store pre p
      → initiate_install h pre.multisig_address params (answered params pre w)
        ≡ ran_at_node params pre w
  unfolding initiate_install
  initiate_install-run_at_node w pre p params holds =
      ap
        (λ found.
          run h
            (initiating h.ethers h.signing h.coder
              (record (started params pre) { pre_channel = found }))
            (answered params pre w))
        (stored_channel h w pre p holds)

  -- The second removal of the proposal changes nothing.
  removed_again :
      (w : W) (pre post : StateChannel) (p : AppInstanceProposal) (app fb : AppInstance)
      (decs : TokenIndexedCoinTransferMap) (before : World W)
      → HoldsProposal h before.store pre p
      → Keeps h.svc w (to_json h.ethers post)
      → install_app h.ethers pre app decs ≡ ok post
      → post.free_balance_app_instance ≡ some fb
      → identity_hash h.ethers app ≡ p.identity_hash
      → Leads h.svc
          (remove_app_proposal h.ethers h.svc w (without_proposal pre p.identity_hash) p)
          (to_json h.ethers post)
  unfolding remove_app_proposal has_app_proposal to_json
  removed_again w pre post p app fb decs before before_holds keeps installed here same =
      let shape = install_app-with_instance h.ethers h.svc pre post app fb decs installed here in
      let gone : has p.identity_hash (delete p.identity_hash pre.proposed_app_instances) ≡ false =
        ap is_some (
          lookup-delete_self p.identity_hash pre.proposed_app_instances
            before_holds.storable.proposals_distinct) in
      let (w', ran, keeps') =
        before_holds.promises.removes_proposal w
          (to_json h.ethers (with_instance h.ethers h.svc pre app fb)) p.identity_hash refl
          (subst (λ c. Keeps h.svc w (to_json h.ethers c)) shape keeps) in
      (
        w',
        rw gone ran,
        subst (λ c. Keeps h.svc w' (to_json h.ethers c)) (sym shape)
            (keeps'
              ∙ ap
                  (λ d. some (record (to_json h.ethers (with_instance h.ethers h.svc pre app fb)) {
                    proposed_app_instances = d;
                  }))
                  (sym (map_values-delete proposal_to_json p.identity_hash _)
                    ∙ ap (map_values proposal_to_json) (
                        subst
                          (λ id.
                            delete p.identity_hash (delete id pre.proposed_app_instances)
                            ≡ delete id pre.proposed_app_instances)
                          (sym same)
                          (delete-absent p.identity_hash
                            (delete p.identity_hash pre.proposed_app_instances) gone)))),
      )

  -- The request, when its protocol has run.
  install_lem :
      (w w' : World W) (store : W) (pre : StateChannel) (p : AppInstanceProposal)
      (params : InstallParams)
      → HoldsProposal h w.store pre p
      → is_blank p.identity_hash ≡ false
      → install_params h.ethers h.public_identifier pre p ≡ ok params
      → ran_at_node params pre w ≡ (ok tt, w')
      → remove_app_proposal h.ethers h.svc w'.store (without_proposal pre p.identity_hash) p
        ≡ ok store
      → install h p.identity_hash (answered params pre w) ≡ (ok p, record w' { store = store })
  unfolding install
  install_lem w w' store pre p params holds not_blank computed ran dropped =
      rw
        (
          not_blank,
          found_proposal h w pre p holds,
          found_channel h w pre p holds,
          computed,
          initiate_install-run_at_node w pre p params holds,
          ran,
          removed h w pre p holds,
          dropped,
        )
        refl

  -- The new channel has the app, and no more the proposal.
  installed_app :
      (pre post : StateChannel) (p : AppInstanceProposal) (app fb : AppInstance)
      (decs : TokenIndexedCoinTransferMap)
      → Distinct pre.proposed_app_instances
      → install_app h.ethers pre app decs ≡ ok post
      → post.free_balance_app_instance ≡ some fb
      → identity_hash h.ethers app ≡ p.identity_hash
      → (lookup p.identity_hash post.app_instances ≡ some app)
        × (lookup p.identity_hash post.proposed_app_instances ≡ none)
  installed_app pre post p app fb decs distinct installed here same =
      let shape = install_app-with_instance h.ethers h.svc pre post app fb decs installed here in
      subst
        (λ (c : StateChannel).
          (lookup p.identity_hash c.app_instances ≡ some app)
          × (lookup p.identity_hash c.proposed_app_instances ≡ none))
        (sym shape)
        (subst
          (λ id.
            (lookup id (set (identity_hash h.ethers app) app pre.app_instances) ≡ some app)
            × (lookup id (delete (identity_hash h.ethers app) pre.proposed_app_instances) ≡ none))
          same
          (
            lookup-set_self (identity_hash h.ethers app) app pre.app_instances,
            lookup-delete_self (identity_hash h.ethers app) pre.proposed_app_instances distinct,
          ))

  -- A node is asked to install an app that was proposed. It holds the proposal and the channel, its
  -- store keeps its promises, no app of the channel was proposed later than this one, and the
  -- responder answers with valid signatures. Then the request succeeds with the proposal, the store
  -- holds the channel that `installApp` has computed for the app and the deposits, which has the app
  -- and no more the proposal, and both commitments are kept with both signatures. The app of the
  -- installation has the hash of the proposal, and is not the free balance.
  pub install-installs :
      (w : World W) (pre : StateChannel) (p : AppInstanceProposal) (params : InstallParams)
      (ip : Installation) (f : FreeBalanceUpdate) (fb : AppInstance)
      → HoldsProposal h w.store pre p
      → is_blank p.identity_hash ≡ false
      → install_params h.ethers h.public_identifier pre p ≡ ok params
      → IsNewest (started params pre) pre
      → prepare_install h.ethers h.signing h.coder (started params pre) ≡ ok ip
      → prepare_free_balance_update h.ethers h.signing (started params pre) ip ≡ ok f
      → check_signature h.ethers h.signing h.coder
          (started params pre)
          params.responder_xpub
          ip.hash
          (some b)
        ≡ ok tt
      → check_signature h.ethers h.signing h.coder
          (started params pre)
          params.responder_xpub
          f.hash
          (some b2)
        ≡ ok tt
      → ip.post_channel.free_balance_app_instance ≡ some fb
      → str_eq (identity_hash h.ethers ip.app) (identity_hash h.ethers fb) ≡ false
      → FindsProposal h.ethers h.svc w.store pre ip.app fb
      → identity_hash h.ethers ip.app ≡ p.identity_hash
      → (install_app h.ethers pre ip.app (decrement_of h.ethers params) ≡ ok ip.post_channel)
        × ((install h p.identity_hash (answered params pre w)).0 ≡ ok p)
        × Keeps h.svc
            (install h p.identity_hash (answered params pre w)).1.store
            (to_json h.ethers ip.post_channel)
        × (lookup p.identity_hash ip.post_channel.app_instances ≡ some ip.app)
        × (lookup p.identity_hash ip.post_channel.proposed_app_instances ≡ none)
        × (lookup
              (identity_hash h.ethers ip.app)
              (install h p.identity_hash (answered params pre w)).1.conditional_commitments
            ≡ some (record (ip.commitment) { signatures = some (h.sign 0 ip.hash) ∷ some b ∷ [] }))
        × (lookup
              (identity_hash h.ethers f.fb)
              (install h p.identity_hash (answered params pre w)).1.set_state_commitments
            ≡ some (record (f.commitment) { signatures = some (h.sign 0 f.hash) ∷ some b2 ∷ [] }))
  install-installs w pre p params ip f fb holds not_blank computed newest prepared paid valid_b
        valid_b2 here other finds same =
      let (installed, ran, keeps, conditional, set_state) =
        run_at_node-installs h.ethers h.signing h.coder h.svc h.sign (started params pre) b b2 w pre
          ip f fb refl newest prepared paid valid_b valid_b2 holds.promises holds.keeps
          holds.storable.proposals_distinct here other finds in
      let w' = (ran_at_node params pre w).1 in
      let (store, dropped, keeps') =
        removed_again w'.store pre ip.post_channel p ip.app fb (decrement_of h.ethers params) w
          holds keeps installed here same in
      let run =
        install_lem w w' store pre p params holds not_blank computed (λ i. (ran i, w')) dropped in
      let (has_app, no_proposal) =
        installed_app pre ip.post_channel p ip.app fb (decrement_of h.ethers params)
          holds.storable.proposals_distinct installed here same in
      (
        installed,
        ap (λ r. r.0) run,
        subst
            (λ (r : Result AppInstanceProposal × World W).
              Keeps h.svc r.1.store (to_json h.ethers ip.post_channel))
            (sym run) keeps',
        has_app,
        no_proposal,
        ap
              (λ (r : Result AppInstanceProposal × World W).
                lookup (identity_hash h.ethers ip.app) r.1.conditional_commitments)
              run
            ∙ conditional,
        ap
              (λ (r : Result AppInstanceProposal × World W).
                lookup (identity_hash h.ethers f.fb) r.1.set_state_commitments)
              run
            ∙ set_state,
      )
