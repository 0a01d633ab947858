-- ===== src/Methods/Install/Rejected.antt =====
-- A rejected proposal is gone on both sides.
use indra.Prelude.{
  String, str_eq, some, ◌≡◌, ◌∙◌, refl, sym, ap, subst, ok, Result, if◌then◌else◌, eq_iff, arith,
}
use indra.Dict.{delete}
use indra.Dict.Laws.{lookup-delete_self}
use indra.StateChannel.Channel.{
  StateChannel, AppInstanceProposal, build, construct, has_app_proposal,
}
use indra.StateChannel.Json.{
  to_json, proposal_to_json, map_values-delete, from_json-IsPlain, IsStorableChannel, IsPlain,
  AllValues,
}
use indra.StateChannel.Updates.{remove_proposal}
use indra.Store.Service.{Keeps, Promises, Leads}
use indra.Store.Persist.{get_state_channel, remove_app_proposal}
use indra.Store.Lookup.{get_state_channel_from_app_instance_id, get_app_instance_proposal}
use indra.Store.Node.{World}
use indra.Methods.Request.{RequestHandler}
use indra.Methods.Install.{
  RejectProposalMessage, drop_proposal, reject_install, handle_reject_proposal_message,
}

-- The channel without a proposal.
abbrev pub without_proposal : StateChannel → String → StateChannel
without_proposal ch id = record ch { proposed_app_instances = delete id ch.proposed_app_instances }

module _ {W : Type 0} (h : RequestHandler W) where
  -- The store holds a channel with a proposal, and finds both by the proposal's hash. The states of its
  -- proposals hold no instances of BigNumber.
  pub record HoldsProposal (w : W) (ch : StateChannel) (p : AppInstanceProposal) : Type 0 where
    pub storable : IsStorableChannel ch
    pub plain : AllValues IsPlain ch.proposed_app_instances
    pub promises : Promises h.svc ch.multisig_address
    pub keeps : Keeps h.svc w (to_json h.ethers ch)
    pub finds_channel :
        h.search.get_state_channel_by_app_instance_id w p.identity_hash
        ≡ ok (some (to_json h.ethers ch))
    pub finds_proposal : h.svc.get_app_proposal w p.identity_hash ≡ ok (some p)

  module _ (w : World W) (ch : StateChannel) (p : AppInstanceProposal)
      (holds : HoldsProposal w.store ch p) where
    pub found_channel :
        get_state_channel_from_app_instance_id h.ethers h.svc h.search w.store p.identity_hash
        ≡ ok ch
    unfolding get_state_channel_from_app_instance_id
    found_channel =
        rw holds.finds_channel (from_json-IsPlain h.ethers ch holds.storable holds.plain)

    pub found_proposal :
        get_app_instance_proposal h.ethers h.svc h.search w.store p.identity_hash ≡ ok p
    unfolding get_app_instance_proposal
    found_proposal = rw holds.finds_proposal refl

    pub stored_channel : get_state_channel h.ethers h.svc w.store ch.multisig_address ≡ ok ch
    unfolding get_state_channel to_json
    stored_channel = rw holds.keeps (from_json-IsPlain h.ethers ch holds.storable holds.plain)

    pub removed : remove_proposal ch p.identity_hash ≡ ok (without_proposal ch p.identity_hash)
    unfolding remove_proposal build construct
    removed = rw holds.storable.valid_keys refl

    pub removal-Leads :
        Leads h.svc
          (remove_app_proposal h.ethers h.svc w.store (without_proposal ch p.identity_hash) p)
          (to_json h.ethers (without_proposal ch p.identity_hash))
    unfolding remove_app_proposal has_app_proposal to_json
    removal-Leads =
        let (w', ran, keeps) =
          holds.promises.removes_proposal w.store (to_json h.ethers ch) p.identity_hash refl
            holds.keeps in
        (
          w',
          rw
              (lookup-delete_self p.identity_hash ch.proposed_app_instances
                holds.storable.proposals_distinct)
              ran,
          keeps
              ∙ ap
                  (λ d. some (record (to_json h.ethers (without_proposal ch p.identity_hash)) {
                    proposed_app_instances = d;
                  }))
                  (sym
                    (map_values-delete proposal_to_json p.identity_hash ch.proposed_app_instances)),
        )

    abbrev pub saved : World W
    saved = record w { store = removal-Leads.0 }

    handle_reject_lem :
        (to from : String)
        → handle_reject_proposal_message h
            (record { to = to; from = from; app_instance_id = p.identity_hash })
            w
          ≡ (ok tt, saved)
    unfolding handle_reject_proposal_message
    handle_reject_lem to from = rw (found_channel, found_proposal, removed, removal-Leads.1) refl

    abbrev pub counterparty : String
    counterparty =
        if str_eq h.public_identifier p.proposed_by_identifier
        then p.proposed_to_identifier
        else p.proposed_by_identifier

    reject_install_lem : reject_install h p.identity_hash w ≡ (
      ok (record {
        to = counterparty;
        from = h.public_identifier;
        app_instance_id = p.identity_hash;
      }),
      saved,
    )
    unfolding reject_install drop_proposal
    reject_install_lem = rw (found_proposal, found_channel, removed, removal-Leads.1) refl

-- The receiver of a proposal rejects it, and the proposer handles the message: both succeed, the
-- message goes to the proposer, and each store holds its channel without the proposal, and else as it
-- was. Each side holds its own view of the proposal, under the same hash, and its store keeps its
-- promises.
pub rejected_on_both_sides :
    {W V : Type 0} (h : RequestHandler W) (g : RequestHandler V) (w : World W) (v : World V)
    (ch ch' : StateChannel) (p q : AppInstanceProposal)
    → HoldsProposal h w.store ch p
    → HoldsProposal g v.store ch' q
    → q.identity_hash ≡ p.identity_hash
    → p.proposed_to_identifier ≡ h.public_identifier
    → p.proposed_by_identifier ≡ g.public_identifier
    → (message : RejectProposalMessage) × ((reject_install h p.identity_hash w).0 ≡ ok message)
      × (message.to ≡ g.public_identifier)
      × Keeps h.svc
          (reject_install h p.identity_hash w).1.store
          (to_json h.ethers (without_proposal ch p.identity_hash))
      × ((handle_reject_proposal_message g message v).0 ≡ ok tt)
      × Keeps g.svc
          (handle_reject_proposal_message g message v).1.store
          (to_json g.ethers (without_proposal ch' p.identity_hash))
rejected_on_both_sides {W} {V} h g w v ch ch' p q holds holds' same receiver proposer =
    let run = reject_install_lem h w ch p holds in
    let handled =
      handle_reject_lem g v ch' q holds' (counterparty h w ch p holds) h.public_identifier in
    let handled' =
      subst
        (λ id.
          handle_reject_proposal_message g
            (record {
              to = counterparty h w ch p holds;
              from = h.public_identifier;
              app_instance_id = id;
            })
            v
          ≡ (ok tt, saved g v ch' q holds'))
        same handled in
    (
      record {
        to = counterparty h w ch p holds;
        from = h.public_identifier;
        app_instance_id = p.identity_hash;
      },
      ap (λ r. r.0) run,
      to_proposer,
      subst
          (λ (r : Result RejectProposalMessage × World W).
            Keeps h.svc r.1.store (to_json h.ethers (without_proposal ch p.identity_hash)))
          (sym run) (removal-Leads h w ch p holds).2,
      ap (λ r. r.0) handled',
      subst
          (λ (r : Result (Unit {0}) × World V).
            Keeps g.svc r.1.store (to_json g.ethers (without_proposal ch' p.identity_hash)))
          (sym handled')
          (subst
            (λ id.
              Keeps g.svc (saved g v ch' q holds').store
                (to_json g.ethers (without_proposal ch' id)))
            same (removal-Leads g v ch' q holds').2),
    )
  where
    to_proposer : counterparty h w ch p holds ≡ g.public_identifier
    to_proposer = ground (arith, eq_iff h.public_identifier p.proposed_by_identifier)
