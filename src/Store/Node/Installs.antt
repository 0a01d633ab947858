-- ===== src/Store/Node/Installs.antt =====
-- A node that initiates an installation, from the store before it to the store after it.
use indra.Prelude.{
  String, ℕ, some, [], ◌∷◌, Result, ok, err, ◌≡◌, sym, ap, ◌∙◌, str_eq, false, subst,
}
use indra.Dict.{lookup, set}
use indra.Dict.Laws.{Distinct, lookup-set_self}
use indra.Ethers.{Ethers}
use indra.AppInstance.{AppInstance, identity_hash}
use indra.StateChannel.Channel.{StateChannel}
use indra.StateChannel.Updates.{install_app}
use indra.StateChannel.Json.{to_json}
use indra.Commitment.{Signing, set_signatures}
use indra.Commitment.Multisig
use indra.Commitment.Multisig.{ParamsCoder}
use indra.Machine.{no_reply, app_instance, run_protocol}
use indra.Machine.Runs.{attempt-ok}
use indra.Protocol.Install.Exchange.{
  Install, Installation, FreeBalanceUpdate, prepare_install, prepare_free_balance_update, check,
  initiating, send_last_signature,
}
use indra.Protocol.Install.Sufficient.{decrement_of}
use indra.Protocol.Install.Prepared.{IsNewest, prepare_install-install_app}
use indra.Store.Service.{StoreService, Keeps, Promises}
use indra.Store.Persist.{persist_app_instance}
use indra.Store.Persist.Follows.{FindsProposal, persist-install_app}
use indra.Store.Node.{World, stored, node_middleware}

module _ {W : Type 0} (e : Ethers) (s : Signing) (coder : ParamsCoder) (svc : StoreService W)
    (sign : ℕ → String → String) (u : Install) (b b2 : String) where
  -- The world before: the node is sent `b` and `b2` and at last that the other side has finished.
  abbrev pub expects : World W → World W
  expects w = record w {
    replies = record { signature = some b; signature2 = some b2 } ∷ no_reply ∷ [];
  }

  abbrev pub run_at_node : World W → Result (Unit {0}) × World W
  run_at_node w = run_protocol (node_middleware e svc sign) (initiating e s coder u) (expects w)

  -- The world with the signed conditional transaction, and with the signed free balance too.
  abbrev conditioned : World W → Installation → World W
  conditioned w p = record w {
    replies = no_reply ∷ [];
    conditional_commitments =
        set (identity_hash e p.app)
          (record (p.commitment) { signatures = some (sign 0 p.hash) ∷ some b ∷ [] })
          w.conditional_commitments;
  }

  abbrev balanced : World W → Installation → FreeBalanceUpdate → World W
  balanced w p f = record (conditioned w p) {
    replies = no_reply ∷ [];
    set_state_commitments =
        set (identity_hash e f.fb)
          (record (f.commitment) { signatures = some (sign 0 f.hash) ∷ some b2 ∷ [] })
          w.set_state_commitments;
  }

  run_at_node_lem :
      (w : World W) (p : Installation) (f : FreeBalanceUpdate) (w' : W)
      → prepare_install e s coder u ≡ ok p
      → prepare_free_balance_update e s u p ≡ ok f
      → check e s coder u u.params.responder_xpub p.hash (some b) ≡ ok tt
      → check e s coder u u.params.responder_xpub f.hash (some b2) ≡ ok tt
      → persist_app_instance e svc w.store p.post_channel (app_instance p.app) ≡ ok w'
      → run_at_node w ≡ (ok tt, record (balanced w p f) { replies = []; store = w' })
  unfolding initiating run_protocol node_middleware set_signatures Multisig.set_signatures
  run_at_node_lem w p f w' prepared computed valid_b valid_b2 ran =
      ap (λ q. run_protocol (node_middleware e svc sign) q (expects w)) (attempt-ok _ prepared)
      ∙ ap (λ q. run_protocol (node_middleware e svc sign) q (record w { replies = no_reply ∷ [] }))
          (attempt-ok _ valid_b)
      ∙ ap (λ q. run_protocol (node_middleware e svc sign) q (conditioned w p))
          (attempt-ok _ computed ∙ attempt-ok _ valid_b2)
      ∙ ap
          (λ r.
            let (returned, w'') = stored (balanced w p f) r in
            elim returned [
              | err message ↦ (err message, w'')
              | ok value ↦
                  run_protocol (node_middleware e svc sign)
                    (send_last_signature e s coder u (some (sign 0 f.hash))) w''
            ])
          ran

  -- A node that initiates an installation with valid signatures of the responder finishes, when
  -- no app of the channel was proposed later than this one. Its store, if it keeps its promises and
  -- held the channel before, holds the channel that `installApp` makes for the app and the deposits,
  -- and the two commitments are kept with both signatures. The app is not the free balance, and the
  -- store answers when it is asked for its proposal.
  pub run_at_node-installs :
      (w : World W) (pre : StateChannel) (p : Installation) (f : FreeBalanceUpdate)
      (fb : AppInstance)
      → u.pre_channel ≡ ok pre
      → IsNewest u pre
      → prepare_install e s coder u ≡ ok p
      → prepare_free_balance_update e s u p ≡ ok f
      → check e s coder u u.params.responder_xpub p.hash (some b) ≡ ok tt
      → check e s coder u u.params.responder_xpub f.hash (some b2) ≡ ok tt
      → Promises svc pre.multisig_address
      → Keeps svc w.store (to_json e pre)
      → Distinct pre.proposed_app_instances
      → p.post_channel.free_balance_app_instance ≡ some fb
      → str_eq (identity_hash e p.app) (identity_hash e fb) ≡ false
      → FindsProposal e svc w.store pre p.app fb
      → (install_app e pre p.app (decrement_of e u.params) ≡ ok p.post_channel)
        × ((run_at_node w).0 ≡ ok tt)
        × Keeps svc (run_at_node w).1.store (to_json e p.post_channel)
        × (lookup (identity_hash e p.app) (run_at_node w).1.conditional_commitments
            ≡ some (record (p.commitment) { signatures = some (sign 0 p.hash) ∷ some b ∷ [] }))
        × (lookup (identity_hash e f.fb) (run_at_node w).1.set_state_commitments
            ≡ some (record (f.commitment) { signatures = some (sign 0 f.hash) ∷ some b2 ∷ [] }))
  run_at_node-installs w pre p f fb from newest prepared computed valid_b valid_b2 promises keeps
        distinct here other finds =
      let installed = prepare_install-install_app e s coder u pre from newest prepared in
      let (w', ran, keeps') =
        persist-install_app e svc w.store pre p.post_channel p.app fb (decrement_of e u.params)
          promises keeps distinct installed here other finds in
      let run = run_at_node_lem w p f w' prepared computed valid_b valid_b2 ran in
      (
        installed,
        ap (λ r. r.0) run,
        subst (λ (r : Result (Unit {0}) × World W). Keeps svc r.1.store (to_json e p.post_channel))
            (sym run) keeps',
        ap
              (λ (r : Result (Unit {0}) × World W).
                lookup (identity_hash e p.app) r.1.conditional_commitments)
              run
            ∙ lookup-set_self _ _ w.conditional_commitments,
        ap
              (λ (r : Result (Unit {0}) × World W).
                lookup (identity_hash e f.fb) r.1.set_state_commitments)
              run
            ∙ lookup-set_self _ _ w.set_state_commitments,
      )
