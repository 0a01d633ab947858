-- ===== src/Methods/Uninstall/Guards.antt =====
-- What a request to uninstall an app checks, in which order, and what it then does.
use indra.Prelude.{
  String, str_eq, eq_iff, eq_refl, arith, true, false, none, [], ◌∷◌, ap, ◌≡◌, refl, ◌∙◌, Result,
  ok, err, inl, inr, Bool-cases, if◌then◌else◌,
}
use indra.AppInstance.{AppInstance, identity_hash}
use indra.StateChannel.Channel.{StateChannel, free_balance, has_app_instance, get_app_instance}
use indra.Store.Lookup.{get_state_channel_from_app_instance_id, get_app_instance_of}
use indra.Store.Node.{World}
use indra.Methods.Params.{first_not_equal_to}
use indra.Methods.Request.{
  RequestHandler, execute_method, execute_method-passes, execute_method-refused, continue, lift,
}
use indra.Methods.Initiate.{initiate_uninstall}
use indra.Methods.Uninstall.{uninstall_controller, uninstall_app_instance_from_channel}

-- The implementation's result, after the protocol has run, is that of the request.
continue-again :
    {W : Type 0} (id : String) (r : Result (Unit {0}) × World W)
    → continue (continue r (λ _. lift (ok id))) (λ ret. lift (ok ret))
      ≡ continue r (λ _. lift (ok id))
continue-again id (err message, w) = refl
continue-again id (ok done, w) = refl

module _ {W : Type 0} (h : RequestHandler W) where
  found_app :
      (id : String) (w : W) (ch : StateChannel) (r : Result AppInstance)
      → get_state_channel_from_app_instance_id h.ethers h.svc h.search w id ≡ ok ch
      → get_app_instance h.ethers ch id ≡ r
      → get_app_instance_of h.ethers h.svc h.search w id ≡ r
  unfolding get_app_instance_of
  found_app id w ch r found is_app = rw found is_app

  from_channel :
      (id to : String) (w : World W) (ch : StateChannel) (app : AppInstance)
      → get_state_channel_from_app_instance_id h.ethers h.svc h.search w.store id ≡ ok ch
      → get_app_instance h.ethers ch id ≡ ok app
      → uninstall_app_instance_from_channel h to id w
        ≡ initiate_uninstall h to ch.multisig_address (identity_hash h.ethers app) none w
  unfolding uninstall_app_instance_from_channel
  from_channel id to w ch app found is_app = rw (found, is_app) refl

  passes :
      (id : String) (w : World W) (ch : StateChannel) (fb app : AppInstance)
      → str_eq id "" ≡ false
      → get_state_channel_from_app_instance_id h.ethers h.svc h.search w.store id ≡ ok ch
      → free_balance ch ≡ ok fb
      → get_app_instance_of h.ethers h.svc h.search w.store id ≡ ok app
      → str_eq (identity_hash h.ethers fb) id ≡ false
      → str_eq app.app_interface.addr h.coin_balance_refund_app ≡ false
      → execute_method (uninstall_controller h) id w
        ≡ continue
            ((uninstall_controller h).execute_method_implementation id w)
            (λ ret. lift (ok ret))
  unfolding uninstall_controller
  passes id w ch fb app given found has there no_fb no_refund =
      execute_method-passes (uninstall_controller h) id id (ch.multisig_address ∷ id ∷ []) w
        (rw (given, found, has, no_fb, there, no_refund) refl) (rw found refl)

  runs :
      (id : String) (w : World W) (ch : StateChannel) (app : AppInstance) (to : String)
      → str_eq id "" ≡ false
      → get_state_channel_from_app_instance_id h.ethers h.svc h.search w.store id ≡ ok ch
      → get_app_instance h.ethers ch id ≡ ok app
      → first_not_equal_to h.public_identifier ch.user_neutered_extended_keys ≡ ok to
      → has_app_instance ch id ≡ true
      → (uninstall_controller h).execute_method_implementation id w
        ≡ continue
            (initiate_uninstall h to ch.multisig_address (identity_hash h.ethers app) none w)
            (λ _. lift (ok id))
  unfolding uninstall_controller
  runs id w ch app to given found is_app counterparty installed =
      rw (given, found, installed, counterparty, from_channel id to w ch app found is_app) refl

  installed_there :
      (id : String) (ch : StateChannel) (fb app : AppInstance)
      → free_balance ch ≡ ok fb
      → str_eq (identity_hash h.ethers fb) id ≡ false
      → get_app_instance h.ethers ch id ≡ ok app
      → has_app_instance ch id ≡ true
  unfolding free_balance get_app_instance has_app_instance
  installed_there id ch fb app has_fb no_fb is_app =
      ground (arith, eq_iff id (identity_hash h.ethers fb), eq_refl id)

  -- What is to come of a request: the first check that fails leaves the node as it was; else the
  -- uninstall protocol is run, and decides.
  abbrev pub uninstall_outcome :
      String → StateChannel → AppInstance → String → World W → Result String × World W
  uninstall_outcome id ch fb to w =
      if str_eq (identity_hash h.ethers fb) id
      then (err "Cannot uninstall the FreeBalance of channel", w)
      else elim (get_app_instance h.ethers ch id) [
        | err message ↦ (err message, w)
        | ok app ↦
            if str_eq app.app_interface.addr h.coin_balance_refund_app
            then (err "Use `rescindDepositRights` to uninstall coin balance refund app.", w)
            else continue
                (initiate_uninstall h to ch.multisig_address (identity_hash h.ethers app) none w)
                (λ _. lift (ok id))
      ]

  -- A request to uninstall, where the store finds a channel by the given hash, with a free balance and
  -- a counterparty. It is refused for the free balance, for an app that the channel does not find, with
  -- the error of that search, and for a refund app, in this order and with nothing changed; else the
  -- uninstall protocol is run with the counterparty for that app, and the request succeeds just when
  -- the protocol does. So the check of `hasAppInstance` in the code never fails.
  pub uninstall-outcome :
      (id : String) (w : World W) (ch : StateChannel) (fb : AppInstance) (to : String)
      → str_eq id "" ≡ false
      → get_state_channel_from_app_instance_id h.ethers h.svc h.search w.store id ≡ ok ch
      → free_balance ch ≡ ok fb
      → first_not_equal_to h.public_identifier ch.user_neutered_extended_keys ≡ ok to
      → execute_method (uninstall_controller h) id w ≡ uninstall_outcome id ch fb to w
  unfolding uninstall_controller
  uninstall-outcome id w ch fb to given found has_fb counterparty =
      elim (Bool-cases (str_eq (identity_hash h.ethers fb) id)) [
        | inl is_fb ↦ rw is_fb (
            execute_method-refused (uninstall_controller h) id _ w
              (rw (given, found, has_fb, is_fb) refl))
        | inr no_fb ↦ by_app no_fb (get_app_instance h.ethers ch id) refl
      ]
    where
      by_app :
          str_eq (identity_hash h.ethers fb) id ≡ false
          → (r : Result AppInstance) → get_app_instance h.ethers ch id ≡ r
          → execute_method (uninstall_controller h) id w ≡ uninstall_outcome id ch fb to w
      by_app no_fb (err message) is =
          let there = found_app id w.store ch _ found is in
          rw (no_fb, is)
            (execute_method-refused (uninstall_controller h) id _ w
              (rw (given, found, has_fb, no_fb, there) refl))
      by_app no_fb (ok app) is =
          let there = found_app id w.store ch _ found is in
          elim (Bool-cases (str_eq app.app_interface.addr h.coin_balance_refund_app)) [
            | inl is_refund ↦
                rw (no_fb, is, is_refund)
                  (execute_method-refused (uninstall_controller h) id _ w
                    (rw (given, found, has_fb, no_fb, there, is_refund) refl))
            | inr no_refund ↦
                rw (no_fb, is, no_refund)
                  (passes id w ch fb app given found has_fb there no_fb no_refund
                    ∙ ap (λ r. continue r (λ ret. lift (ok ret)))
                        (runs id w ch app to given found is counterparty
                          (installed_there id ch fb app has_fb no_fb is))
                    ∙ continue-again id _)
          ]
