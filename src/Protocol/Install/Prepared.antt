-- ===== src/Protocol/Install/Prepared.antt =====
-- What the preparation of an installation has to do with `installApp`.
use indra.Prelude.{ok, ◌≡◌, subst, sym, ◌∙◌, ok-injective, >>=-eq-ok}
use indra.Ethers.{Ethers}
use indra.AppInstance.{construct}
use indra.StateChannel.Channel.{StateChannel}
use indra.StateChannel.Updates.{install_app}
use indra.StateChannel.Queries.{most_recently_installed_app_instance}
use indra.StateChannel.Latest.{Older, most_recently_installed-install_app}
use indra.Commitment.{Signing}
use indra.Commitment.Multisig.{ParamsCoder, get_conditional_transaction_commitment}
use indra.Protocol.Install.{
  app_to_be_installed, compute_state_channel_transition,
  assert_sufficient_funds_within_free_balance,
}
use indra.Protocol.Install.Exchange.{Install, Installation, prepare_install}
use indra.Protocol.Install.Sufficient.{decrement_of, compute_state_channel_transition_inv}

-- No app of the channel was proposed later than the app that is to be installed.
abbrev pub IsNewest : Install → StateChannel → Type 0
IsNewest u pre = Older u.params.app_seq_no pre.app_instances

-- When no app of the channel was proposed later, the app that the preparation names is the one that it
-- has installed.
pub prepare_install-install_app :
    (e : Ethers) (s : Signing) (coder : ParamsCoder) (u : Install) (pre : StateChannel)
    {p : Installation}
    → u.pre_channel ≡ ok pre
    → IsNewest u pre
    → prepare_install e s coder u ≡ ok p
    → install_app e pre p.app (decrement_of e u.params) ≡ ok p.post_channel
unfolding prepare_install construct
prepare_install-install_app e s coder u pre {p} from newest prepared =
    let (found, here, after_channel) = >>=-eq-ok u.pre_channel _ prepared in
    let (_, _, after_initiator) =
      >>=-eq-ok (assert_sufficient_funds_within_free_balance e found _ _ _) _ after_channel in
    let (_, _, after_responder) =
      >>=-eq-ok (assert_sufficient_funds_within_free_balance e found _ _ _) _ after_initiator in
    let (post, moved, after_transition) =
      >>=-eq-ok (compute_state_channel_transition e found u.params) _ after_responder in
    let (app, named, after_app) =
      >>=-eq-ok (most_recently_installed_app_instance post) _ after_transition in
    let (_, _, last) =
      >>=-eq-ok (get_conditional_transaction_commitment e u.network coder post app) _ after_app in
    let moved' : compute_state_channel_transition e pre u.params ≡ ok post =
      subst (λ c. compute_state_channel_transition e c u.params ≡ ok post)
        (ok-injective (sym here ∙ from)) moved in
    let (interpreter, _, run) = compute_state_channel_transition_inv e pre u.params moved' in
    let is : app ≡ construct (app_to_be_installed pre u.params interpreter) = ok-injective (
      sym named
      ∙ most_recently_installed-install_app e pre _ (decrement_of e u.params) newest run) in
    subst
      (λ (q : Installation). install_app e pre q.app (decrement_of e u.params) ≡ ok q.post_channel)
      (ok-injective last)
      (subst (λ a. install_app e pre a (decrement_of e u.params) ≡ ok post) (sym is) run)
