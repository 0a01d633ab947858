-- ===== src/StateChannel/Queries.antt =====
-- The queries of modules/cf-core/src/models/state-channel.ts on the apps and proposals of a channel.
use indra.Prelude.{
  String, str_eq, ltb, ◌==◌, ◌>>◌, throw_if, Bool, false, ◌&&◌, none, some, List, [], ◌∷◌, filter,
  length, Result, ok, err, if◌then◌else◌,
}
use indra.Dict.{values}
use indra.AppInstance.{AppInstance}
use indra.StateChannel.Channel.{AppInstanceProposal, StateChannel}

unfoldable pub of_kind : String → StateChannel → List AppInstance
of_kind address ch = filter (λ a. str_eq a.app_interface.addr address) (values ch.app_instances)

unfoldable pub has_app_instance_of_kind : StateChannel → String → Bool
unfolding of_kind
has_app_instance_of_kind ch address = ltb 0 (length (of_kind address ch))

-- `(prev, current) => current.appSeqNo > prev.appSeqNo ? current : prev`
unfoldable pub latest_app : AppInstance → List AppInstance → AppInstance
latest_app prev [] = prev
latest_app prev (current ∷ rest) =
    latest_app (if ltb prev.app_seq_no current.app_seq_no then current else prev) rest

unfoldable pub latest_of : List AppInstance → Result AppInstance
unfolding latest_app
latest_of [] = err "There are no installed AppInstances in this StateChannel"
latest_of (a ∷ rest) = ok (latest_app a rest)

unfoldable pub most_recently_installed_app_instance : StateChannel → Result AppInstance
unfolding latest_of
most_recently_installed_app_instance ch = latest_of (values ch.app_instances)

unfoldable pub latest_proposal :
    AppInstanceProposal → List AppInstanceProposal → AppInstanceProposal
latest_proposal prev [] = prev
latest_proposal prev (current ∷ rest) =
    latest_proposal (if ltb prev.app_seq_no current.app_seq_no then current else prev) rest

unfoldable pub latest_proposal_of : List AppInstanceProposal → Result AppInstanceProposal
unfolding latest_proposal
latest_proposal_of [] = err "There are no proposed AppInstances in this StateChannel"
latest_proposal_of (p ∷ rest) = ok (latest_proposal p rest)

unfoldable pub most_recently_proposed_app_instance : StateChannel → Result AppInstanceProposal
unfolding latest_proposal_of
most_recently_proposed_app_instance ch = latest_proposal_of (values ch.proposed_app_instances)

unfoldable pub only_one : List AppInstance → Result AppInstance
only_one [] = err "Either 0 or more than 1 AppInstance of addr exists on channel"
only_one (a ∷ []) = ok a
only_one (a ∷ b ∷ rest) = err "Either 0 or more than 1 AppInstance of addr exists on channel"

unfoldable pub get_app_instance_of_kind : StateChannel → String → Result AppInstance
unfolding of_kind only_one
get_app_instance_of_kind ch address = only_one (of_kind address ch)

abbrev pub for_token : String → AppInstance → Bool
for_token token a = elim a.latest_state.token_address [ none ↦ false | some t ↦ str_eq t token ]

unfoldable pub has_balance_refund_app_instance : StateChannel → String → String → Bool
has_balance_refund_app_instance ch definition token = ltb 0 (
    length (
      filter (λ a. str_eq a.app_interface.addr definition && for_token token a)
        (values ch.app_instances)))

unfoldable pub has_proposed_balance_refund_app_instance : StateChannel → String → String → Bool
has_proposed_balance_refund_app_instance ch definition token = ltb 0 (
    length (
      filter
        (λ p.
          str_eq p.app_definition definition
          && elim p.initial_state.token_address [ none ↦ false | some t ↦ str_eq t token ])
        (values ch.proposed_app_instances)))

unfoldable pub one_refund_app : List AppInstance → Result AppInstance
one_refund_app [] = err "No CoinBalanceRefund app instance of tokenAddress exists on channel"
one_refund_app (a ∷ []) = ok a
one_refund_app (a ∷ b ∷ rest) = err "More than 1 CoinBalanceRefund app instance of tokenAddress"

unfoldable pub get_app_instances_of_kind : StateChannel → String → Result (List AppInstance)
unfolding of_kind
get_app_instances_of_kind ch address =
    throw_if (length (of_kind address ch) == 0) "No AppInstance of addr exists on channel"
    >> ok (of_kind address ch)

-- `getBalanceRefundAppInstance`: the error of `getAppInstancesOfKind` is replaced by its own.
unfoldable pub get_balance_refund_app_instance : StateChannel → String → String → Result AppInstance
unfolding get_app_instances_of_kind one_refund_app
get_balance_refund_app_instance ch definition token =
    elim (get_app_instances_of_kind ch definition) [
      | err _ ↦ err "No CoinBalanceRefund app instance of tokenAddress exists on channel"
      | ok apps ↦ one_refund_app (filter (for_token token) apps)
    ]
