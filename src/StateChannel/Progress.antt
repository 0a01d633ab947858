-- ===== src/StateChannel/Progress.antt =====
-- What `setState` of a channel does: the state of one app moves on.
use indra.Prelude.{◌+◌, ◌≡◌, true, some, none, ok, arith, >>=-eq-ok}
use indra.Dict.{lookup, set}
use indra.Dict.Laws.{lookup-set_self}
use indra.States.{AppState, big_numberify_json}
use indra.Ethers.{Ethers}
use indra.Keys.{sort_addresses}
use indra.AppInstance.{AppInstance, identity_hash, set_state, construct, from_json}
use indra.StateChannel.Channel.{StateChannel, build}
use indra.StateChannel.Updates.{set_app_state}

set_state_inv :
    (e : Ethers) (app : AppInstance) (state : AppState) {app' : AppInstance}
    → set_state e app state none ≡ ok app'
    → (e.encodes app.app_interface.state_encoding state ≡ true)
      × (app'.participants ≡ sort_addresses app.participants)
      × (app'.app_seq_no ≡ app.app_seq_no)
      × (app'.latest_state ≡ big_numberify_json state)
      × (app'.latest_version_number ≡ app.latest_version_number + 1)
      × (app'.latest_timeout ≡ app.default_timeout)
unfolding set_state from_json construct
set_state_inv e app state h = ground arith

-- `setState` of a channel, when it does not throw: the encoder accepts the state; the app under the
-- old app's identity hash has that state, with its numbers as big numbers, the next version number and the default timeout; its
-- identity hash is the old one, where the participants of the old app are sorted; and nothing else
-- of the channel has changed.
pub set_app_state-effect :
    (e : Ethers) (ch : StateChannel) (app : AppInstance) (state : AppState) {ch' : StateChannel}
    → sort_addresses app.participants ≡ app.participants
    → set_app_state e ch app state ≡ ok ch'
    → (app' : AppInstance) × (lookup (identity_hash e app) ch'.app_instances ≡ some app')
      × (ch' ≡ record ch { app_instances = set (identity_hash e app) app' ch.app_instances })
      × (identity_hash e app' ≡ identity_hash e app)
      × (e.encodes app.app_interface.state_encoding state ≡ true)
      × (app'.latest_state ≡ big_numberify_json state)
      × (app'.latest_version_number ≡ app.latest_version_number + 1)
      × (app'.latest_timeout ≡ app.default_timeout)
unfolding set_app_state identity_hash build
set_app_state-effect e ch app state {ch'} sorted run =
    let (app', moved, built) = >>=-eq-ok (set_state e app state none) _ run in
    let (accepted, owners, number, holds, version, timeout) = set_state_inv e app state moved in
    let same : ch' ≡ record ch { app_instances = set (identity_hash e app) app' ch.app_instances } =
      ground arith in
    (
      app',
      rw same (lookup-set_self _ app' ch.app_instances),
      same,
      rw (owners, number, sorted),
      accepted,
      holds,
      version,
      timeout,
    )
