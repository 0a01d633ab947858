-- ===== src/Protocol/Propose/Mirrored.antt =====
-- What the two sides of a proposal compute and persist.
use indra.Prelude.{
  String, ℕ, ◌+◌, some, List, [], ◌∷◌, ok, ok-injective, >>=-eq-ok, or_throw-ok, ◌≡◌, refl, sym, ap,
  ◌∙◌, subst, arith, or_throw,
}
use indra.Dict.{lookup, set}
use indra.Dict.Laws.{lookup-set_self}
use indra.Ethers.{Ethers}
use indra.Commitment.{Signing, CommittedApp, get_set_state_commitment, hash_to_sign, set_signatures}
use indra.StateChannel.Channel.{StateChannel, AppInstanceProposal, build, construct}
use indra.StateChannel.Updates.{add_proposal}
use indra.Machine.{Opcode, set_state, proposal}
use indra.Machine.Runs.{persisted}
use indra.Protocol.Exchange.{check}
use indra.Protocol.Exchange.Agreement.{initiated, responded, initiated-and-responded}
use indra.Protocol.Propose.{
  Propose, Proposed, initiator_proposal, responder_proposal, proposed_app_instance, next_identity,
  initiator_prepares, responder_prepares, persist_proposal, propose_exchange,
}

-- The proposal from the other side's point of view: the deposits have changed places.
abbrev pub mirrored : AppInstanceProposal → AppInstanceProposal
mirrored p = record p {
  initiator_deposit = p.responder_deposit;
  initiator_deposit_token_address = p.responder_deposit_token_address;
  responder_deposit = p.initiator_deposit;
  responder_deposit_token_address = p.initiator_deposit_token_address;
}

mirrored-initiator_proposal :
    (e : Ethers) (u : Propose) (pre : StateChannel)
    → responder_proposal e u pre ≡ mirrored (initiator_proposal e u pre)
unfolding initiator_proposal responder_proposal
mirrored-initiator_proposal e u pre = refl

-- The commitment of a side and its proposal, the latest first.
abbrev pub kept : Proposed → AppInstanceProposal → StateChannel → String → String → List Opcode
kept p its post a b =
    Opcode.persist_commitment
      (set_state (record (p.commitment) { signatures = some a ∷ some b ∷ [] })) its.identity_hash
    ∷ Opcode.persist_app_instance post (proposal its)
    ∷ []

-- What a channel is after a proposal.
abbrev pub WithProposal : StateChannel → AppInstanceProposal → StateChannel → Type 0
WithProposal pre p post =
    (post.monotonic_num_proposed_apps ≡ pre.monotonic_num_proposed_apps + 1)
    × (lookup p.identity_hash post.proposed_app_instances ≡ some p)
    × (post.app_instances ≡ pre.app_instances)
    × (post.free_balance_app_instance ≡ pre.free_balance_app_instance)

-- A proposal can be added to a channel to which another one can be.
abbrev added_to : StateChannel → AppInstanceProposal → StateChannel
added_to pre p = record pre {
  proposed_app_instances = set p.identity_hash p pre.proposed_app_instances;
  monotonic_num_proposed_apps = pre.monotonic_num_proposed_apps + 1;
}

add_proposal-added_to :
    (pre post : StateChannel) (p q : AppInstanceProposal)
    → add_proposal pre p ≡ ok post
    → add_proposal pre q ≡ ok (added_to pre q)
unfolding add_proposal build construct
add_proposal-added_to pre post p q added = ground arith

add_proposal-WithProposal :
    (pre post : StateChannel) (p : AppInstanceProposal)
    → add_proposal pre p ≡ ok post
    → WithProposal pre p post
add_proposal-WithProposal pre post p added =
    let same : post ≡ added_to pre p =
      ok-injective (sym added ∙ add_proposal-added_to pre post p p added) in
    rw same (refl, lookup-set_self p.identity_hash p pre.proposed_app_instances, refl, refl)

-- What a side has computed, from its proposal.
abbrev proposed :
    Ethers → Signing → Propose → AppInstanceProposal → StateChannel → CommittedApp → Proposed
proposed e s u p post app = record {
  post_channel = post;
  app_proposal = p;
  commitment = get_set_state_commitment e u.challenge_registry app;
  hash = hash_to_sign e s (get_set_state_commitment e u.challenge_registry app);
}

module _ (e : Ethers) (s : Signing) (u : Propose) where
  initiator_prepares_inv :
      (p : Proposed)
      → initiator_prepares e s u ≡ ok p
      → (pre : StateChannel) × (timeout : ℕ) × (post : StateChannel) × (app : CommittedApp)
        × (u.pre_channel ≡ ok pre)
        × (e.to_number u.timeout ≡ some timeout)
        × (add_proposal pre (initiator_proposal e u pre) ≡ ok post)
        × (proposed_app_instance e s u pre timeout ≡ ok app)
        × (p ≡ proposed e s u (initiator_proposal e u pre) post app)
  unfolding initiator_prepares
  initiator_prepares_inv p prepared =
      let (pre, here, rest) = >>=-eq-ok u.pre_channel _ prepared in
      let (timeout, short, rest') =
        >>=-eq-ok (or_throw (e.to_number u.timeout) "overflow") _ rest in
      let (post, added, rest'') =
        >>=-eq-ok (add_proposal pre (initiator_proposal e u pre)) _ rest' in
      let (app, committed, made) = >>=-eq-ok (proposed_app_instance e s u pre timeout) _ rest'' in
      (
        pre,
        timeout,
        post,
        app,
        here,
        or_throw-ok (e.to_number u.timeout) "overflow" short,
        added,
        committed,
        sym (ok-injective made),
      )

  -- What the initiating side of a proposal computes: the app's sequence number is the new number of
  -- proposals; the proposal stands under its identity hash in the channel, whose apps and free
  -- balance have not changed; and the commitment is to version 0 of the app with that hash.
  pub initiator_prepares-WithProposal :
      (pre : StateChannel) (p : Proposed)
      → u.pre_channel ≡ ok pre
      → initiator_prepares e s u ≡ ok p
      → (p.app_proposal.app_seq_no ≡ p.post_channel.monotonic_num_proposed_apps)
        × WithProposal pre p.app_proposal p.post_channel
        × (p.commitment.version_number ≡ 0)
        × (p.commitment.app_identity_hash ≡ p.app_proposal.identity_hash)
  unfolding initiator_proposal proposed_app_instance get_set_state_commitment
  initiator_prepares-WithProposal pre p here prepared =
      let (pre', timeout, post, app, here', short, added, committed, made) =
        initiator_prepares_inv p prepared in
      let same : pre' ≡ pre = ok-injective (sym here' ∙ here) in
      let with_proposal = add_proposal-WithProposal pre' post (initiator_proposal e u pre') added in
      let first : app.version_number ≡ 0 = ground arith in
      let of_app : app.identity ≡ next_identity e pre' = ground arith in
      rw made (
        sym with_proposal.0,
        subst (λ c. WithProposal c (initiator_proposal e u pre') post) same with_proposal,
        first,
        rw of_app refl,
      )

  -- When the initiating side of a proposal computes its part without an error, so does the responding
  -- side, on an equal channel: it finds the same commitment and the same hash to sign, and the same
  -- proposal with the deposits and their tokens exchanged.
  pub responder_prepares-initiator_prepares :
      (p : Proposed)
      → initiator_prepares e s u ≡ ok p
      → (q : Proposed) × (responder_prepares e s u ≡ ok q)
        × (q.hash ≡ p.hash)
        × (q.commitment ≡ p.commitment)
        × (q.app_proposal ≡ mirrored p.app_proposal)
  unfolding responder_prepares
  responder_prepares-initiator_prepares p prepared =
      let (pre, timeout, post, app, here, short, added, committed, made) =
        initiator_prepares_inv p prepared in
      let post' = added_to pre (responder_proposal e u pre) in
      (
        proposed e s u (responder_proposal e u pre) post' app,
        rw
            (
              here,
              short,
              committed,
              add_proposal-added_to pre post _ (responder_proposal e u pre) added,
            )
            refl,
        rw made refl,
        rw made refl,
        rw made (mirrored-initiator_proposal e u pre),
      )

  -- When the initiating side of a proposal computes its part without an error and both signatures
  -- are valid for it, both sides finish, and each persists first its own proposal in the channel that
  -- it has computed, the responder's with the deposits exchanged, and then the same commitment, with
  -- the initiator's signature first.
  pub propose_exchange-persisted :
      (p : Proposed) (a b : String)
      → initiator_prepares e s u ≡ ok p
      → check e s (propose_exchange e s u) u.initiator_xpub p (some a) ≡ ok tt
      → check e s (propose_exchange e s u) u.responder_xpub p (some b) ≡ ok tt
      → (q : Proposed) × (responder_prepares e s u ≡ ok q)
        × ((initiated e s (propose_exchange e s u) a b).0 ≡ ok tt)
        × ((responded e s (propose_exchange e s u) a b).0 ≡ ok tt)
        × (persisted (initiated e s (propose_exchange e s u) a b).1.1
            ≡ kept p p.app_proposal p.post_channel a b)
        × (persisted (responded e s (propose_exchange e s u) a b).1.1
            ≡ kept p (mirrored p.app_proposal) q.post_channel a b)
  unfolding propose_exchange persist_proposal set_signatures
  propose_exchange-persisted p a b prepared first second =
      let (q, prepared', same, same_commitment, other) =
        responder_prepares-initiator_prepares p prepared in
      let (done, done', kept_here, kept_there) =
        initiated-and-responded e s (propose_exchange e s u) a b p q _ _ prepared prepared' second
          (valid_for q p same (ap (λ r. r.app_seq_no) other) first) refl refl in
      (q, prepared', done, done', kept_here, kept_there ∙ kept_as q p _ same_commitment other)
    where
      valid_for :
          (q p : Proposed)
          → q.hash ≡ p.hash
          → q.app_proposal.app_seq_no ≡ p.app_proposal.app_seq_no
          → check e s (propose_exchange e s u) u.initiator_xpub p (some a) ≡ ok tt
          → check e s (propose_exchange e s u) u.initiator_xpub q (some a) ≡ ok tt
      valid_for q p same number valid = rw (same, number) valid

      kept_as :
          (q p : Proposed) (its : AppInstanceProposal)
          → q.commitment ≡ p.commitment
          → q.app_proposal ≡ its
          → kept q q.app_proposal q.post_channel a b ≡ kept p its q.post_channel a b
      kept_as q p its same other = rw (same, other) refl
