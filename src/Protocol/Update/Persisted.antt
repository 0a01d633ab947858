-- ===== src/Protocol/Update/Persisted.antt =====
-- What an update or a take-action persists: only with a valid signature of the other side, and the
-- same on both sides.
use indra.Prelude.{
  String, Option, some, List, [], ◌∷◌, ok, ok-injective, ◌≡◌, refl, sym, subst, ◌∙◌, false,
}
use indra.Ethers.{Ethers}
use indra.Commitment.{Signing}
use indra.Machine.{
  Reply, Opcode, set_state, conditional, setup, app_instance, proposal, uninstall, run_protocol,
  scripted,
}
use indra.Machine.Runs.{AllOpcodes, run_protocol-AllYields, persists, persisted}
use indra.Protocol.Exchange.{check, initiating, responding}
use indra.Protocol.Exchange.Signed.{initiating-AllYields, responding-AllYields}
use indra.Protocol.Exchange.Agreement.{initiated, responded, initiated-and-responded}
use indra.Protocol.Update.{Update, Prepared, prepare, persist_update, update_exchange}

-- What may be persisted: the commitment to the next state with the signatures of both, and the
-- channel with that state, where the signature of the given party is valid. `place` puts that
-- signature and the own one in their order.
module _ (e : Ethers) (s : Signing) (u : Update) (xpub : String)
    (place : Option String → Option String → List (Option String)) where
  abbrev pub IsValidFor : Prepared → Option String → Type 0
  IsValidFor p sig = (prepare e s u ≡ ok p) × (check e s (update_exchange e s u) xpub p sig ≡ ok tt)

  abbrev pub Signed : Opcode → Type 0
  Signed (Opcode.op_sign hash index) = Unit
  Signed (Opcode.io_send message) = Unit
  Signed (Opcode.io_send_and_wait message) = Unit
  Signed (Opcode.persist_state_channel channels) = ⊥
  Signed (Opcode.persist_commitment (set_state c) hash) =
      (p : Prepared) × (sig : Option String) × (own : Option String) × IsValidFor p sig
      × (c ≡ record (p.commitment) { signatures = place sig own })
      × (hash ≡ u.app_identity_hash)
  Signed (Opcode.persist_commitment (conditional c) hash) = ⊥
  Signed (Opcode.persist_commitment (setup c) hash) = ⊥
  Signed (Opcode.persist_app_instance ch (app_instance app)) =
      (p : Prepared) × (sig : Option String) × IsValidFor p sig
      × (ch ≡ p.post_channel)
      × (app ≡ p.app)
  Signed (Opcode.persist_app_instance ch (proposal app)) = ⊥
  Signed (Opcode.persist_app_instance ch (uninstall app)) = ⊥

  quiet-Signed : (o : Opcode) → persists o ≡ false → Signed o
  quiet-Signed (Opcode.op_sign hash index) h = tt
  quiet-Signed (Opcode.io_send message) h = tt
  quiet-Signed (Opcode.io_send_and_wait message) h = tt
  quiet-Signed _ h = cc

abbrev pub theirs_second : Option String → Option String → List (Option String)
theirs_second theirs mine = mine ∷ theirs ∷ []

abbrev pub theirs_first : Option String → Option String → List (Option String)
theirs_first theirs mine = theirs ∷ mine ∷ []

-- Whatever the initiating side of an update or a take-action is answered, all that it persists is
-- the commitment to the next state, with its own signature and one that is valid for the responder,
-- and the channel and app with that state, after such a signature.
pub initiating-Signed :
    (e : Ethers) (s : Signing) (u : Update) (replies : List Reply)
    → AllOpcodes
        (Signed e s u u.responder_xpub theirs_second)
        (run_protocol scripted (initiating e s (update_exchange e s u)) (replies, [])).1.1
unfolding update_exchange persist_update
initiating-Signed e s u replies =
    run_protocol-AllYields _ (initiating e s (update_exchange e s u)) (replies, [])
      (initiating-AllYields e s (update_exchange e s u)
        (Signed e s u u.responder_xpub theirs_second)
        (quiet-Signed e s u u.responder_xpub theirs_second)
        (λ p mine theirs os prepared valid found.
          subst (AllOpcodes (Signed e s u u.responder_xpub theirs_second)) (ok-injective found) (
            (p, theirs, mine, (prepared, valid), refl, refl),
            ((p, theirs, (prepared, valid), refl, refl), tt),
          )))
      tt

-- Whatever signature the responding side of an update or a take-action receives, and whatever it is
-- answered, all that it persists is the commitment to the next state, with a signature that is valid
-- for the initiator and its own, and the channel and app with that state, after such a signature.
pub responding-Signed :
    (e : Ethers) (s : Signing) (u : Update) (theirs : Option String) (replies : List Reply)
    → AllOpcodes
        (Signed e s u u.initiator_xpub theirs_first)
        (run_protocol scripted (responding e s (update_exchange e s u) theirs) (replies, [])).1.1
unfolding update_exchange persist_update
responding-Signed e s u theirs replies =
    run_protocol-AllYields _ (responding e s (update_exchange e s u) theirs) (replies, [])
      (responding-AllYields e s (update_exchange e s u) (Signed e s u u.initiator_xpub theirs_first)
        theirs (quiet-Signed e s u u.initiator_xpub theirs_first)
        (λ p mine os prepared valid found.
          subst (AllOpcodes (Signed e s u u.initiator_xpub theirs_first)) (ok-injective found) (
            (p, theirs, mine, (prepared, valid), refl, refl),
            ((p, theirs, (prepared, valid), refl, refl), tt),
          )))
      tt

-- When the next state is computed without an error and both signatures are valid, both sides of an
-- update or a take-action finish, and both persist the same: the commitment with the two signatures,
-- the initiator's first, and then the channel with the next state.
pub initiated-responded :
    (e : Ethers) (s : Signing) (u : Update) (p : Prepared) (a b : String)
    → prepare e s u ≡ ok p
    → check e s (update_exchange e s u) u.initiator_xpub p (some a) ≡ ok tt
    → check e s (update_exchange e s u) u.responder_xpub p (some b) ≡ ok tt
    → ((initiated e s (update_exchange e s u) a b).0 ≡ ok tt)
      × ((responded e s (update_exchange e s u) a b).0 ≡ ok tt)
      × (persisted (initiated e s (update_exchange e s u) a b).1.1
          ≡ persisted (responded e s (update_exchange e s u) a b).1.1)
      × (persisted (initiated e s (update_exchange e s u) a b).1.1
          ≡ Opcode.persist_app_instance p.post_channel (app_instance p.app)
            ∷ Opcode.persist_commitment
                (set_state (record (p.commitment) { signatures = some a ∷ some b ∷ [] }))
                u.app_identity_hash
            ∷ [])
unfolding update_exchange persist_update
initiated-responded e s u p a b prepared first second =
    let (i_done, r_done, i_persists, r_persists) =
      initiated-and-responded e s (update_exchange e s u) a b p p _ _ prepared prepared second first
        refl refl in
    (i_done, r_done, i_persists ∙ sym r_persists, i_persists)
