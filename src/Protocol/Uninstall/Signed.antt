-- ===== src/Protocol/Uninstall/Signed.antt =====
-- What the two sides of an uninstall persist.
use indra.Prelude.{String, some, List, [], ◌∷◌, ok, ◌≡◌, refl}
use indra.Ethers.{Ethers}
use indra.Commitment.{Signing}
use indra.Machine.{Opcode, set_state, uninstall}
use indra.Machine.Runs.{persisted}
use indra.Protocol.Outcome.{Decoder, Chain}
use indra.Protocol.Exchange.{check}
use indra.Protocol.Exchange.Agreement.{initiated, responded, initiated-and-responded}
use indra.Protocol.Uninstall.{
  Uninstall, Uninstalled, prepare_uninstall, persist_uninstall, uninstall_exchange,
}

-- The new channel and the commitment to its free balance, with the signatures in an order.
abbrev pub uninstalled : Uninstall → Uninstalled → String → String → List Opcode
uninstalled u p first second =
    Opcode.persist_app_instance p.post_channel (uninstall p.app)
    ∷ Opcode.persist_commitment
        (set_state (record (p.commitment) { signatures = some first ∷ some second ∷ [] }))
        u.app_identity_hash
    ∷ []

-- When the channel after an uninstall is computed without an error and both signatures are valid,
-- both sides finish and persist the same channel and the same commitment to its free balance, but
-- for the order of the two signatures: each side has its own first.
pub uninstall_exchange-persisted :
    (e : Ethers) (s : Signing) (d : Decoder) (chain : Chain) (u : Uninstall) (p : Uninstalled)
    (a b : String)
    → prepare_uninstall e s d chain u ≡ ok p
    → check e s (uninstall_exchange e s d chain u) u.initiator_xpub p (some a) ≡ ok tt
    → check e s (uninstall_exchange e s d chain u) u.responder_xpub p (some b) ≡ ok tt
    → ((initiated e s (uninstall_exchange e s d chain u) a b).0 ≡ ok tt)
      × ((responded e s (uninstall_exchange e s d chain u) a b).0 ≡ ok tt)
      × (persisted (initiated e s (uninstall_exchange e s d chain u) a b).1.1 ≡ uninstalled u p a b)
      × (persisted (responded e s (uninstall_exchange e s d chain u) a b).1.1 ≡ uninstalled u p b a)
unfolding uninstall_exchange persist_uninstall
uninstall_exchange-persisted e s d chain u p a b prepared first second =
    initiated-and-responded e s (uninstall_exchange e s d chain u) a b p p _ _ prepared prepared
      second first refl refl
