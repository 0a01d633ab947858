-- ===== src/Protocol/Setup/Signed.antt =====
-- What the two sides of a setup persist.
use indra.Prelude.{String, some, List, [], ◌∷◌, ok, ◌≡◌, refl}
use indra.Ethers.{Ethers}
use indra.Commitment.{Signing}
use indra.Commitment.Multisig.{SignedTransaction, set_signatures, get_signed_transaction}
use indra.Machine.{Opcode, setup}
use indra.Machine.Runs.{persisted}
use indra.Protocol.Exchange.{check}
use indra.Protocol.Exchange.Agreement.{initiated, responded, initiated-and-responded}
use indra.Protocol.Setup.{Setup, SetUp, prepare_setup, persist_setup, setup_exchange}

-- The signed transaction and the new channel, the latest first.
abbrev pub set_up : SetUp → SignedTransaction → List Opcode
set_up p transaction =
    Opcode.persist_state_channel (p.channel ∷ [])
    ∷ Opcode.persist_commitment (setup transaction) p.channel.multisig_address
    ∷ []

persist_setup-ok :
    (s : Signing) (p : SetUp) (a b : String) (transaction : SignedTransaction)
    → get_signed_transaction s (record (p.commitment) { signatures = some b ∷ some a ∷ [] })
      ≡ ok transaction
    → persist_setup s p (some a) (some b)
      ≡ ok (
          Opcode.persist_commitment (setup transaction) p.channel.multisig_address
          ∷ Opcode.persist_state_channel (p.channel ∷ [])
          ∷ [])
unfolding persist_setup set_signatures
persist_setup-ok s p a b transaction made = rw made refl

-- When the channel of a setup is computed without an error, both signatures are valid and the signed
-- transaction is made of them, both sides finish and persist the same: that transaction, with the
-- signatures sorted by their signers, and then the new channel.
pub setup_exchange-persisted :
    (e : Ethers) (s : Signing) (u : Setup) (p : SetUp) (a b : String)
    (transaction : SignedTransaction)
    → prepare_setup e s u ≡ ok p
    → check e s (setup_exchange e s u) u.initiator_xpub p (some a) ≡ ok tt
    → check e s (setup_exchange e s u) u.responder_xpub p (some b) ≡ ok tt
    → get_signed_transaction s (record (p.commitment) { signatures = some b ∷ some a ∷ [] })
      ≡ ok transaction
    → ((initiated e s (setup_exchange e s u) a b).0 ≡ ok tt)
      × ((responded e s (setup_exchange e s u) a b).0 ≡ ok tt)
      × (persisted (initiated e s (setup_exchange e s u) a b).1.1 ≡ set_up p transaction)
      × (persisted (responded e s (setup_exchange e s u) a b).1.1 ≡ set_up p transaction)
unfolding setup_exchange
setup_exchange-persisted e s u p a b transaction prepared first second made =
    let found = persist_setup-ok s p a b transaction made in
    initiated-and-responded e s (setup_exchange e s u) a b p p _ _ prepared prepared second first
      found found
