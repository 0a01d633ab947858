-- ===== src/Store/Node.antt =====
-- The middlewares of modules/cf-core/src/node.ts together, over a world that holds the messages still to
-- come, the store of the channels and the commitments: what a node keeps when it runs a protocol.
pub mod Installs
use indra.Prelude.{String, ℕ, or_else, List, [], ◌∷◌, Result, ok, err}
use indra.Dict.{Dict, set}
use indra.Ethers.{Ethers}
use indra.StateChannel.Channel.{StateChannel}
use indra.Commitment.{SetStateCommitment}
use indra.Commitment.Multisig.{MultisigCommitment, SignedTransaction}
use indra.Machine.{
  Opcode, Reply, no_reply, signed, Commitment, PersistedApp, set_state, conditional, setup,
}
use indra.Store.Service.{StoreService}
use indra.Store.Persist.{persist_app_instance, persist_state_channel}

-- The commitments are kept under the identity hash of their app, or the address of the channel.
pub record World (W : Type 0) : Type 0 where
  pub replies : List Reply
  pub store : W
  pub set_state_commitments : Dict SetStateCommitment
  pub conditional_commitments : Dict MultisigCommitment
  pub setup_commitments : Dict SignedTransaction

module _ {W : Type 0} where
  -- A message that is waited for.
  abbrev pub answered : World W → Result Reply × World W
  answered w = elim w.replies [
    | [] ↦ (err "IO_SEND_AND_WAIT timed out after 90s waiting for counterparty reply", w)
    | reply ∷ replies ↦ (ok reply, record w { replies = replies })
  ]

  -- The store after an operation of it.
  abbrev pub stored : World W → Result W → Result Reply × World W
  stored w (err message) = (err message, w)
  stored w (ok store) = (ok no_reply, record w { store = store })

  abbrev pub persist_commitment : World W → Commitment → String → World W
  persist_commitment w (set_state c) id = record w {
    set_state_commitments = set id c w.set_state_commitments;
  }
  persist_commitment w (conditional c) id = record w {
    conditional_commitments = set id c w.conditional_commitments;
  }
  persist_commitment w (setup c) id = record w { setup_commitments = set id c w.setup_commitments }

  -- What signs a hash with the key of an index is a parameter: the getter of private keys and
  -- `signDigest`.
  unfoldable pub node_middleware :
      Ethers → StoreService W → (ℕ → String → String) → Opcode → World W → Result Reply × World W
  unfolding persist_app_instance persist_state_channel
  node_middleware e svc sign (Opcode.op_sign hash index) w =
      (ok (signed (sign (or_else index 0) hash)), w)
  node_middleware e svc sign (Opcode.io_send message) w = (ok no_reply, w)
  node_middleware e svc sign (Opcode.io_send_and_wait message) w = answered w
  node_middleware e svc sign (Opcode.persist_commitment c id) w =
      (ok no_reply, persist_commitment w c id)
  node_middleware e svc sign (Opcode.persist_state_channel channels) w =
      stored w (persist_state_channel e svc w.store channels)
  node_middleware e svc sign (Opcode.persist_app_instance ch app) w =
      stored w (persist_app_instance e svc w.store ch app)
