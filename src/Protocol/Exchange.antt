-- ===== src/Protocol/Exchange.antt =====
-- The exchange of two signatures that the protocols setup, propose, update, take-action and uninstall
-- of modules/cf-core/src/protocol have in common. What a protocol computes, the key that it signs with
-- and what it persists are its own.
pub mod Signed
pub mod Agreement
use indra.Prelude.{
  String, ℕ, ℤ, pos, negsuc, Bool, true, false, Option, none, some, List, [], ◌∷◌, Result, ok, err,
}
use indra.Ethers.{Ethers}
use indra.Keys.{xkey_kth_address}
use indra.Commitment.{Signing}
use indra.Machine.{Message, Opcode, Process, finished, yields, yields_all, attempt}
use indra.Protocol.Signature.{assert_is_valid_signature}

-- A protocol of this form. `P` is what both sides compute before they sign; the opcodes that persist
-- are found from the own and the other signature, on the initiating and on the responding side.
pub record Exchange (P : Type 0) : Type 0 where
  pub protocol : String
  pub process_id : String
  pub initiator_xpub : String
  pub responder_xpub : String
  pub initiator_prepares : Result P
  pub responder_prepares : Result P
  pub hash : P → String
  pub signing_index : P → Option ℕ
  pub key_index : P → ℕ
  pub initiator_persists : P → Option String → Option String → Result (List Opcode)
  pub responder_persists : P → Option String → Option String → Result (List Opcode)
  pub answers_first : Bool

abbrev pub unassigned_seq_no : ℤ
unassigned_seq_no = negsuc 0

module _ {P : Type 0} (e : Ethers) (s : Signing) (x : Exchange P) where
  -- The message of the initiating side.
  abbrev pub first_message : Option String → Message
  first_message signature = record {
    protocol = x.protocol;
    process_id = x.process_id;
    seq = pos 1;
    to_xpub = x.responder_xpub;
    signature = signature;
    signature2 = none;
  }

  -- The answer of the responding side.
  abbrev pub answer : Option String → Message
  answer signature = record {
    protocol = x.protocol;
    process_id = x.process_id;
    seq = unassigned_seq_no;
    to_xpub = x.initiator_xpub;
    signature = signature;
    signature2 = none;
  }

  -- The check of the other side's signature.
  abbrev pub check : String → P → Option String → Result (Unit {0})
  check xpub p signature =
      assert_is_valid_signature e s (xkey_kth_address e xpub (x.key_index p)) (some (x.hash p))
        signature

  unfoldable pub initiating : Process
  initiating = attempt x.initiator_prepares (λ p.
      yields (Opcode.op_sign (x.hash p) (x.signing_index p)) (λ mine.
        yields (Opcode.io_send_and_wait (first_message mine.signature)) (λ theirs.
          attempt (check x.responder_xpub p theirs.signature) (λ _.
            attempt (x.initiator_persists p mine.signature theirs.signature)
              (λ opcodes. yields_all opcodes finished)))))

  -- Where the answer is sent first, it is sent before anything is persisted.
  abbrev pub persist_and_answer : List Opcode → Option String → Process
  persist_and_answer opcodes mine = elim x.answers_first [
    | true ↦ yields (Opcode.io_send (answer mine)) (λ _. yields_all opcodes finished)
    | false ↦ yields_all opcodes (yields (Opcode.io_send (answer mine)) (λ _. finished))
  ]

  unfoldable pub responding : Option String → Process
  responding theirs = attempt x.responder_prepares (λ p.
      attempt (check x.initiator_xpub p theirs) (λ _.
        yields (Opcode.op_sign (x.hash p) (x.signing_index p)) (λ mine.
          attempt (x.responder_persists p mine.signature theirs)
            (λ opcodes. persist_and_answer opcodes mine.signature))))
