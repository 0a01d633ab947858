-- ===== src/Machine.antt =====
-- A protocol as the runner of modules/cf-core/src/machine/protocol-runner.ts drives it: a generator
-- that yields opcodes, and is resumed with what the middleware returns.
pub mod Runs
use indra.Prelude.{String, ℕ, ℤ, Option, none, some, List, [], ◌∷◌, Result, ok, err}
use indra.AppInstance.{AppInstance}
use indra.StateChannel.Channel.{StateChannel}
use indra.StateChannel.Channel.{AppInstanceProposal}
use indra.Commitment.{SetStateCommitment}
use indra.Commitment.Multisig.{MultisigCommitment, SignedTransaction}

-- The part of a ProtocolMessage that the protocols read; its parameters are carried along.
pub record Message : Type 0 where
  pub protocol : String
  pub process_id : String
  pub seq : ℤ
  pub to_xpub : String
  pub signature : Option String
  pub signature2 : Option String

-- What a protocol persists as a commitment; a setup is persisted as its signed transaction.
pub data Commitment : Type 0 where
  set_state : (commitment : SetStateCommitment) → Commitment
  conditional : (commitment : MultisigCommitment) → Commitment
  setup : (transaction : SignedTransaction) → Commitment

-- An app that is persisted: an installed one, a proposed one, or one that is no more installed.
pub data PersistedApp : Type 0 where
  app_instance : (app : AppInstance) → PersistedApp
  proposal : (proposal : AppInstanceProposal) → PersistedApp
  uninstall : (app : AppInstance) → PersistedApp

-- The opcodes, each with its arguments. Signing without an index is by the key 0.
pub data Opcode : Type 0 where
  op_sign : (hash : String) (index : Option ℕ) → Opcode
  io_send : (message : Message) → Opcode
  io_send_and_wait : (message : Message) → Opcode
  persist_commitment : (commitment : Commitment) (identifier : String) → Opcode
  persist_state_channel : (channels : List StateChannel) → Opcode
  persist_app_instance : (channel : StateChannel) (app : PersistedApp) → Opcode

-- What a middleware returns: a signature, the signatures in the message that was waited for, or
-- nothing that is read.
pub record Reply : Type 0 where
  pub signature : Option String
  pub signature2 : Option String

abbrev pub no_reply : Reply
no_reply = record { signature = none; signature2 = none }

abbrev pub signed : String → Reply
signed sig = record { signature = some sig; signature2 = none }

-- What a generator does next.
pub data Process : Type 0 where
  finished : Process
  thrown : (message : String) → Process
  yields : (opcode : Opcode) (next : Reply → Process) → Process

-- The opcodes of a list, one after the other, whatever is returned.
abbrev pub yields_all : List Opcode → Process → Process
yields_all [] last = last
yields_all (opcode ∷ opcodes) last = yields opcode (λ _. yields_all opcodes last)

-- Code of a generator that may throw.
abbrev pub attempt {ℓ} : {A : Type ℓ} → Result A → (A → Process) → Process
attempt (err message) next = thrown message
attempt (ok value) next = next value

-- The loop of `runProtocol`, with the one middleware of each opcode as a function on a world.
unfoldable pub run_protocol :
    {W : Type 0} → (Opcode → W → Result Reply × W) → Process → W → Result (Unit {0}) × W
run_protocol middleware finished w = (ok tt, w)
run_protocol middleware (thrown message) w = (err message, w)
run_protocol middleware (yields opcode next) w =
    let (returned, w') = middleware opcode w in
    elim returned [
      | err message ↦ (err message, w')
      | ok value ↦ run_protocol middleware (next value) w'
    ]

-- A world that answers from a list and records the opcodes, the latest first.
abbrev pub Script : Type 0
Script = List Reply × List Opcode

abbrev pub scripted : Opcode → Script → Result Reply × Script
scripted opcode ([], trace) = (ok no_reply, ([], opcode ∷ trace))
scripted opcode (reply ∷ replies, trace) = (ok reply, (replies, opcode ∷ trace))
