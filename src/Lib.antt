-- ===== src/Lib.antt =====
-- Indra, a counterfactually instantiated network of state channels, and here the core of its
-- package modules/cf-core: the data of a channel, the operations on it, the protocols by which two
-- parties sign them, the requests that start the protocols, and the stores that keep what was signed;
-- and the checks of modules/apps on what is proposed.
--
-- A channel (modules/cf-core/src/models/state-channel.ts) belongs to two owners. Its funds are the
-- free balance (free-balance.ts), a table by token and owner, which is itself the state of an app
-- instance (app-instance.ts). Installing an app takes deposits out of the free balance, uninstalling
-- it pays the outcome back.
--
-- Files and the code that they model:
-- - Dict: JavaScript objects and Maps with string keys, in insertion order; Dict/Laws their laws.
-- - States, Ethers: the states of apps as cf-core reads them; what is taken from the package ethers.
-- - Coins: modules/cf-core/src/models/utils.ts (merge, flip, flipTokenIndexedBalances) and the
--   conversions of free-balance.ts; Coins/Merge and Coins/Totals their laws.
-- - Keys: modules/cf-core/src/xkeys.ts, sortAddresses and the derived addresses; Keys/Order.
-- - AppInstance: modules/cf-core/src/models/app-instance.ts.
-- - FreeBalance: modules/cf-core/src/models/free-balance.ts; Serial (state written and read back),
--   Increment, Flip and WellFormed.
-- - StateChannel: modules/cf-core/src/models/state-channel.ts, in Channel (data, build), Queries and
--   Updates; Funds, Apps, Progress and Latest what the updates do, Total when they succeed, Agree
--   an invariant of all sequences of them.
-- - Protocol/Install: modules/cf-core/src/protocol/install.ts, computeStateChannelTransition, and the
--   check of the funds in modules/cf-core/src/utils.ts; Decrements, Sufficient and Prepared.
-- - Protocol/Outcome: modules/cf-core/src/protocol/utils.ts, the increments that an outcome comes to;
--   Payout and Refund.
-- - Protocol/Uninstall: modules/cf-core/src/protocol/uninstall.ts, computeStateTransition; Lifecycle
--   puts it together with the installation.
-- - Commitment: modules/cf-core/src/ethereum/set-state-commitment.ts; Multisig: multisig-commitment.ts,
--   conditional-tx-commitment.ts and setup-commitment.ts, with sortSignaturesBySignerAddress of
--   modules/types/src/utils.ts; Order, the order of two signatures.
-- - Machine: the loop of modules/cf-core/src/machine/protocol-runner.ts over a generator, as a tree of
--   opcodes; Runs, what can be said of every run.
-- - Protocol/Signature: assertIsValidSignature of modules/cf-core/src/protocol/utils.ts.
-- - Protocol/Exchange: what the protocols with one exchange of signatures have in common, as a record of
--   what a protocol computes, signs and persists; Signed and Agreement. Its instances, with their files of
--   modules/cf-core/src/protocol: Protocol/Setup (setup.ts), Protocol/Propose (propose.ts),
--   Protocol/Update (update.ts, take-action.ts) and Protocol/Uninstall (uninstall.ts).
-- - Protocol/Install/Exchange: both sides of modules/cf-core/src/protocol/install.ts, which exchange two
--   signatures each; Signed and Agreement.
-- - StateChannel/Json: toJson and fromJson of a channel.
-- - Store/Service: what a store of channels promises, as an interface (IStoreService of
--   modules/types/src/store.ts). Store/KeyValue: modules/store/src/wrappers/keyValueStorage.ts over a
--   storage that is an interface too, and Promises. Store/Memory:
--   modules/store/src/wrappers/memoryStorage.ts, and Shared. Store/Persist: the operations of
--   modules/cf-core/src/store.ts that persist channels and apps, and the middleware of
--   modules/cf-core/src/node.ts that calls them; Balance, Follows and Others relate the stored channel
--   to the one that a protocol has computed. Store/Node: all middlewares of node.ts together, and
--   Installs.
--   Store/Lookup: the operations of store.ts that look up channels, apps and proposals.
-- - Scan: modules/cf-core/src/utils.ts, the address of a multisig and the search for the contracts that
--   it was made with; Finds.
-- - Methods/Queue: modules/cf-core/src/process-queue.ts and methods/queued-execution.ts, the queues of
--   the locks, as events on one state; Entries are the facts on its lists, Invariant what holds in every
--   state (Moves and Add, event by event), Order and Progress what follows.
-- - Methods/Request: methods/controller.ts and what a handler reads of request-handler.ts; Params what
--   the handlers compute from their parameters; Initiate the start of a protocol in
--   machine/protocol-runner.ts. Methods/Install: propose-install.ts, install.ts and reject-install.ts of
--   methods/app-instance, and message-handling/handle-node-message.ts; Deposits, Installed and Rejected.
--   Methods/Uninstall: uninstall.ts, and the refund app of methods/state-channel/deposit.ts,
--   request-deposit-rights.ts and rescind-deposit-rights.ts; Guards. Methods/Deposit: deposit.ts itself; Checks.
--   Methods/Actions: take-action.ts and update-state.ts. Methods/Channels: state-channel/create.ts and
--   the methods that only read. Methods/Messages: message-handling/handle-protocol-message.ts,
--   protocol/get-protocol-from-name.ts and runProtocolWithMessage; Forged.
-- - Apps/Validation, Apps/Transfers and Apps/Swap: the checks of proposals in modules/apps/src, with
--   calculateExchange of modules/types/src/math.ts.
-- - Tests: concrete channels, runs and instances of the theorems.
--
-- How the code is read. A method that changes an object returns the new object; code that throws
-- returns a Result, with the text of the error shortened. A BigNumber is an unbounded integer, and
-- a BigNumber in the state of an app is known by its hexadecimal text, which the state has both as
-- an instance of BigNumber and as the object with `_hex` that JSON makes of it. In which of the two
-- forms the numbers of a state are is kept with it, and changed by `bigNumberifyJson` and
-- `deBigNumberifyJson` of modules/types/src/utils.ts. A number is a natural number. `any` states
-- are records of the fields that cf-core reads, with the rest carried along as a text. Object keys
-- are addresses and hashes, which no engine reorders. The package ethers (checksums, hexadecimal
-- numbers, key derivation, hashes, the ABI encoder) is a parameter. `parseInt(a, 16)` is rounded to
-- 53 bits as the language does, with fuel for 77 digits; an address has 40. Sorting is the
-- insertion of each element behind those that it does not come before. The loop that waits for a
-- refund has fuel for eleven rounds, and it stops after ten. A deposit is sent as often as the
-- code's own count says, which is once. A protocol is run with a list of replies, one for each
-- opcode; at a node the list has the messages that it is sent, and it signs with the key of the
-- index that the protocol names, by a function that is a parameter. The commitments that a node
-- keeps are the objects of the protocol and not their JSON forms. The decoder of outcomes and the
-- chain, which answers the contract calls and the block numbers of a loop round by round, are
-- parameters. A request works on what its node holds and may throw; its task runs at once, as it
-- does when no other holds its locks. The package p-queue is an interface, with queues that execute
-- one entry at a time, and there is no locking service; with a locking service that gives every
-- lock in the end, entries begin later but in no other order of events than those modelled, and one
-- that refuses a lock is left out. The identifiers that uuid makes are a parameter. Logging and
-- timing are left out.
--
-- Not modelled: the deployment of the deposit holder, the texts of JSON that the key-value store
-- makes and reads (safeJsonParse and safeJsonStringify), which are a parameter there; the JSON
-- forms of the commitments and where they are kept by cf-core and by the key-value store, how a
-- message is sent and waited for, the events that are emitted but for their data, and the packages
-- around cf-core (client, node, contracts), which are calls of databases, message buses and chains.
mod Prelude
pub mod Dict
pub mod Coins
pub mod States
pub mod Ethers
pub mod Keys
pub mod AppInstance
pub mod FreeBalance
pub mod StateChannel
pub mod Commitment
pub mod Machine
pub mod Protocol
pub mod Store
pub mod Scan
pub mod Methods
pub mod Apps
mod Tests
