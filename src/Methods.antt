-- ===== src/Methods.antt =====
-- The requests that a node serves: modules/cf-core/src/methods, process-queue.ts and
-- message-handling.
pub mod Queue
pub mod Request
pub mod Params
pub mod Initiate
pub mod Install
pub mod Uninstall
pub mod Actions
pub mod Deposit
pub mod Messages
pub mod Channels
