-- ===== src/Protocol.antt =====
-- The protocols of modules/cf-core/src/protocol: how they compute the channel that both parties sign.
pub mod Install
pub mod Outcome
pub mod Uninstall
pub mod Signature
pub mod Exchange
pub mod Setup
pub mod Propose
pub mod Update
