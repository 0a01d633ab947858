-- ===== src/Apps.antt =====
-- The checks of the proposals of apps that a client or a node supports: modules/apps/src.
pub mod Validation
pub mod Transfers
pub mod Swap
