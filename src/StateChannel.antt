-- ===== src/StateChannel.antt =====
-- modules/cf-core/src/models/state-channel.ts: a channel with its proposals, its apps and its free
-- balance app; its queries, its updates, and what they do to the funds and to the apps.
pub mod Channel
pub mod Json
pub mod Queries
pub mod Updates
pub mod Funds
pub mod Apps
pub mod Latest
pub mod Total
pub mod Progress
pub mod Agree
