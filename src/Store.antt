-- ===== src/Store.antt =====
-- Where a node keeps its channels: what a store promises, the key-value store of modules/store, and
-- the store of modules/cf-core with what the middleware of a node persists in it.
pub mod Service
pub mod KeyValue
pub mod Memory
pub mod Persist
pub mod Lookup
pub mod Node
