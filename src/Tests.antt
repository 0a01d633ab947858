-- ===== src/Tests.antt =====
-- Concrete channels and runs: the theorems at inputs that meet their hypotheses.
pub mod Fixture
pub mod Evaluation
mod Funds
pub mod Life
mod Model
mod Order
pub mod Signing
mod Protocols
pub mod Installation
pub mod Stores
mod Apps
mod Node
mod Queue
pub mod Requests
mod Handled
mod Messages
mod Scan
