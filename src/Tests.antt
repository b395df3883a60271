-- ===== src/Tests.antt =====
-- Runs of the model at concrete inputs, and every theorem applied at one.
pub mod Fixture
pub mod Parts
pub mod Accounts
pub mod Messages
pub mod Buffers
pub mod Drains
pub mod GroupServer
pub mod App
pub mod GroupRuns
