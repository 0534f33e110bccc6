-- ===== src/Rpc.antt =====
-- rpc.go: requests and their responses, events and their streams.
pub mod Errors
pub mod Callbacks
pub mod Events
pub mod Route
pub mod Request
pub mod Transfer
pub mod Serial
pub mod TypedParam
