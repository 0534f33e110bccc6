-- ===== src/Client.antt =====
-- libvirt.go: the client.
pub mod Lifecycle
pub mod Uri
pub mod Remote
pub mod Constants
pub mod Bindings
pub mod Operations
pub mod Login
pub mod Monitor
pub mod Subscriptions
pub mod Wired
