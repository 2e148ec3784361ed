-- ===== src/Tests.antt =====
-- The laws of the library at concrete inputs, with the stand-ins of Samples.
pub mod Addresses
pub mod Announced
pub mod Clients
pub mod Connections
pub mod Handshake
pub mod Joining
pub mod KeyTexts
pub mod Lifecycle
pub mod Maps
pub mod Nodes
pub mod Preauth
pub mod Questions
pub mod Records
pub mod Runs
pub mod Saved
pub mod Serving
pub mod Streams
pub mod Transfer
pub mod Ticks
pub mod Upgrade
