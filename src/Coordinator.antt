-- ===== src/Coordinator.antt =====
-- src/coordinator.cpp: the coordinator, and its control connections from their first request on.
pub mod Session
pub mod Requests
pub mod Handlers
pub mod Live
pub mod Fresh
pub mod Updates
pub mod Announced
pub mod Admission
pub mod Invariant
pub mod Calls
pub mod Connection
pub mod Upgrade
pub mod Client
pub mod Serve
pub mod Served
pub mod Connections
pub mod Offline
pub mod Control
pub mod Listen
pub mod Lifecycle
