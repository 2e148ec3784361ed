-- ===== src/Store.antt =====
-- src/state.cpp and src/state.hpp: the registry of preauth keys and nodes, with its file.
pub mod Types
pub mod Codec
pub mod Persist
pub mod Keys
pub mod Nodes
pub mod Runs
