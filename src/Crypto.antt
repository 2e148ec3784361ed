-- ===== src/Crypto.antt =====
-- src/crypto.cpp.
pub mod Hex
pub mod Clamp
pub mod Primitives
pub mod Hkdf
pub mod Base64
pub mod Openssl
