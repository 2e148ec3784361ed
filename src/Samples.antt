-- ===== src/Samples.antt =====
-- Small concrete stand-ins for OpenSSL, inet_pton and nlohmann::json, on which the tests run.
pub mod Values
pub mod Addresses
pub mod Ciphers
pub use Values.{sample_json}
pub use Addresses.{sample_inet}
pub use Ciphers.{sample_primitives, sum, padded}
