-- ===== src/Crypto.antt =====
-- src/crypto: cipher suites, key expansion, nonces, and the calls of the crate `ring`.
pub mod CipherSuite
pub mod Ring
pub mod Xor
pub mod Secret
pub mod KeyExpansion
pub mod Aead
