-- ===== src/UnitTests/Vectors.antt =====
-- src/test_vectors.rs: what a test vector has.
pub mod AesGcm128
pub mod AesGcm256
pub mod Nonces
pub mod Headers
pub mod Encryption
mod Runs
use secure_frame_rs.Prelude.{ℕ, List}
use secure_frame_rs.Crypto.CipherSuite.{CipherSuiteVariant}

pub record TestVector : Type 0 where
  pub cipher_suite_variant : CipherSuiteVariant
  pub key_material : List ℕ
  pub key : List ℕ
  pub salt : List ℕ
  pub plain_text : List ℕ
  pub key_id : ℕ
  pub frame_count : ℕ
  pub header : List ℕ
  pub nonce : List ℕ
  pub cipher_text : List ℕ
