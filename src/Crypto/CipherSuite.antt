-- ===== src/Crypto/CipherSuite.antt =====
-- src/crypto/cipher_suite.rs: the cipher suites and their lengths.
use secure_frame_rs.Prelude.{ℕ}

pub data CipherSuiteVariant : Type 0 where
  aes_gcm128_sha256 aes_gcm256_sha512 : CipherSuiteVariant

pub record CipherSuite : Type 0 where
  pub variant : CipherSuiteVariant
  pub hash_len : ℕ
  pub key_len : ℕ
  pub nonce_len : ℕ
  pub auth_tag_len : ℕ

abbrev pub from_variant : CipherSuiteVariant → CipherSuite
from_variant aes_gcm128_sha256 = record {
  variant = aes_gcm128_sha256;
  hash_len = 32;
  key_len = 16;
  nonce_len = 12;
  auth_tag_len = 8;
}
from_variant aes_gcm256_sha512 = record {
  variant = aes_gcm256_sha512;
  hash_len = 64;
  key_len = 32;
  nonce_len = 12;
  auth_tag_len = 16;
}
