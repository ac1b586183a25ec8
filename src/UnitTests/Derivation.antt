-- ===== src/UnitTests/Derivation.antt =====
-- The tests of src/crypto/key_expansion.rs, which say what HKDF makes of three key materials. Their
-- hexadecimal strings are those of the test vectors.
use secure_frame_rs.Prelude.{ℕ, ◌≡◌, ap₂, List}
use secure_frame_rs.Outcome.{Outcome, ok, err, panic, ◌>>=◌}
use secure_frame_rs.Header.Codec.{unwrap}
use secure_frame_rs.Crypto.CipherSuite.{aes_gcm128_sha256, aes_gcm256_sha512, from_variant}
use secure_frame_rs.Crypto.KeyExpansion.{expand_as_secret}
use secure_frame_rs.Crypto.Ring
use secure_frame_rs.Crypto.Secret.{Secret}
use secure_frame_rs.UnitTests.{ok-before, assert, assert_iff, bytes_eq, bytes_eq_iff}
use secure_frame_rs.UnitTests.Util.{assert_bytes_eq}
use secure_frame_rs.UnitTests.Vectors.AesGcm128
use secure_frame_rs.UnitTests.Vectors.AesGcm256
use secure_frame_rs.UnitTests.Vectors.Nonces.{
  create_correct_nonce_aes_gcm_128_sha256, create_correct_nonce_aes_gcm_256_sha512,
  create_correct_nonce_128_passes, create_correct_nonce_256_passes,
}

-- `assert_eq!` of key and salt.
abbrev assert_secret : List ℕ → List ℕ → Secret → Outcome (Unit {0})
assert_secret key salt secret = do
  _ ← assert (bytes_eq secret.key key)
  assert (bytes_eq secret.salt salt)

module _ (ring : Ring.Ring) where
  unfoldable pub derive_correct_keys : Outcome (Unit {0})
  derive_correct_keys = do
    secret ← unwrap (expand_as_secret ring AesGcm256.key_material (from_variant aes_gcm256_sha512))
    _ ← assert_bytes_eq secret.key AesGcm256.key
    assert_bytes_eq secret.salt AesGcm256.salt

  unfoldable pub derive_keys_as_ts_aes_gcm128_sha256 : Outcome (Unit {0})
  derive_keys_as_ts_aes_gcm128_sha256 = do
    expanded ←
        unwrap (expand_as_secret ring AesGcm128.key_material (from_variant aes_gcm128_sha256))
    assert_secret AesGcm128.key AesGcm128.salt expanded

  unfoldable pub derive_keys_as_ts_aes_gcm_256_sha512 : Outcome (Unit {0})
  derive_keys_as_ts_aes_gcm_256_sha512 = do
    exp ← unwrap (expand_as_secret ring AesGcm256.key_material (from_variant aes_gcm256_sha512))
    assert_secret AesGcm256.key AesGcm256.salt exp

derived :
    (key salt : List ℕ) (expanded : Outcome Secret)
    → (unwrap expanded >>= assert_secret key salt) ≡ ok tt
    → expanded ≡ ok (record { key = key; salt = salt })
derived key salt (ok secret) passes =
    let (same_key, same_salt) =
      ok-before (assert (bytes_eq secret.key key)) (assert (bytes_eq secret.salt salt)) passes in
    ap₂ (λ a b. ok (record { key = a; salt = b }))
      ((bytes_eq_iff secret.key key).0 ((assert_iff (bytes_eq secret.key key)).0 same_key))
      ((bytes_eq_iff secret.salt salt).0 ((assert_iff (bytes_eq secret.salt salt)).0 same_salt))
derived key salt (err e) passes = absurd cc
derived key salt panic passes = absurd cc

-- A crate `ring` that passes the test of the derived keys passes that of the nonces.
pub nonces_pass-128 :
    (ring : Ring.Ring)
    → derive_keys_as_ts_aes_gcm128_sha256 ring ≡ ok tt
    → create_correct_nonce_aes_gcm_128_sha256 ring ≡ ok tt
unfolding derive_keys_as_ts_aes_gcm128_sha256
nonces_pass-128 ring passes =
    create_correct_nonce_128_passes ring (derived AesGcm128.key AesGcm128.salt _ passes)

pub nonces_pass-256 :
    (ring : Ring.Ring)
    → derive_keys_as_ts_aes_gcm_256_sha512 ring ≡ ok tt
    → create_correct_nonce_aes_gcm_256_sha512 ring ≡ ok tt
unfolding derive_keys_as_ts_aes_gcm_256_sha512
nonces_pass-256 ring passes =
    create_correct_nonce_256_passes ring (derived AesGcm256.key AesGcm256.salt _ passes)
