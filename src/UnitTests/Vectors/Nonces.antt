-- ===== src/UnitTests/Vectors/Nonces.antt =====
-- The tests of src/crypto/secret.rs.
use secure_frame_rs.Prelude.{ℕ, ◌≡◌, refl, List, [], ◌∷◌}
use secure_frame_rs.Outcome.{Outcome, ok, ◌>>=◌}
use secure_frame_rs.Header.FrameCount.{from_u64, as_be_bytes}
use secure_frame_rs.Header.Util.{as_min_be_bytes, min_len_in_bytes, to_be_bytes, leading_zeros}
use secure_frame_rs.Header.Codec.{unwrap}
use secure_frame_rs.Crypto.CipherSuite.{
  CipherSuite, aes_gcm128_sha256, aes_gcm256_sha512, from_variant,
}
use secure_frame_rs.Crypto.KeyExpansion.{expand_as_secret}
use secure_frame_rs.Crypto.Ring
use secure_frame_rs.Crypto.Secret.{create_nonce, mask_loop}
use secure_frame_rs.UnitTests.Util.{assert_bytes_eq, bin2string}
use secure_frame_rs.UnitTests.Vectors.{TestVector}
use secure_frame_rs.UnitTests.Vectors.AesGcm128
use secure_frame_rs.UnitTests.Vectors.AesGcm256

abbrev nonce_len : ℕ
nonce_len = 12

module _ (ring : Ring.Ring) where
  abbrev pub test_nonce : CipherSuite → TestVector → Outcome (Unit {0})
  test_nonce cipher_suite test_vector = do
    secret ← unwrap (expand_as_secret ring test_vector.key_material cipher_suite)
    nonce ← create_nonce nonce_len secret (from_u64 test_vector.frame_count)
    assert_bytes_eq nonce test_vector.nonce

  abbrev pub test_nonces : CipherSuite → List TestVector → Outcome (Unit {0})
  test_nonces cipher_suite [] = ok tt
  test_nonces cipher_suite (v ∷ vs) = do _ ← test_nonce cipher_suite v; test_nonces cipher_suite vs

  unfoldable pub create_correct_nonce_aes_gcm_128_sha256 : Outcome (Unit {0})
  create_correct_nonce_aes_gcm_128_sha256 =
      test_nonces (from_variant aes_gcm128_sha256) AesGcm128.get_test_vectors

  unfoldable pub create_correct_nonce_aes_gcm_256_sha512 : Outcome (Unit {0})
  create_correct_nonce_aes_gcm_256_sha512 =
      test_nonces (from_variant aes_gcm256_sha512) AesGcm256.get_test_vectors

  -- The nonces of the test vectors are right with every crate `ring` that expands the vectors' key
  -- material to their secrets.
  pub create_correct_nonce_128_passes :
      expand_as_secret ring AesGcm128.key_material (from_variant aes_gcm128_sha256)
        ≡ ok (record { key = AesGcm128.key; salt = AesGcm128.salt })
      → create_correct_nonce_aes_gcm_128_sha256 ≡ ok tt
  unfolding create_correct_nonce_aes_gcm_128_sha256
  create_correct_nonce_128_passes expanded = rw expanded (
      unfold create_nonce mask_loop as_be_bytes as_min_be_bytes min_len_in_bytes to_be_bytes
        leading_zeros assert_bytes_eq bin2string in
      refl)

  pub create_correct_nonce_256_passes :
      expand_as_secret ring AesGcm256.key_material (from_variant aes_gcm256_sha512)
        ≡ ok (record { key = AesGcm256.key; salt = AesGcm256.salt })
      → create_correct_nonce_aes_gcm_256_sha512 ≡ ok tt
  unfolding create_correct_nonce_aes_gcm_256_sha512
  create_correct_nonce_256_passes expanded = rw expanded (
      unfold create_nonce mask_loop as_be_bytes as_min_be_bytes min_len_in_bytes to_be_bytes
        leading_zeros assert_bytes_eq bin2string in
      refl)
