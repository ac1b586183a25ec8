-- ===== src/UnitTests/Vectors/Encryption.antt =====
-- The tests of src/crypto/aead.rs with the feature `verify-test-vectors`.
use secure_frame_rs.Prelude.{
  ℕ, ◌≤◌, ◌≡◌, ap, ◌∙◌, sym, refl, List, [], ◌∷◌, ◌++◌, All, All-append, length,
}
use secure_frame_rs.Outcome.{Outcome, ok, ◌>>=◌, slice_from}
use secure_frame_rs.Outcome.Slices.{slice_from-append}
use secure_frame_rs.Bitfield.{Msb0}
use secure_frame_rs.Header.Util.{IsByte}
use secure_frame_rs.Header.Structs.{Header, len_offset_of_vectors}
use secure_frame_rs.Header.Codec
use secure_frame_rs.Header.Codec.{frame_count, size, unwrap}
use secure_frame_rs.Crypto.Aead.{encrypt, decrypt}
use secure_frame_rs.Crypto.Aead.Laws.{Seals, encrypt-Seals}
use secure_frame_rs.Crypto.CipherSuite.{
  CipherSuiteVariant, aes_gcm128_sha256, aes_gcm256_sha512, from_variant,
}
use secure_frame_rs.Crypto.KeyExpansion.{IsSecretFor}
use secure_frame_rs.Crypto.Ring
use secure_frame_rs.Crypto.Secret.{Secret}
use secure_frame_rs.UnitTests.{ok-before}
use secure_frame_rs.UnitTests.Util.{assert_bytes_eq, assert_bytes_eq_iff}
use secure_frame_rs.UnitTests.Vectors.{TestVector}
use secure_frame_rs.UnitTests.Vectors.AesGcm128
use secure_frame_rs.UnitTests.Vectors.AesGcm256
use secure_frame_rs.UnitTests.Vectors.Headers.{header_of, for_each}

abbrev pub secret_of : TestVector → Secret
secret_of test_vector = record { key = test_vector.key; salt = test_vector.salt }

module _ (bits : Msb0) (ring : Ring.Ring) where
  unfoldable pub encrypt_test_vector : CipherSuiteVariant → TestVector → Outcome (Unit {0})
  encrypt_test_vector variant test_vector = do
    let header : Header = header_of test_vector
    header_buffer ← Codec.to_vec_with bits len_offset_of_vectors header
    let sealed =
        encrypt ring (from_variant variant) (secret_of test_vector) header_buffer
          (frame_count header) test_vector.plain_text
    tag ← unwrap sealed.0
    assert_bytes_eq (header_buffer ++ (sealed.1 ++ tag)) test_vector.cipher_text

  unfoldable pub decrypt_test_vector : CipherSuiteVariant → TestVector → Outcome (Unit {0})
  decrypt_test_vector variant test_vector = do
    let header : Header = header_of test_vector
    header_buffer ← Codec.to_vec_with bits len_offset_of_vectors header
    body ← slice_from test_vector.cipher_text (size header)
    decrypted ←
        unwrap
          (decrypt ring (from_variant variant) (secret_of test_vector) header_buffer
            (frame_count header) body).0
    assert_bytes_eq decrypted test_vector.plain_text

  abbrev pub encrypt_test_vectors_aes_gcm_128_sha256 : Outcome (Unit {0})
  encrypt_test_vectors_aes_gcm_128_sha256 =
      for_each (encrypt_test_vector aes_gcm128_sha256) AesGcm128.get_test_vectors

  abbrev pub should_decrypt_test_vectors_aes_gcm_128_sha256 : Outcome (Unit {0})
  should_decrypt_test_vectors_aes_gcm_128_sha256 =
      for_each (decrypt_test_vector aes_gcm128_sha256) AesGcm128.get_test_vectors

  abbrev pub encrypt_test_vectors_aes_gcm_256_sha512 : Outcome (Unit {0})
  encrypt_test_vectors_aes_gcm_256_sha512 =
      for_each (encrypt_test_vector aes_gcm256_sha512) AesGcm256.get_test_vectors

  abbrev pub should_decrypt_test_vectors_aes_gcm_256_sha512 : Outcome (Unit {0})
  should_decrypt_test_vectors_aes_gcm_256_sha512 =
      for_each (decrypt_test_vector aes_gcm256_sha512) AesGcm256.get_test_vectors

-- A vector of bytes for a suite, whose header is written as it says.
pub record IsVector (bits : Msb0) (v : CipherSuiteVariant) (max : ℕ) (t : TestVector) : Type 0 where
  pub secret_fits : IsSecretFor (from_variant v) (secret_of t)
  pub short : length t.plain_text ≤ max
  pub plain_bytes : All IsByte t.plain_text
  pub cipher_bytes : All IsByte t.cipher_text
  pub header_bytes : All IsByte t.header
  pub header : Codec.to_vec_with bits len_offset_of_vectors (header_of t) ≡ ok t.header
  pub header_size : length t.header ≡ size (header_of t)

module _ (bits : Msb0) (ring : Ring.Ring) where
  -- A vector of bytes that `ring` encrypts as it says is decrypted as it says.
  pub decrypt-encrypt_test_vector :
      (v : CipherSuiteVariant) (t : TestVector)
      → IsVector bits v (Ring.Ring.max_plaintext_len ring) t
      → encrypt_test_vector bits ring v t ≡ ok tt
      → decrypt_test_vector bits ring v t ≡ ok tt
  unfolding encrypt_test_vector decrypt_test_vector
  decrypt-encrypt_test_vector v t is passes =
      let c = frame_count (header_of t) in
      let sealed : Seals ring (from_variant v) (secret_of t) t.header c t.plain_text =
        encrypt-Seals ring v (secret_of t) t.header c t.plain_text is.secret_fits is.short
          is.plain_bytes in
      let body : List ℕ = sealed.cipher ++ sealed.tag in
      let runs : encrypt_test_vector bits ring v t
          ≡ assert_bytes_eq (t.header ++ body) t.cipher_text =
        rw is.header (rw sealed.encrypts refl) in
      let same : t.header ++ body ≡ t.cipher_text =
        (assert_bytes_eq_iff (t.header ++ body) t.cipher_text
            (All-append IsByte t.header body is.header_bytes
              (All-append IsByte sealed.cipher sealed.tag sealed.cipher_bytes sealed.tag_bytes))
            is.cipher_bytes).0
          (sym runs ∙ passes) in
      let at : slice_from t.cipher_text (size (header_of t)) ≡ ok body =
        ap (λ l. slice_from l (size (header_of t))) (sym same)
        ∙ slice_from-append t.header body (size (header_of t)) is.header_size in
      rw is.header (
        rw at (
          rw sealed.decrypts
            ((assert_bytes_eq_iff t.plain_text t.plain_text is.plain_bytes is.plain_bytes).1 refl)))

  -- If `ring` encrypts all vectors of a list as they say, it decrypts all of them as they say.
  pub for_each-decrypt_test_vector :
      (v : CipherSuiteVariant) (ts : List TestVector)
      → All (IsVector bits v (Ring.Ring.max_plaintext_len ring)) ts
      → for_each (encrypt_test_vector bits ring v) ts ≡ ok tt
      → for_each (decrypt_test_vector bits ring v) ts ≡ ok tt
  for_each-decrypt_test_vector v [] are passes = refl
  for_each-decrypt_test_vector v (t ∷ ts) are passes =
      let (first, rest) =
        ok-before (encrypt_test_vector bits ring v t)
          (for_each (encrypt_test_vector bits ring v) ts) passes in
      rw (decrypt-encrypt_test_vector v t are.0 first)
        (for_each-decrypt_test_vector v ts are.1 rest)
