-- ===== src/UnitTests/Vectors/Runs.antt =====
-- The vectors of both suites: a crate `ring` that passes the tests of encryption passes those of
-- decryption.
use secure_frame_rs.Prelude.{
  List, [], ◌∷◌, Bool, false, ◌==◌, ◌&&◌, ap, ℕ, ◌≤◌, ◌≡◌, refl, arith, All, length, true,
}
use secure_frame_rs.KeyId
use secure_frame_rs.Outcome.{Outcome, ok, err, panic}
use secure_frame_rs.Header.Util.{as_min_be_bytes, min_len_in_bytes, to_be_bytes, leading_zeros}
use secure_frame_rs.Header.FrameCount.{length_in_bytes, as_be_bytes}
use secure_frame_rs.Header.Basic
use secure_frame_rs.Header.Extended
use secure_frame_rs.Header.Loops.{for_enumerate}
use secure_frame_rs.Header.Structs.{len_offset_of_vectors}
use secure_frame_rs.Header.Codec
use secure_frame_rs.Header.Codec.{with_frame_count, size}
use secure_frame_rs.Crypto.CipherSuite.{
  CipherSuiteVariant, aes_gcm128_sha256, aes_gcm256_sha512, from_variant,
}
use secure_frame_rs.Crypto.Ring
use secure_frame_rs.UnitTests.{are_bytes, are_bytes-IsByte, bytes_eq, bytes_eq_iff}
use secure_frame_rs.UnitTests.Vectors.{TestVector}
use secure_frame_rs.UnitTests.Vectors.AesGcm128
use secure_frame_rs.UnitTests.Vectors.AesGcm256
use secure_frame_rs.UnitTests.Vectors.Headers.{header_of}
use secure_frame_rs.UnitTests.Vectors.Encryption.{
  IsVector, encrypt_test_vectors_aes_gcm_128_sha256, encrypt_test_vectors_aes_gcm_256_sha512,
  should_decrypt_test_vectors_aes_gcm_128_sha256, should_decrypt_test_vectors_aes_gcm_256_sha512,
  for_each-decrypt_test_vector,
}
use secure_frame_rs.Examples.Bits.{example_bits}

-- Whether a call gave these bytes.
abbrev gave : Outcome (List ℕ) → List ℕ → Bool
gave (ok out) bytes = bytes_eq out bytes
gave (err e) bytes = false
gave panic bytes = false

gave_iff : (o : Outcome (List ℕ)) (bytes : List ℕ) → gave o bytes ≡ true → o ≡ ok bytes
gave_iff (ok out) bytes e = ap ok ((bytes_eq_iff out bytes).0 e)
gave_iff (err x) bytes e = absurd cc
gave_iff panic bytes e = absurd cc

-- What the tests need of a vector, as a test.
abbrev has_lengths : CipherSuiteVariant → TestVector → Bool
has_lengths v t =
    (length t.key == (from_variant v).key_len)
    && ((length t.salt == (from_variant v).nonce_len)
        && ((length t.plain_text == 51) && (length t.header == size (header_of t))))

abbrev has_bytes : TestVector → Bool
has_bytes t = are_bytes t.plain_text && (are_bytes t.cipher_text && are_bytes t.header)

abbrev are_vectors : CipherSuiteVariant → List TestVector → Bool
are_vectors v [] = true
are_vectors v (t ∷ ts) =
    (has_lengths v t
      && (has_bytes t
          && gave (Codec.to_vec_with example_bits len_offset_of_vectors (header_of t)) t.header))
    && are_vectors v ts

both_true : (a b : Bool) → (a && b) ≡ true → (a ≡ true) × (b ≡ true)
both_true true b e = (refl, e)
both_true false b e = absurd cc

are_vectors-IsVector :
    (v : CipherSuiteVariant) (max : ℕ) (ts : List TestVector)
    → 51 ≤ max
    → are_vectors v ts ≡ true
    → All (IsVector example_bits v max) ts
are_vectors-IsVector v max [] enough e = tt
are_vectors-IsVector v max (t ∷ ts) enough e =
    let (this, others) = both_true _ (are_vectors v ts) e in
    let (lengths, more) = both_true (has_lengths v t) _ this in
    let (bytes, written) = both_true (has_bytes t) _ more in
    let (plain, bytes') = both_true (are_bytes t.plain_text) _ bytes in
    let (cipher, header) = both_true (are_bytes t.cipher_text) (are_bytes t.header) bytes' in
    (
      record {
        secret_fits = record {
          key_fits = ground (arith, lengths);
          salt_fits = ground (arith, lengths);
        };
        short = ground (arith, lengths, enough);
        plain_bytes = are_bytes-IsByte t.plain_text plain;
        cipher_bytes = are_bytes-IsByte t.cipher_text cipher;
        header_bytes = are_bytes-IsByte t.header header;
        header =
            gave_iff (Codec.to_vec_with example_bits len_offset_of_vectors (header_of t)) t.header
              written;
        header_size = ground (arith, lengths);
      },
      are_vectors-IsVector v max ts enough others,
    )

are_vectors-128 : are_vectors aes_gcm128_sha256 AesGcm128.get_test_vectors ≡ true
unfolding Codec.to_vec_with Codec.serialize_with size with_frame_count KeyId.from_u64 Basic.size
    Basic.serialize_with Extended.size Extended.serialize_with length_in_bytes as_be_bytes
    as_min_be_bytes min_len_in_bytes to_be_bytes leading_zeros for_enumerate
are_vectors-128 = refl

are_vectors-256 : are_vectors aes_gcm256_sha512 AesGcm256.get_test_vectors ≡ true
unfolding Codec.to_vec_with Codec.serialize_with size with_frame_count KeyId.from_u64 Basic.size
    Basic.serialize_with Extended.size Extended.serialize_with length_in_bytes as_be_bytes
    as_min_be_bytes min_len_in_bytes to_be_bytes leading_zeros for_enumerate
are_vectors-256 = refl

-- With every crate `ring` that can seal the vectors' text.
should_decrypt_128 :
    (ring : Ring.Ring)
    → 51 ≤ Ring.Ring.max_plaintext_len ring
    → encrypt_test_vectors_aes_gcm_128_sha256 example_bits ring ≡ ok tt
    → should_decrypt_test_vectors_aes_gcm_128_sha256 example_bits ring ≡ ok tt
should_decrypt_128 ring enough =
    for_each-decrypt_test_vector example_bits ring aes_gcm128_sha256 AesGcm128.get_test_vectors (
      are_vectors-IsVector aes_gcm128_sha256 (Ring.Ring.max_plaintext_len ring)
        AesGcm128.get_test_vectors enough are_vectors-128)

should_decrypt_256 :
    (ring : Ring.Ring)
    → 51 ≤ Ring.Ring.max_plaintext_len ring
    → encrypt_test_vectors_aes_gcm_256_sha512 example_bits ring ≡ ok tt
    → should_decrypt_test_vectors_aes_gcm_256_sha512 example_bits ring ≡ ok tt
should_decrypt_256 ring enough =
    for_each-decrypt_test_vector example_bits ring aes_gcm256_sha512 AesGcm256.get_test_vectors (
      are_vectors-IsVector aes_gcm256_sha512 (Ring.Ring.max_plaintext_len ring)
        AesGcm256.get_test_vectors enough are_vectors-256)
