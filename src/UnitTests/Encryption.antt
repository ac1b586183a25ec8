-- ===== src/UnitTests/Encryption.antt =====
-- The test of src/crypto/aead.rs that the default build has; the random bytes are an argument.
use secure_frame_rs.Prelude.{ℕ, ◌≡◌, ◌≤◌, refl, arith, List, [], ◌∷◌, All, length}
use secure_frame_rs.Outcome.{Outcome, ok, ◌>>=◌}
use secure_frame_rs.Bitfield.{Msb0}
use secure_frame_rs.Header.Util.{IsByte}
use secure_frame_rs.Header.Structs.{Header, IsHeader}
use secure_frame_rs.Header.Codec
use secure_frame_rs.Header.Codec.{unwrap, to_vec}
use secure_frame_rs.Header.Codec.RoundTrip.{encode, to_vec_lem}
use secure_frame_rs.Crypto.Aead.{encrypt}
use secure_frame_rs.Crypto.Aead.Laws.{Seals, encrypt-Seals}
use secure_frame_rs.Crypto.CipherSuite.{CipherSuite, aes_gcm256_sha512, from_variant}
use secure_frame_rs.Crypto.KeyExpansion.{expand_as_secret, expand_secret_from-IsSecretFor}
use secure_frame_rs.Crypto.Ring
use secure_frame_rs.Crypto.Ring.{tag_len}

-- THIS_IS_RANDOM
abbrev key_material : List ℕ
key_material = 84 ∷ 72 ∷ 73 ∷ 83 ∷ 95 ∷ 73 ∷ 83 ∷ 95 ∷ 82 ∷ 65 ∷ 78 ∷ 68 ∷ 79 ∷ 77 ∷ []

module _ (bits : Msb0) (ring : Ring.Ring) where
  unfoldable pub encrypt_random_frame : List ℕ → Outcome (List ℕ)
  encrypt_random_frame frame = do
    let header : Header = Codec.default
    let cipher_suite : CipherSuite = from_variant aes_gcm256_sha512
    secret ← unwrap (expand_as_secret ring key_material cipher_suite)
    aad ← to_vec bits header
    unwrap (encrypt ring cipher_suite secret aad (Codec.frame_count header) frame).0

  default-IsHeader : IsHeader Codec.default
  unfolding Codec.default
  default-IsHeader = (omega arith, omega arith)

  -- The test `encrypt_random_frame` passes for every frame of bytes that the crate `ring` can seal.
  pub encrypt_random_frame_passes :
      (frame : List ℕ)
      → length frame ≤ Ring.Ring.max_plaintext_len ring
      → All IsByte frame
      → (tag : List ℕ) × (encrypt_random_frame frame ≡ ok tag) × (length tag ≡ tag_len)
  unfolding encrypt_random_frame
  encrypt_random_frame_passes frame short bytes =
      let (secret, expanded, fits) =
        expand_secret_from-IsSecretFor ring aes_gcm256_sha512 key_material in
      let sealed : Seals ring (from_variant aes_gcm256_sha512) secret (encode Codec.default)
          (Codec.frame_count Codec.default) frame =
        encrypt-Seals ring aes_gcm256_sha512 secret (encode Codec.default)
          (Codec.frame_count Codec.default) frame fits short bytes in
      (
        sealed.tag,
        rw expanded (rw (to_vec_lem bits Codec.default default-IsHeader) (rw sealed.encrypts refl)),
        sealed.length_tag,
      )
