-- ===== src/Crypto/Aead/Laws.antt =====
-- Decryption undoes encryption.
use secure_frame_rs.Prelude.{ℕ, ◌≤◌, ◌≡◌, ◌∙◌, refl, arith, List, ◌++◌, length, All}
use secure_frame_rs.Outcome.{ok}
use secure_frame_rs.Header.Util.{IsByte}
use secure_frame_rs.Header.FrameCount.{FrameCount}
use secure_frame_rs.Crypto.CipherSuite.{
  CipherSuite, CipherSuiteVariant, aes_gcm128_sha256, aes_gcm256_sha512, from_variant,
}
use secure_frame_rs.Crypto.Ring
use secure_frame_rs.Crypto.Ring.{key_len, tag_len, nonce_len}
use secure_frame_rs.Crypto.Secret.{Secret, create_nonce}
use secure_frame_rs.Crypto.Secret.Nonce.{create_nonce_lem, nonce_bytes}
use secure_frame_rs.Crypto.KeyExpansion.{IsSecretFor}
use secure_frame_rs.Crypto.Aead.{algorithm, unbound_encryption_key, encrypt, decrypt}

-- The suites ask for keys of the length that their algorithm takes.
key_len-variant :
    (v : CipherSuiteVariant)
    → (from_variant v).key_len ≡ key_len (algorithm (from_variant v).variant)
key_len-variant aes_gcm128_sha256 = refl
key_len-variant aes_gcm256_sha512 = refl

pub nonce_len-variant : (v : CipherSuiteVariant) → nonce_len ≤ (from_variant v).nonce_len
nonce_len-variant aes_gcm128_sha256 = omega arith
nonce_len-variant aes_gcm256_sha512 = omega arith

-- What one encryption comes to, with the decryption that undoes it.
pub record Seals (ring : Ring.Ring) (suite : CipherSuite) (secret : Secret) (aad : List ℕ)
    (c : FrameCount) (text : List ℕ) : Type 0 where
  pub cipher : List ℕ
  pub tag : List ℕ
  pub rest : List ℕ
  pub encrypts : encrypt ring suite secret aad c text ≡ (ok tag, cipher)
  pub decrypts : decrypt ring suite secret aad c (cipher ++ tag) ≡ (ok text, text ++ rest)
  pub length_cipher : length cipher ≡ length text
  pub length_tag : length tag ≡ tag_len
  pub length_rest : length rest ≡ tag_len
  pub cipher_bytes : All IsByte cipher
  pub tag_bytes : All IsByte tag

module _ (ring : Ring.Ring) where
  open ring use {
    UnboundKey, new_unbound_key, seal_in_place, max_plaintext_len, new_unbound_key_lem,
    seal_in_place_lem, open_in_place_lem,
  }

  -- With a secret whose key and salt have a suite's lengths, encryption succeeds on every text of
  -- bytes that ring can seal, with a ciphertext of the text's length and a tag of 16 bytes, and
  -- decryption of both under the same count and associated data returns the text.
  pub encrypt-Seals :
      (v : CipherSuiteVariant) (secret : Secret) (aad : List ℕ) (c : FrameCount) (text : List ℕ)
      → IsSecretFor (from_variant v) secret
      → length text ≤ max_plaintext_len
      → All IsByte text
      → Seals ring (from_variant v) secret aad c text
  encrypt-Seals v secret aad c text fits short bytes =
      let suite : CipherSuite = from_variant v in
      let (key, key_is) =
        new_unbound_key_lem (algorithm suite.variant) secret.key
          (fits.key_fits ∙ key_len-variant v) in
      let key_ok : unbound_encryption_key ring suite secret ≡ ok key =
        unfold unbound_encryption_key in rw key_is in
      let nonce : List ℕ = nonce_bytes nonce_len secret c in
      let nonce_ok : create_nonce nonce_len secret c ≡ ok nonce =
        create_nonce_lem nonce_len secret c
          (let e : nonce_len ≤ suite.nonce_len = nonce_len-variant v in rw fits.salt_fits e) in
      let (cipher, tag, sealed, cipher_len, tag_is, cipher_ok, tag_ok) =
        seal_in_place_lem key nonce aad text short bytes in
      let (rest, opened, rest_len) = open_in_place_lem key nonce aad text cipher tag sealed in
      record {
        cipher = cipher;
        tag = tag;
        rest = rest;
        encrypts = unfold encrypt in rw key_ok (rw nonce_ok (rw sealed));
        decrypts = unfold decrypt in rw key_ok (rw nonce_ok (rw opened));
        length_cipher = cipher_len;
        length_tag = tag_is;
        length_rest = rest_len ∙ tag_is;
        cipher_bytes = cipher_ok;
        tag_bytes = tag_ok;
      }
