-- ===== src/Crypto/Aead.antt =====
-- src/crypto/aead.rs: encryption and decryption of a buffer in place, through the crate `ring`.
-- The buffer is the state of the action.
pub mod Laws
pub mod Bounds
use secure_frame_rs.Prelude.{ℕ, List, replicate, Option}
use secure_frame_rs.Outcome.{
  Outcome, ok, err, key_expansion, encryption_failure, decryption_failure,
}
use secure_frame_rs.Exec.{Exec, lift, get, put, ◌>>=◌, ◌>>◌}
use secure_frame_rs.Header.FrameCount.{FrameCount}
use secure_frame_rs.Crypto.CipherSuite.{
  CipherSuite, CipherSuiteVariant, aes_gcm128_sha256, aes_gcm256_sha512,
}
use secure_frame_rs.Crypto.Ring
use secure_frame_rs.Crypto.Ring.{Algorithm, aes_128_gcm, aes_256_gcm, nonce_len}
use secure_frame_rs.Crypto.Secret.{Secret, create_nonce}
use secure_frame_rs.Crypto.KeyExpansion.{ok_or}

-- The traits. What is called with `&mut IoBuffer` acts on the buffer as its state.
pub record AeadEncrypt (Self AuthTag : Type 0) : Type 0 where
  pub encrypt : Self → Secret → List ℕ → FrameCount → Exec (List ℕ) AuthTag

pub record AeadDecrypt (Self : Type 0) : Type 0 where
  pub decrypt : Self → Secret → List ℕ → FrameCount → Exec (List ℕ) (List ℕ)

-- The struct `FrameNonceSequence`; `advance` takes the nonce and leaves zeros.
pub record FrameNonceSequence : Type 0 where
  pub buffer : List ℕ

abbrev pub nonce_sequence : List ℕ → FrameNonceSequence
nonce_sequence buffer = record { buffer = buffer }

abbrev pub advance : FrameNonceSequence → List ℕ × FrameNonceSequence
advance sequence = (sequence.buffer, record { buffer = replicate nonce_len 0 })

abbrev pub algorithm : CipherSuiteVariant → Algorithm
algorithm aes_gcm128_sha256 = aes_128_gcm
algorithm aes_gcm256_sha512 = aes_256_gcm

module _ (ring : Ring.Ring) where
  open ring use {UnboundKey, new_unbound_key, seal_in_place, open_in_place}

  unfoldable pub unbound_encryption_key : CipherSuite → Secret → Outcome UnboundKey
  unbound_encryption_key suite secret =
      ok_or key_expansion (new_unbound_key (algorithm suite.variant) secret.key)

  -- Gives the tag; the buffer holds the ciphertext afterwards.
  unfoldable pub encrypt : CipherSuite → Secret → List ℕ → FrameCount → Exec (List ℕ) (List ℕ)
  encrypt suite secret aad frame_count = do
    key ← lift (unbound_encryption_key suite secret)
    nonce ← lift (create_nonce nonce_len secret frame_count)
    io_buffer ← get
    let sequence = nonce_sequence nonce
    let sealed = seal_in_place key (advance sequence).0 aad io_buffer
    put sealed.0
    lift (ok_or encryption_failure sealed.1)

  -- Gives the plaintext, which is the front of the buffer afterwards.
  unfoldable pub decrypt : CipherSuite → Secret → List ℕ → FrameCount → Exec (List ℕ) (List ℕ)
  decrypt suite secret aad frame_count = do
    key ← lift (unbound_encryption_key suite secret)
    nonce ← lift (create_nonce nonce_len secret frame_count)
    io_buffer ← get
    let sequence = nonce_sequence nonce
    let opened = open_in_place key (advance sequence).0 aad io_buffer
    put opened.0
    lift (ok_or decryption_failure opened.1)

  abbrev pub suite_encrypt : AeadEncrypt CipherSuite (List ℕ)
  suite_encrypt = record { encrypt = encrypt }

  abbrev pub suite_decrypt : AeadDecrypt CipherSuite
  suite_decrypt = record { decrypt = decrypt }
