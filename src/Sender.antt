-- ===== src/Sender.antt =====
-- src/sender.rs: the sender. Logging is left out.
pub mod Frames
pub mod Keys
pub mod Nonces
pub mod Refusals
pub mod Overhead
pub mod WellFormed
pub mod Described
pub mod Reached
use secure_frame_rs.Prelude.{ℕ, ◌+◌, List, [], ◌++◌, Option, some, none}
use secure_frame_rs.KeyId.{KeyId}
use secure_frame_rs.Outcome.{missing_encryption_key, slice_to, slice_from}
use secure_frame_rs.Exec.{Exec, pure, raise, lift, get, put, zoom, ◌>>=◌, ◌>>◌}
use secure_frame_rs.Bitfield.{Msb0}
use secure_frame_rs.Header.FrameCount.{FrameCount, FrameCountGenerator, new_generator, increment}
use secure_frame_rs.Header.Codec
use secure_frame_rs.Crypto.CipherSuite.{
  CipherSuite, CipherSuiteVariant, aes_gcm256_sha512, from_variant,
}
use secure_frame_rs.Crypto.Ring
use secure_frame_rs.Crypto.Secret.{Secret}
use secure_frame_rs.Crypto.KeyExpansion.{expand_as_secret}
use secure_frame_rs.Crypto.Aead

pub record Sender : Type 0 where
  pub frame_count : FrameCountGenerator
  pub key_id : KeyId
  pub cipher_suite : CipherSuite
  pub secret : Option Secret
  pub buffer : List ℕ

abbrev pub with_cipher_suite : KeyId → CipherSuiteVariant → Sender
with_cipher_suite key_id variant = record {
  frame_count = new_generator;
  key_id = key_id;
  cipher_suite = from_variant variant;
  secret = none;
  buffer = [];
}

abbrev pub new : KeyId → Sender
new key_id = with_cipher_suite key_id aes_gcm256_sha512

-- `self.frame_count.increment()`
abbrev pub next_frame_count : Exec Sender FrameCount
next_frame_count = do
  s ← get
  stepped ← lift (increment s.frame_count)
  put (record s { frame_count = stepped.1 })
  pure stepped.0

-- `self.buffer.clear()` and `self.buffer.extend(..)`
abbrev pub clear : Exec Sender (Unit {0})
clear = do s ← get; put (record s { buffer = [] })

abbrev pub extend : List ℕ → Exec Sender (Unit {0})
extend bytes = do s ← get; put (record s { buffer = s.buffer ++ bytes })

module _ (bits : Msb0) (ring : Ring.Ring) where
  unfoldable pub encrypt_with : Secret → List ℕ → ℕ → Exec Sender (List ℕ)
  encrypt_with secret unencrypted_payload skip = do
    frame_count ← next_frame_count
    s ← get
    let header = Codec.with_frame_count s.key_id frame_count
    skipped_payload ← lift (slice_to unencrypted_payload skip)
    to_be_encrypted_payload ← lift (slice_from unencrypted_payload skip)
    clear
    extend skipped_payload
    header_bytes ← lift (Codec.to_vec bits header)
    extend header_bytes
    extend to_be_encrypted_payload
    frame ← get
    leading_buffer ← lift (slice_to frame.buffer (skip + Codec.size header))
    encrypt_buffer ← lift (slice_from frame.buffer (skip + Codec.size header))
    aad ← lift (slice_from leading_buffer skip)
    tag ←
        zoom (λ _. encrypt_buffer) (λ io t. record t { buffer = leading_buffer ++ io })
          ((Aead.suite_encrypt ring).encrypt s.cipher_suite secret aad (Codec.frame_count header))
    extend tag
    done ← get
    pure done.buffer

  abbrev pub encrypt_by : Option Secret → List ℕ → ℕ → Exec Sender (List ℕ)
  encrypt_by none unencrypted_payload skip = raise missing_encryption_key
  encrypt_by (some secret) unencrypted_payload skip = encrypt_with secret unencrypted_payload skip

  unfoldable pub encrypt : List ℕ → ℕ → Exec Sender (List ℕ)
  encrypt unencrypted_payload skip = do s ← get; encrypt_by s.secret unencrypted_payload skip

unfoldable pub set_encryption_key : Ring.Ring → List ℕ → Exec Sender (Unit {0})
set_encryption_key ring key_material = do
  s ← get
  secret ← lift (expand_as_secret ring key_material s.cipher_suite)
  put (record s { secret = some secret })
