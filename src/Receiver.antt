-- ===== src/Receiver.antt =====
-- src/receiver.rs: the receiver. Logging is left out.
pub mod Secrets
pub mod Frames
pub mod Refusals
pub mod Keys
pub mod WellFormed
pub mod Total
pub mod Reachable
pub mod KeyMap
pub mod Observed
pub mod Described
pub mod Padded
pub mod Blocked
pub mod Service
pub mod Forged
use secure_frame_rs.Prelude.{
  ℕ, ◌+◌, List, [], ◌++◌, Bool, true, false, Option, some, none, length, take,
}
use secure_frame_rs.KeyId.{KeyId}
use secure_frame_rs.Outcome.{missing_decryption_key, slice_to, slice_from, sub_checked}
use secure_frame_rs.Exec.{Exec, pure, raise, lift, get, put, zoom, ◌>>=◌, ◌>>◌}
use secure_frame_rs.Bitfield.{Msb0}
use secure_frame_rs.Header.Structs.{Header}
use secure_frame_rs.Header.Codec
use secure_frame_rs.FrameValidation.{
  ReplayAttackProtection, with_tolerance, replay_attack_protection,
}
use secure_frame_rs.Crypto.CipherSuite.{
  CipherSuite, CipherSuiteVariant, aes_gcm256_sha512, from_variant,
}
use secure_frame_rs.Crypto.Ring
use secure_frame_rs.Crypto.Secret.{Secret}
use secure_frame_rs.Crypto.KeyExpansion.{expand_as_secret}
use secure_frame_rs.Crypto.Aead

-- The trait object holds the one implementation of `FrameValidation`, as both constructors set it.
pub record ReceiverOptions : Type 0 where
  pub cipher_suite : CipherSuite
  pub frame_validation : ReplayAttackProtection

pub record Receiver : Type 0 where
  pub secrets : List (KeyId × Secret)
  pub options : ReceiverOptions
  pub buffer : List ℕ

abbrev pub default_options : ReceiverOptions
default_options = record {
  cipher_suite = from_variant aes_gcm256_sha512;
  frame_validation = with_tolerance 128;
}

abbrev pub default : Receiver
default = record { secrets = []; options = default_options; buffer = [] }

abbrev pub with_cipher_suite : CipherSuiteVariant → Receiver
with_cipher_suite variant = record {
  secrets = [];
  options = record { cipher_suite = from_variant variant; frame_validation = with_tolerance 128 };
  buffer = [];
}

-- `self.buffer.clear()` and `self.buffer.extend(..)`
abbrev pub clear : Exec Receiver (Unit {0})
clear = do r ← get; put (record r { buffer = [] })

abbrev pub extend : List ℕ → Exec Receiver (Unit {0})
extend bytes = do r ← get; put (record r { buffer = r.buffer ++ bytes })

abbrev pub set_validation : ReplayAttackProtection → Receiver → Receiver
set_validation p r = record r { options = record r.options { frame_validation = p } }

module _ (bits : Msb0) (ring : Ring.Ring) where
  unfoldable pub decrypt_with : Secret → Header → List ℕ → ℕ → Exec Receiver (List ℕ)
  decrypt_with secret header encrypted_frame skip = do
    let payload_begin = skip + Codec.size header
    clear
    skipped ← lift (slice_to encrypted_frame skip)
    extend skipped
    encrypted ← lift (slice_from encrypted_frame payload_begin)
    extend encrypted
    r ← get
    io_buffer ← lift (slice_from r.buffer skip)
    front ← lift (slice_to encrypted_frame payload_begin)
    aad ← lift (slice_from front skip)
    zoom (λ _. io_buffer) (λ io t. record t { buffer = take skip r.buffer ++ io })
        ((Aead.suite_decrypt ring).decrypt r.options.cipher_suite secret aad
          (Codec.frame_count header))
    done ← get
    payload_end ← lift (sub_checked (length done.buffer) done.options.cipher_suite.auth_tag_len)
    lift (slice_to done.buffer payload_end)

  abbrev pub decrypt_by : Option Secret → Header → List ℕ → ℕ → Exec Receiver (List ℕ)
  decrypt_by none header encrypted_frame skip = raise (missing_decryption_key (Codec.key_id header))
  decrypt_by (some secret) header encrypted_frame skip =
      decrypt_with secret header encrypted_frame skip

  unfoldable pub decrypt : List ℕ → ℕ → Exec Receiver (List ℕ)
  decrypt encrypted_frame skip = do
    received ← lift (slice_from encrypted_frame skip)
    header ← lift (Codec.deserialize bits received)
    zoom (λ r. r.options.frame_validation) set_validation (replay_attack_protection.validate header)
    r ← get
    decrypt_by (Secrets.get (Codec.key_id header) r.secrets) header encrypted_frame skip

unfoldable pub set_encryption_key : Ring.Ring → KeyId → List ℕ → Exec Receiver (Unit {0})
set_encryption_key ring key_id key_material = do
  r ← get
  secret ← lift (expand_as_secret ring key_material r.options.cipher_suite)
  put (record r { secrets = Secrets.insert key_id secret r.secrets })

abbrev pub is_some {ℓ} : {A : Type ℓ} → Option A → Bool
is_some none = false
is_some (some a) = true

unfoldable pub remove_encryption_key : KeyId → Exec Receiver Bool
remove_encryption_key key_id = do
  r ← get
  put (record r { secrets = Secrets.without key_id r.secrets })
  pure (is_some (Secrets.get key_id r.secrets))
