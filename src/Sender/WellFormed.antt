-- ===== src/Sender/WellFormed.antt =====
-- The senders that the constructors and the operations lead to.
use secure_frame_rs.Prelude.{ℕ, ◌≡◌, ◌≤◌, refl, arith, List, some, some-injective, length}
use secure_frame_rs.KeyId.{KeyId, InRange}
use secure_frame_rs.Header.FrameCount.Wheel.{IsOnWheel}
use secure_frame_rs.Crypto.CipherSuite.{CipherSuiteVariant, from_variant}
use secure_frame_rs.Crypto.Ring
use secure_frame_rs.Crypto.Ring.{nonce_len}
use secure_frame_rs.Crypto.Secret.{Secret}
use secure_frame_rs.Crypto.KeyExpansion.{IsSecretFor}
use secure_frame_rs.Crypto.Aead.Laws.{nonce_len-variant}
use secure_frame_rs.Sender.{Sender, with_cipher_suite, set_encryption_key}
use secure_frame_rs.Sender.Keys.{set_encryption_key_lem}

-- The suite is one of the program's, the secret, if there is one, has the lengths of that suite, the key
-- id is a u8 or a u64, and the next count is below 2^64 - 1.
pub record IsWellFormed (v : CipherSuiteVariant) (s : Sender) : Type 0 where
  pub suite : s.cipher_suite ≡ from_variant v
  pub keyed : (secret : Secret) → s.secret ≡ some secret → IsSecretFor (from_variant v) secret
  pub key_in_range : InRange s.key_id
  pub on_wheel : IsOnWheel s.frame_count

pub has_salt :
    (v : CipherSuiteVariant) (s : Sender) (secret : Secret)
    → IsWellFormed v s
    → s.secret ≡ some secret
    → nonce_len ≤ length secret.salt
has_salt v s secret formed found =
    omega (arith, (formed.keyed secret found).salt_fits, nonce_len-variant v)

-- A new sender is well formed.
pub with_cipher_suite-IsWellFormed :
    (v : CipherSuiteVariant) (k : KeyId) → InRange k → IsWellFormed v (with_cipher_suite k v)
with_cipher_suite-IsWellFormed v k fits = record {
  suite = refl;
  keyed = λ secret found. absurd cc;
  key_in_range = fits;
  on_wheel = omega arith;
}

-- Setting a key keeps a sender well formed.
pub set_encryption_key-IsWellFormed :
    (ring : Ring.Ring) (v : CipherSuiteVariant) (material : List ℕ) (s : Sender)
    → IsWellFormed v s
    → IsWellFormed v (set_encryption_key ring material s).1
set_encryption_key-IsWellFormed ring v material s formed =
    let (secret, fits, expanded, done) = set_encryption_key_lem ring v material s formed.suite in
    rw done (record {
      suite = formed.suite;
      keyed = λ other found. let is : secret ≡ other = some-injective found in rw (← is) fits;
      key_in_range = formed.key_in_range;
      on_wheel = formed.on_wheel;
    })
