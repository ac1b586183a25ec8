-- ===== src/Sender/Keys.antt =====
-- The sender's key.
use secure_frame_rs.Prelude.{ℕ, ◌≡◌, List, some}
use secure_frame_rs.Outcome.{ok}
use secure_frame_rs.Crypto.CipherSuite.{CipherSuiteVariant, from_variant}
use secure_frame_rs.Crypto.Ring
use secure_frame_rs.Crypto.Secret.{Secret}
use secure_frame_rs.Crypto.KeyExpansion.{
  IsSecretFor, expand_secret_from, expand_secret_from-IsSecretFor,
}
use secure_frame_rs.Sender.{Sender, set_encryption_key}

-- Setting a key always succeeds and changes only the secret, to the one that the receiver's suite
-- expands from the same material.
pub set_encryption_key_lem :
    (ring : Ring.Ring) (v : CipherSuiteVariant) (material : List ℕ) (s : Sender)
    → s.cipher_suite ≡ from_variant v
    → (secret : Secret) × IsSecretFor (from_variant v) secret
      × (expand_secret_from ring material (from_variant v) ≡ ok secret)
      × (set_encryption_key ring material s ≡ (ok tt, record s { secret = some secret }))
unfolding set_encryption_key
set_encryption_key_lem ring v material s suite =
    let (secret, done, fits) = expand_secret_from-IsSecretFor ring v material in
    (secret, fits, done, rw suite (rw done))
