-- ===== src/Receiver/Keys.antt =====
-- The receiver's keys.
use secure_frame_rs.Prelude.{ℕ, ◌≡◌, refl, List, some, none, if◌then◌else◌}
use secure_frame_rs.KeyId.{KeyId}
use secure_frame_rs.Outcome.{ok}
use secure_frame_rs.Crypto.CipherSuite.{CipherSuiteVariant, from_variant}
use secure_frame_rs.Crypto.Ring
use secure_frame_rs.Crypto.Secret.{Secret}
use secure_frame_rs.Crypto.KeyExpansion.{
  IsSecretFor, expand_secret_from, expand_secret_from-IsSecretFor,
}
use secure_frame_rs.Receiver.{Receiver, set_encryption_key, remove_encryption_key, is_some}
use secure_frame_rs.Receiver.Secrets
use secure_frame_rs.Receiver.Secrets.{key_eq, get-insert, get-without}

-- Setting a key always succeeds, gives that key id the expanded secret and leaves the secrets of the
-- other key ids, the options and the buffer alone.
pub set_encryption_key-get :
    (ring : Ring.Ring) (v : CipherSuiteVariant) (k : KeyId) (material : List ℕ) (r : Receiver)
    → r.options.cipher_suite ≡ from_variant v
    → (secret : Secret) × IsSecretFor (from_variant v) secret
      × (expand_secret_from ring material (from_variant v) ≡ ok secret)
      × ((set_encryption_key ring k material r).0 ≡ ok tt)
      × ((set_encryption_key ring k material r).1.options ≡ r.options)
      × ((j : KeyId)
          → Secrets.get j (set_encryption_key ring k material r).1.secrets
            ≡ (if key_eq k j then some secret else Secrets.get j r.secrets))
unfolding set_encryption_key
set_encryption_key-get ring v k material r suite =
    let (secret, done, fits) = expand_secret_from-IsSecretFor ring v material in
    (
      secret,
      fits,
      done,
      rw suite (rw done),
      rw suite (rw done),
      λ j. rw suite (rw done (get-insert k j secret r.secrets)),
    )

get-removed :
    (k j : KeyId) (r : Receiver)
    → Secrets.get j (remove_encryption_key k r).1.secrets
      ≡ (if key_eq k j then none else Secrets.get j r.secrets)
unfolding remove_encryption_key
get-removed k j r = get-without k j r.secrets

-- Removing a key tells whether it was there, and takes that key id's secret away and no other.
pub remove_encryption_key-get :
    (k : KeyId) (r : Receiver)
    → ((remove_encryption_key k r).0 ≡ ok (is_some (Secrets.get k r.secrets)))
      × ((remove_encryption_key k r).1.options ≡ r.options)
      × ((j : KeyId)
          → Secrets.get j (remove_encryption_key k r).1.secrets
            ≡ (if key_eq k j then none else Secrets.get j r.secrets))
remove_encryption_key-get k r = (
  unfold remove_encryption_key in refl,
  unfold remove_encryption_key in refl,
  λ j. get-removed k j r,
)
