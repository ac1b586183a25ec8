-- ===== src/UnitTests/Receivers.antt =====
-- The tests of src/receiver.rs.
use secure_frame_rs.Prelude.{ℕ, ◌≡◌, refl, arith, List, [], ◌∷◌, Bool, false, not, some}
use secure_frame_rs.KeyId
use secure_frame_rs.KeyId.{KeyId, from_u64_roundtrip}
use secure_frame_rs.Outcome.{Outcome, ok, err, ◌>>=◌, missing_decryption_key}
use secure_frame_rs.Bitfield.{Msb0}
use secure_frame_rs.Header.Codec.{unwrap}
use secure_frame_rs.Crypto.CipherSuite.{aes_gcm256_sha512}
use secure_frame_rs.Crypto.Ring
use secure_frame_rs.Receiver
use secure_frame_rs.Receiver.{Receiver}
use secure_frame_rs.Receiver.Secrets.{key_eq, key_eq_iff}
use secure_frame_rs.Header.FrameCount.{from_u64}
use secure_frame_rs.Header.Structs.{Header, basic, new_basic}
use secure_frame_rs.Header.Codec
use secure_frame_rs.Header.Codec.Parse.{parse}
use secure_frame_rs.FrameValidation.{ReplayAttackProtection, validate}
use secure_frame_rs.FrameValidation.Window.{validate_lem}
use secure_frame_rs.Receiver.Refusals.{decrypt_no_key}
use secure_frame_rs.UnitTests.{are_bytes-IsByte, assert}
use secure_frame_rs.Header.Util.{from_be_bytes}
use secure_frame_rs.FrameValidation.{with_tolerance}
use secure_frame_rs.Crypto.KeyExpansion.{expand_secret_from-IsSecretFor}
use secure_frame_rs.UnitTests.Senders.{foobar}

module _ (bits : Msb0) (ring : Ring.Ring) where
  -- `assert_eq!(decrypted, Err(SframeError::MissingDecryptionKey(KeyId::from(6u8))))`
  abbrev lacks_decryption_key : KeyId → Outcome (List ℕ) → Bool
  lacks_decryption_key k (err (missing_decryption_key j)) = key_eq j k
  lacks_decryption_key k _ = false

  unfoldable pub fail_on_missing_secret : Outcome (Unit {0})
  fail_on_missing_secret = assert (
      lacks_decryption_key (KeyId.from_u8 6)
        (Receiver.decrypt bits ring foobar 0 Receiver.default).0)

  parsed : parse foobar ≡ some (basic (new_basic 6 (from_u64 31366190747230313)))
  unfolding parse from_be_bytes
  parsed = refl

  accepted :
      validate (basic (new_basic 6 (from_u64 31366190747230313))) (with_tolerance 128)
      ≡ (ok tt, record { tolerance = 128; last_frame_count = from_u64 31366190747230313 })
  unfolding Codec.frame_count
  accepted =
      validate_lem (basic (new_basic 6 (from_u64 31366190747230313))) (with_tolerance 128)
        (omega arith) (omega arith)

  missing_secret_passes : fail_on_missing_secret ≡ ok tt
  unfolding fail_on_missing_secret
  missing_secret_passes =
      let p : ReplayAttackProtection = record {
        tolerance = 128;
        last_frame_count = from_u64 31366190747230313;
      } in
      let h : Header = basic (new_basic 6 (from_u64 31366190747230313)) in
      rw
        (decrypt_no_key bits ring foobar 0 Receiver.default h p (are_bytes-IsByte foobar refl)
          parsed accepted (unfold Receiver.Secrets.get in refl))
        (unfold Codec.key_id in refl)

-- hendrikswaytoshortpassword
abbrev hendrik : List ℕ
hendrik =
    104 ∷ 101 ∷ 110 ∷ 100 ∷ 114 ∷ 105 ∷ 107 ∷ 115 ∷ 119 ∷ 97 ∷ 121 ∷ 116 ∷ 111 ∷ 115 ∷ 104 ∷ 111
    ∷ 114 ∷ 116 ∷ 112 ∷ 97 ∷ 115 ∷ 115 ∷ 119 ∷ 111 ∷ 114 ∷ 100 ∷ []

-- tobismuchbetterpassword;)
abbrev tobi : List ℕ
tobi =
    116 ∷ 111 ∷ 98 ∷ 105 ∷ 115 ∷ 109 ∷ 117 ∷ 99 ∷ 104 ∷ 98 ∷ 101 ∷ 116 ∷ 116 ∷ 101 ∷ 114 ∷ 112 ∷ 97
    ∷ 115 ∷ 115 ∷ 119 ∷ 111 ∷ 114 ∷ 100 ∷ 59 ∷ 41 ∷ []

abbrev pub remove_key : Ring.Ring → Outcome (Unit {0})
remove_key ring = do
  let first = Receiver.remove_encryption_key (KeyId.from_u64 1234) Receiver.default
  was_there ← first.0
  _ ← assert (not was_there)
  let one = Receiver.set_encryption_key ring (KeyId.from_u64 4223) hendrik first.1
  _ ← unwrap one.0
  let two = Receiver.set_encryption_key ring (KeyId.from_u64 4711) tobi one.1
  _ ← unwrap two.0
  let a = Receiver.remove_encryption_key (KeyId.from_u64 4223) two.1
  removed ← a.0
  _ ← assert removed
  let b = Receiver.remove_encryption_key (KeyId.from_u64 4223) a.1
  removed_again ← b.0
  _ ← assert (not removed_again)
  let c = Receiver.remove_encryption_key (KeyId.from_u64 4711) b.1
  removed' ← c.0
  _ ← assert removed'
  let d = Receiver.remove_encryption_key (KeyId.from_u64 4711) c.1
  removed_again' ← d.0
  assert (not removed_again')

-- The test `remove_key` passes with every crate `ring`.
pub remove_key_passes : (ring : Ring.Ring) → remove_key ring ≡ ok tt
unfolding Receiver.set_encryption_key Receiver.remove_encryption_key Receiver.Secrets.get
    Receiver.Secrets.insert Receiver.Secrets.without KeyId.from_u64
remove_key_passes ring =
    let (first, done, _) = expand_secret_from-IsSecretFor ring aes_gcm256_sha512 hendrik in
    let (second, done', _) = expand_secret_from-IsSecretFor ring aes_gcm256_sha512 tobi in
    rw done (rw done' refl)
