-- ===== src/Session/IntegrationTest.antt =====
-- tests/integration.rs: both ends in turn, for many frames of random bytes.
-- `fill n` are the bytes that the generator of random numbers gives when `n` rounds are left.
use secure_frame_rs.Prelude.{
  ℕ, zero, suc, ◌≤◌, ◌<◌, ◌^◌, ◌≡◌, refl, arith, List, [], ◌∷◌, length, All,
}
use secure_frame_rs.KeyId
use secure_frame_rs.Outcome.{Outcome, ok, ◌>>=◌}
use secure_frame_rs.Bitfield.{Msb0}
use secure_frame_rs.Header.Util.{IsByte}
use secure_frame_rs.Header.Codec.{unwrap}
use secure_frame_rs.Crypto.CipherSuite.{aes_gcm256_sha512}
use secure_frame_rs.Crypto.Ring
use secure_frame_rs.Crypto.Secret.{Secret}
use secure_frame_rs.Sender
use secure_frame_rs.Sender.{Sender}
use secure_frame_rs.Receiver
use secure_frame_rs.Receiver.{Receiver, set_validation}
use secure_frame_rs.UnitTests.{assert, assert_iff, bytes_eq, bytes_eq_iff}
use secure_frame_rs.Session.{MediaFrame, IsSendable}
use secure_frame_rs.Session.Linked.{Linked, Linked-next, next_window, carried_whole}
use secure_frame_rs.Session.Setup.{Linked-new}

-- `assert_eq!` of two buffers
abbrev pub assert_eq : List ℕ → List ℕ → Outcome (Unit {0})
assert_eq expected actual = assert (bytes_eq expected actual)

-- The ASCII codes of "THIS_IS_SOME_MATERIAL".
abbrev pub key_material : List ℕ
key_material =
    b'T' ∷ b'H' ∷ b'I' ∷ b'S' ∷ b'_' ∷ b'I' ∷ b'S' ∷ b'_' ∷ b'S' ∷ b'O' ∷ b'M' ∷ b'E' ∷ b'_' ∷ b'M'
    ∷ b'A' ∷ b'T' ∷ b'E' ∷ b'R' ∷ b'I' ∷ b'A' ∷ b'L' ∷ []

module _ (bits : Msb0) (ring : Ring.Ring) (fill : ℕ → List ℕ) where
  unfoldable pub each_frame : ℕ → ℕ → Sender → Receiver → Outcome (Unit {0})
  each_frame zero skipped_payload s r = ok tt
  each_frame (suc n) skipped_payload s r = do
    let media_frame = fill n
    let sent = Sender.encrypt bits ring media_frame skipped_payload s
    encrypted_frame ← unwrap sent.0
    let received = Receiver.decrypt bits ring encrypted_frame skipped_payload r
    decrypted_frame ← unwrap received.0
    _ ← assert_eq media_frame decrypted_frame
    each_frame n skipped_payload sent.1 received.1

  unfoldable pub encrypt_decrypt_1000_frames : ℕ → ℕ → Outcome (Unit {0})
  encrypt_decrypt_1000_frames participant_id skipped_payload = do
    let sender =
        Sender.set_encryption_key ring key_material (Sender.new (KeyId.from_u64 participant_id))
    _ ← unwrap sender.0
    let receiver =
        Receiver.set_encryption_key ring (KeyId.from_u64 participant_id) key_material
          Receiver.default
    _ ← unwrap receiver.0
    each_frame 1000 skipped_payload sender.1 receiver.1

  abbrev pub decrypt_encrypted_frames_with_basic_key_id : Outcome (Unit {0})
  decrypt_encrypted_frames_with_basic_key_id = encrypt_decrypt_1000_frames 4 0

  abbrev pub decrypt_encrypted_frames_with_basic_key_id_and_skipped_payload : Outcome (Unit {0})
  decrypt_encrypted_frames_with_basic_key_id_and_skipped_payload = encrypt_decrypt_1000_frames 4 10

  abbrev pub decrypt_encrypted_frames_with_extended_key_id : Outcome (Unit {0})
  decrypt_encrypted_frames_with_extended_key_id = encrypt_decrypt_1000_frames 40 0

  abbrev pub decrypt_encrypted_frames_with_extended_key_id_and_skipped_payload : Outcome (Unit {0})
  decrypt_encrypted_frames_with_extended_key_id_and_skipped_payload =
      encrypt_decrypt_1000_frames 40 10

assert_eq_refl : (bs : List ℕ) → assert_eq bs bs ≡ ok tt
assert_eq_refl bs = (assert_iff (bytes_eq bs bs)).1 ((bytes_eq_iff bs bs).1 refl)

module _ (bits : Msb0) (ring : Ring.Ring) (fill : ℕ → List ℕ) where
  each_frame-passes :
      (secret : Secret) (gap n skip : ℕ) (s : Sender) (r : Receiver)
      → Linked aes_gcm256_sha512 secret gap s r
      → gap ≤ r.options.frame_validation.tolerance
      → 1 ≤ r.options.frame_validation.tolerance
      → ((i : ℕ) → IsSendable ring (record { payload = fill i; skip = skip }))
      → each_frame bits ring fill n skip s r ≡ ok tt
  unfolding each_frame
  each_frame-passes secret gap zero skip s r linked near tolerant sendable = refl
  each_frame-passes secret gap (suc n) skip s r linked near tolerant sendable =
      let f : MediaFrame = record { payload = fill n; skip = skip } in
      let (frame, left, sent, received) =
        carried_whole bits ring secret gap f s r linked near (sendable n) in
      rw sent (
        rw received (
          rw (assert_eq_refl (fill n)) (
            each_frame-passes secret 1 n skip _
              (record (set_validation (next_window s r) r) { buffer = left })
              (Linked-next aes_gcm256_sha512 secret gap s r frame left linked) tolerant tolerant
              sendable)))

  -- For every 64-bit id, every number of skipped bytes up to 64 and whatever random bytes the frames
  -- have, 64 each, which ring can seal, no unwrap of the integration test fails and each frame comes out as it
  -- went in.
  pub encrypt_decrypt_1000_frames-passes :
      (participant_id skipped_payload : ℕ)
      → participant_id < 2 ^ 64
      → skipped_payload ≤ 64
      → 64 ≤ Ring.Ring.max_plaintext_len ring
      → ((i : ℕ) → length (fill i) ≡ 64)
      → ((i : ℕ) → All IsByte (fill i))
      → encrypt_decrypt_1000_frames bits ring fill participant_id skipped_payload ≡ ok tt
  unfolding encrypt_decrypt_1000_frames
  encrypt_decrypt_1000_frames-passes id skip small skips seals long bytes =
      let (secret, s, r, keyed, stored, linked, tolerant) =
        Linked-new ring aes_gcm256_sha512 (KeyId.from_u64 id) key_material
          (KeyId.from_u64_roundtrip id small).0 in
      rw keyed (
        rw stored (
          each_frame-passes secret 0 1000 skip s r linked (omega arith) tolerant (λ i. record {
            skipped = omega (arith, long i);
            short = omega (arith, long i);
            bytes = bytes i;
          })))
