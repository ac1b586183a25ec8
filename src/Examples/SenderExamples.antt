-- ===== src/Examples/SenderExamples.antt =====
-- A sender with and without a key.
use secure_frame_rs.Prelude.{
  ℕ, List, ◌≡◌, ◌↔◌, ◌<◌, refl, arith, [], ◌∷◌, length, some, some-injective,
}
use secure_frame_rs.Outcome.{ok, panic}
use secure_frame_rs.Crypto.CipherSuite.{aes_gcm256_sha512}
use secure_frame_rs.Crypto.Secret.{Secret}
use secure_frame_rs.Sender.{Sender, encrypt, set_encryption_key, with_cipher_suite}
use secure_frame_rs.Sender.Frames.{SealsNext, sealed_next, next_header}
use secure_frame_rs.Sender.Overhead.{IsFrameOf, encrypt-IsFrameOf}
use secure_frame_rs.Sender.WellFormed.{IsWellFormed}
use secure_frame_rs.Sender.Described.{described, encrypt-described, encrypt-panics_iff}
use secure_frame_rs.Sender.Reached.{start, later, sets, encrypts, Reached-IsWellFormed}
use secure_frame_rs.Examples.Bits.{example_bits}
use secure_frame_rs.Examples.Clear.{example_ring}
use secure_frame_rs.Examples.Ends.{
  secret_256, sender_256, sender_256-IsReady, first_frame, first_frame-IsSendable, example_id,
  material,
}

abbrev first_sealed :
    SealsNext example_bits example_ring aes_gcm256_sha512 secret_256 first_frame.payload 1
      sender_256
first_sealed =
    sealed_next example_bits example_ring aes_gcm256_sha512 secret_256 first_frame.payload 1
      sender_256 sender_256-IsReady first_frame-IsSendable.short first_frame-IsSendable.bytes

encrypt-IsFrameOf_example :
    (frame : List ℕ) × ((encrypt example_bits example_ring first_frame.payload 1 sender_256).0
      ≡ ok frame)
    × IsFrameOf first_frame.payload 1 (next_header sender_256) frame
encrypt-IsFrameOf_example =
    encrypt-IsFrameOf example_bits example_ring aes_gcm256_sha512 secret_256 first_frame.payload 1
      sender_256 sender_256-IsReady first_frame-IsSendable.skipped first_frame-IsSendable.short
      first_frame-IsSendable.bytes

sender_256-IsWellFormed : IsWellFormed aes_gcm256_sha512 sender_256
sender_256-IsWellFormed = record {
  suite = refl;
  keyed = λ secret found.
      let is : secret_256 ≡ secret = some-injective found in rw (← is) sender_256-IsReady.key_fits;
  key_in_range = omega arith;
  on_wheel = omega arith;
}

encrypt-described_example :
    encrypt example_bits example_ring first_frame.payload 1 sender_256
    ≡ described example_ring first_frame.payload 1 sender_256
encrypt-described_example =
    encrypt-described example_bits example_ring aes_gcm256_sha512 first_frame.payload 1 sender_256
      sender_256-IsWellFormed

encrypt-panics_iff_example :
    ((encrypt example_bits example_ring (10 ∷ 20 ∷ []) 3 sender_256).0 ≡ panic)
    ↔ ((secret : Secret) × (sender_256.secret ≡ some secret) × (length {A = ℕ} (10 ∷ 20 ∷ []) < 3))
encrypt-panics_iff_example =
    encrypt-panics_iff example_bits example_ring aes_gcm256_sha512 (10 ∷ 20 ∷ []) 3 sender_256
      sender_256-IsWellFormed

-- A new sender that gets a key and panics.
abbrev keyed_sender : Sender
keyed_sender =
    (set_encryption_key example_ring material (with_cipher_suite example_id aes_gcm256_sha512)).1

Reached-IsWellFormed_example :
    IsWellFormed aes_gcm256_sha512
      (encrypt example_bits example_ring (10 ∷ 20 ∷ []) 3 keyed_sender).1
Reached-IsWellFormed_example =
    Reached-IsWellFormed example_bits example_ring example_id aes_gcm256_sha512
      (encrypt example_bits example_ring (10 ∷ 20 ∷ []) 3 keyed_sender).1 (omega arith)
      (later (later start (sets material _ refl)) (encrypts (10 ∷ 20 ∷ []) 3 _ refl))
