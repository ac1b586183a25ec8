-- ===== src/Examples/SessionExamples.antt =====
-- Frames on their way from one end to the other.
use secure_frame_rs.Prelude.{
  replicate, length-replicate, All-replicate, ℕ, ◌%◌, ◌≡◌, refl, arith, List, [], ◌∷◌, ◌++◌, length,
  All, none,
}
use secure_frame_rs.KeyId
use secure_frame_rs.KeyId.{KeyId}
use secure_frame_rs.Outcome.{ok, err, missing_decryption_key}
use secure_frame_rs.Header.FrameCount.{from_u64}
use secure_frame_rs.Header.FrameCount.Wheel.{advance}
use secure_frame_rs.Header.Codec
use secure_frame_rs.FrameValidation.{ReplayAttackProtection, validate}
use secure_frame_rs.FrameValidation.Window.{validate_lem}
use secure_frame_rs.Crypto.CipherSuite.{aes_gcm256_sha512}
use secure_frame_rs.Sender
use secure_frame_rs.Sender.{Sender}
use secure_frame_rs.Sender.Frames.{IsReady, next_header}
use secure_frame_rs.Receiver
use secure_frame_rs.Receiver.{Receiver, set_validation}
use secure_frame_rs.Receiver.Secrets
use secure_frame_rs.Session.{MediaFrame, exchange, encrypt_decrypt_frames, IsSendable}
use secure_frame_rs.Session.Frames.{Carries, encrypt-Carries}
use secure_frame_rs.Session.Linked.{payloads}
use secure_frame_rs.Header.Util.{IsByte}
use secure_frame_rs.Session.IntegrationTest.{
  decrypt_encrypted_frames_with_extended_key_id_and_skipped_payload,
  encrypt_decrypt_1000_frames-passes,
}
use secure_frame_rs.Session.Setup.{encrypt_decrypt_frames-payloads}
use secure_frame_rs.Session.Counts.{encrypt_all, Numbered, encrypt_all-Numbered}
use secure_frame_rs.Session.Lossy.{
  Sent, arrives, is_lost, transmit, arriving, Survives, transmit-arriving,
}
use secure_frame_rs.Session.Truncated.{encrypt-truncates}
use secure_frame_rs.Session.Shortened.{exchange-aes_gcm128}
use secure_frame_rs.Examples.Bits.{example_bits}
use secure_frame_rs.Examples.Clear.{example_ring}
use secure_frame_rs.Examples.Ends.{
  secret_128, secret_256, sender_128, sender_256, sender_256-IsReady, receiver_128, receiver_256,
  Linked-128, Linked-256, example_id, material, first_frame, second_frame, first_frame-IsSendable,
  second_frame-IsSendable, get_example, sender_of,
}

abbrev frames : List MediaFrame
frames = first_frame ∷ second_frame ∷ []

frames-IsSendable : All (IsSendable example_ring) frames
frames-IsSendable = (first_frame-IsSendable, (second_frame-IsSendable, tt))

abbrev window_300 : ReplayAttackProtection
window_300 = record { tolerance = 128; last_frame_count = from_u64 300 }

validate_300 :
    validate (next_header sender_256) receiver_256.options.frame_validation ≡ (ok tt, window_300)
unfolding Codec.frame_count Codec.with_frame_count
validate_300 =
    validate_lem (next_header sender_256) receiver_256.options.frame_validation (omega arith)
      (omega arith)

encrypt_decrypt_frames-payloads_example :
    encrypt_decrypt_frames example_bits example_ring 4 material frames ≡ ok (payloads frames)
encrypt_decrypt_frames-payloads_example =
    encrypt_decrypt_frames-payloads example_bits example_ring 4 material frames (omega arith)
      frames-IsSendable

-- The first of three frames is lost.
abbrev sent_frames : List Sent
sent_frames = is_lost second_frame ∷ arrives first_frame ∷ arrives second_frame ∷ []

sent_frames-Survives : Survives 128 1 sent_frames
unfolding Survives
sent_frames-Survives = (omega arith, (omega arith, tt))

transmit-arriving_example :
    transmit example_bits example_ring sent_frames sender_256 receiver_256
    ≡ ok (arriving sent_frames)
transmit-arriving_example =
    transmit-arriving example_bits example_ring secret_256 1 sent_frames sender_256 receiver_256
      Linked-256 sent_frames-Survives
      (second_frame-IsSendable, (first_frame-IsSendable, (second_frame-IsSendable, tt)))

arriving_two : arriving sent_frames ≡ first_frame.payload ∷ second_frame.payload ∷ []
unfolding arriving
arriving_two = refl

encrypt-Carries_example :
    Carries example_bits example_ring aes_gcm256_sha512 first_frame.payload 1 sender_256
      receiver_256 window_300
encrypt-Carries_example =
    encrypt-Carries example_bits example_ring aes_gcm256_sha512 secret_256 first_frame.payload 1
      sender_256 receiver_256 window_300 sender_256-IsReady (omega arith) refl
      (get_example secret_256) validate_300 first_frame-IsSendable.skipped
      first_frame-IsSendable.short first_frame-IsSendable.bytes

encrypt_all-Numbered_example :
    (sent : List (List ℕ)) × ((encrypt_all example_bits example_ring frames sender_256).0 ≡ ok sent)
    × Numbered example_bits example_id sender_256.frame_count frames sent
    × IsReady aes_gcm256_sha512 secret_256
        (encrypt_all example_bits example_ring frames sender_256).1
    × ((encrypt_all example_bits example_ring frames sender_256).1.frame_count
        ≡ advance 2 sender_256.frame_count)
encrypt_all-Numbered_example =
    encrypt_all-Numbered example_bits example_ring aes_gcm256_sha512 secret_256 frames sender_256
      sender_256-IsReady (omega arith) frames-IsSendable

exchange-aes_gcm128_example :
    (extra : List ℕ) × (length extra ≡ 8)
    × (exchange example_bits example_ring (first_frame ∷ []) sender_128 receiver_128
        ≡ ok ((first_frame.payload ++ extra) ∷ []))
exchange-aes_gcm128_example =
    exchange-aes_gcm128 example_bits example_ring secret_128 1 first_frame sender_128 receiver_128
      Linked-128 (omega arith) first_frame-IsSendable

-- The key id 12, of which the header keeps 4.
abbrev sender_12 : Sender
sender_12 = sender_of aes_gcm256_sha512 (KeyId.from_u8 12) secret_256

sender_12-IsReady : IsReady aes_gcm256_sha512 secret_256 sender_12
sender_12-IsReady = record {
  suite = refl;
  has_key = refl;
  key_fits = sender_256-IsReady.key_fits;
  key_in_range = omega arith;
  on_wheel = omega arith;
}

abbrev receiver_12 : Receiver
receiver_12 = record receiver_256 { secrets = (KeyId.from_u8 12, secret_256) ∷ [] }

no_key_4 : Secrets.get (KeyId.from_u8 (12 % 8)) receiver_12.secrets ≡ none
unfolding Secrets.get
no_key_4 = refl

validate_12 :
    validate
      (Codec.with_frame_count (KeyId.from_u8 (12 % 8)) (from_u64 300))
      receiver_12.options.frame_validation
    ≡ (ok tt, window_300)
unfolding Codec.frame_count Codec.with_frame_count
validate_12 =
    validate_lem (Codec.with_frame_count (KeyId.from_u8 (12 % 8)) (from_u64 300))
      receiver_12.options.frame_validation (omega arith) (omega arith)

encrypt-truncates_example :
    (frame : List ℕ) × ((Sender.encrypt example_bits example_ring first_frame.payload 1 sender_12).0
      ≡ ok frame)
    × ((Receiver.decrypt example_bits example_ring frame 1 receiver_12).0
        ≡ err (missing_decryption_key (KeyId.from_u8 (12 % 8))))
encrypt-truncates_example =
    encrypt-truncates example_bits example_ring aes_gcm256_sha512 secret_256 12 first_frame
      sender_12 receiver_12 window_300 sender_12-IsReady refl first_frame-IsSendable validate_12
      no_key_4

-- 64 times the number of rounds that are left, as a byte.
abbrev fill_bytes : ℕ → List ℕ
fill_bytes n = replicate 64 (n % 256)

encrypt_decrypt_1000_frames-passes_example :
    decrypt_encrypted_frames_with_extended_key_id_and_skipped_payload example_bits example_ring
      fill_bytes
    ≡ ok tt
encrypt_decrypt_1000_frames-passes_example =
    encrypt_decrypt_1000_frames-passes example_bits example_ring fill_bytes 40 10 (omega arith)
      (omega arith) (omega arith) (λ i. length-replicate 64 (i % 256))
      (λ i. All-replicate IsByte 64 (i % 256) (omega arith))
