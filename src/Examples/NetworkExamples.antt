-- ===== src/Examples/NetworkExamples.antt =====
-- Frames that are reordered, repeated or lost, a window ahead of its sender, and a new key.
use secure_frame_rs.Prelude.{ℕ, ◌≡◌, refl, arith, List, [], ◌∷◌, All}
use secure_frame_rs.Outcome.{ok, err, frame_validation_failed, frame_counter_too_old}
use secure_frame_rs.Header.FrameCount.{from_u64}
use secure_frame_rs.Crypto.CipherSuite.{aes_gcm256_sha512, from_variant}
use secure_frame_rs.Crypto.KeyExpansion.{expand_secret_from}
use secure_frame_rs.Crypto.Secret.{Secret}
use secure_frame_rs.Sender
use secure_frame_rs.Sender.{Sender}
use secure_frame_rs.Receiver
use secure_frame_rs.Receiver.{Receiver}
use secure_frame_rs.Session.{MediaFrame}
use secure_frame_rs.Session.Linked.{Linked}
use secure_frame_rs.Session.Network.{Event, send, deliver, Network, run}
use secure_frame_rs.Session.Network.Channel
use secure_frame_rs.Session.Network.Channel.{Channel}
use secure_frame_rs.Session.Network.Refines.{CanSend, Implements, run-run}
use secure_frame_rs.Session.Network.Recovery.{in_turn, recovers, wait, run-recovers}
use secure_frame_rs.Session.Rekeyed.{Linked-set_encryption_key}
use secure_frame_rs.Examples.Bits.{example_bits}
use secure_frame_rs.Examples.Clear.{example_ring}
use secure_frame_rs.Examples.Ends.{
  secret_256, sender_256, sender_256-IsReady, receiver_256, Linked-256, example_id, material,
  first_frame, second_frame, first_frame-IsSendable, second_frame-IsSendable, get_example,
}

-- The second frame arrives before the first one, which comes twice.
abbrev events : List Event
events = send first_frame ∷ send second_frame ∷ deliver 0 ∷ deliver 1 ∷ deliver 1 ∷ []

events-CanSend : All (CanSend example_ring) events
events-CanSend = (first_frame-IsSendable, (second_frame-IsSendable, (tt, (tt, (tt, tt)))))

abbrev network : Receiver → Network
network r = record { sender = sender_256; wire = []; receiver = r }

abbrev channel_from : ℕ → Channel
channel_from last = record { next = 300; sent = []; tolerance = 128; last = last }

network-Implements :
    Implements example_bits example_ring secret_256 example_id
      (network receiver_256)
      (channel_from 299)
network-Implements = record {
  ready = sender_256-IsReady;
  id = refl;
  opens = record { suite = refl; has_key = get_example secret_256; last_fits = omega arith };
  next = refl;
  tolerance = refl;
  last = refl;
  sealed = tt;
}

run-run_example :
    run example_bits example_ring events (network receiver_256)
    ≡ Channel.run events (channel_from 299)
run-run_example =
    run-run example_bits example_ring secret_256 example_id (omega arith) events
      (network receiver_256) (channel_from 299) network-Implements events-CanSend

run-events :
    Channel.run events (channel_from 299)
    ≡ ok second_frame.payload ∷ ok first_frame.payload ∷ ok first_frame.payload ∷ []
unfolding Channel.run
run-events = refl

-- A window one place too far ahead for the sender's next frame.
abbrev receiver_ahead : Receiver
receiver_ahead = record receiver_256 {
  options = record receiver_256.options {
    frame_validation = record { tolerance = 128; last_frame_count = from_u64 429 };
  };
}

ahead-Implements :
    Implements example_bits example_ring secret_256 example_id
      (network receiver_ahead)
      (channel_from 429)
ahead-Implements = record {
  ready = sender_256-IsReady;
  id = refl;
  opens = record { suite = refl; has_key = get_example secret_256; last_fits = omega arith };
  next = refl;
  tolerance = refl;
  last = refl;
  sealed = tt;
}

abbrev frames : List MediaFrame
frames = first_frame ∷ second_frame ∷ []

run-recovers_example :
    run example_bits example_ring (in_turn frames) (network receiver_ahead)
    ≡ recovers (wait (channel_from 429)) frames
run-recovers_example =
    run-recovers example_bits example_ring secret_256 example_id frames (network receiver_ahead)
      (channel_from 429) (omega arith) ahead-Implements
      (record { sent = omega arith; window = omega arith; tolerance = omega arith })
      (first_frame-IsSendable, (second_frame-IsSendable, tt))

recovers-frames :
    recovers (wait (channel_from 429)) frames
    ≡ err (frame_validation_failed frame_counter_too_old) ∷ ok second_frame.payload ∷ []
recovers-frames = refl

Linked-set_encryption_key_example :
    ((Sender.set_encryption_key example_ring material sender_256).0 ≡ ok tt)
    × ((Receiver.set_encryption_key example_ring example_id material receiver_256).0 ≡ ok tt)
    × (secret : Secret) × (expand_secret_from example_ring material (from_variant aes_gcm256_sha512)
        ≡ ok secret)
    × Linked aes_gcm256_sha512 secret 1
        (Sender.set_encryption_key example_ring material sender_256).1
        (Receiver.set_encryption_key example_ring example_id material receiver_256).1
Linked-set_encryption_key_example =
    Linked-set_encryption_key example_ring aes_gcm256_sha512 secret_256 1 material sender_256
      receiver_256 Linked-256
