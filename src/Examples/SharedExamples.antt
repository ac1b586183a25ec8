-- ===== src/Examples/SharedExamples.antt =====
-- Two senders with one receiver.
use secure_frame_rs.Prelude.{All, ℕ, ◌≡◌, ap, refl, arith, List, [], ◌∷◌}
use secure_frame_rs.KeyId.{KeyId, FitsHeader}
use secure_frame_rs.Outcome.{ok, err, frame_validation_failed, frame_counter_too_old}
use secure_frame_rs.Header.FrameCount.{from_u64}
use secure_frame_rs.Crypto.CipherSuite.{aes_gcm256_sha512, from_variant}
use secure_frame_rs.Sender.{Sender}
use secure_frame_rs.Sender.Frames.{IsReady}
use secure_frame_rs.Crypto.Secret.{Secret}
use secure_frame_rs.Receiver
use secure_frame_rs.Receiver.{Receiver}
use secure_frame_rs.Receiver.Secrets
use secure_frame_rs.Session.Counts.{header_of_frame}
use secure_frame_rs.Session.Delivery.{IsSealed, CanOpen}
use secure_frame_rs.Session.Meeting.{Event, speak, hear, forge, Meeting, run_meeting}
use secure_frame_rs.Session.Meeting.Room.{Room, run_room}
use secure_frame_rs.Session.Meeting.Hosts.{Hosts, CanSpeak}
use secure_frame_rs.Session.Meeting.Refines.{run_meeting-run_room}
use secure_frame_rs.Header.Util.{IsByte, from_be_bytes}
use secure_frame_rs.Header.Codec
use secure_frame_rs.Header.Codec.Parse.{parse}
use secure_frame_rs.Session.Shared.{decrypt-shared_window}
use secure_frame_rs.Examples.Bits.{example_bits}
use secure_frame_rs.Examples.Clear.{example_ring}
use secure_frame_rs.Examples.Ends.{
  secret_256, sender_256, sender_256-IsReady, example_id, first_frame, first_frame-IsSendable,
  second_frame, second_frame-IsSendable,
}

-- A second sender, whose counts are behind the first one's by more than the tolerance.
abbrev slow_id : KeyId
slow_id = KeyId.extended 41

abbrev slow_sender : Sender
slow_sender = record sender_256 {
  key_id = slow_id;
  frame_count = record { current_frame_count = 100 };
}

slow_sender-IsReady : IsReady aes_gcm256_sha512 secret_256 slow_sender
slow_sender-IsReady = record {
  suite = refl;
  has_key = refl;
  key_fits = sender_256-IsReady.key_fits;
  key_in_range = omega arith;
  on_wheel = omega arith;
}

-- Its receiver, between the two.
abbrev both_receiver : Receiver
both_receiver = record {
  secrets = (example_id, secret_256) ∷ (slow_id, secret_256) ∷ [];
  options = record {
    cipher_suite = from_variant aes_gcm256_sha512;
    frame_validation = record { tolerance = 128; last_frame_count = from_u64 200 };
  };
  buffer = [];
}

IsSealed-by :
    (s : Sender)
    → IsReady aes_gcm256_sha512 secret_256 s
    → FitsHeader s.key_id
    → (frame : List ℕ) × IsSealed example_bits example_ring secret_256 s.key_id
        s.frame_count.current_frame_count first_frame frame
IsSealed-by s ready fits =
    let (frame, sent, _, _) =
      header_of_frame example_bits example_ring aes_gcm256_sha512 secret_256 first_frame s ready
        fits first_frame-IsSendable in
    (
      frame,
      record {
        origin = s;
        ready = ready;
        id = refl;
        counted = refl;
        sendable = first_frame-IsSendable;
        encrypted = ap (λ t. t.0) sent;
      },
    )

abbrev fast_frame : List ℕ
fast_frame = (IsSealed-by sender_256 sender_256-IsReady (omega arith)).0

abbrev slow_frame : List ℕ
slow_frame = (IsSealed-by slow_sender slow_sender-IsReady (omega arith)).0

opens_fast : CanOpen secret_256 example_id both_receiver
opens_fast = record {
  suite = refl;
  has_key = (unfold Secrets.get in refl);
  last_fits = omega arith;
}

opens_slow : CanOpen secret_256 slow_id both_receiver
opens_slow = record {
  suite = refl;
  has_key = (unfold Secrets.get in refl);
  last_fits = omega arith;
}

decrypt-shared_window_example :
    ((Receiver.decrypt example_bits example_ring slow_frame 1 both_receiver).0
      ≡ ok first_frame.payload)
    × ((Receiver.decrypt example_bits example_ring fast_frame 1 both_receiver).0
        ≡ ok first_frame.payload)
    × ((Receiver.decrypt example_bits example_ring slow_frame 1
          (Receiver.decrypt example_bits example_ring fast_frame 1 both_receiver).1).0
        ≡ err (frame_validation_failed frame_counter_too_old))
decrypt-shared_window_example =
    decrypt-shared_window example_bits example_ring secret_256 secret_256 example_id slow_id 300 100
      first_frame first_frame fast_frame slow_frame both_receiver (omega arith) (omega arith)
      (IsSealed-by sender_256 sender_256-IsReady (omega arith)).1
      (IsSealed-by slow_sender slow_sender-IsReady (omega arith)).1 opens_fast opens_slow refl refl
      refl

abbrev keys : List (KeyId × Secret)
keys = both_receiver.secrets

abbrev meeting : Meeting
meeting = record { senders = sender_256 ∷ slow_sender ∷ []; wire = []; receiver = both_receiver }

abbrev room : Room
room = record {
  nexts = (example_id, 300) ∷ (slow_id, 100) ∷ [];
  sent = [];
  forgotten = [];
  tolerance = 128;
  last = 200;
}

meeting-Hosts : Hosts example_bits example_ring keys meeting room
unfolding Secrets.get
meeting-Hosts = record {
  members = (
    record {
      id = refl;
      secret = secret_256;
      ready = sender_256-IsReady;
      fits = omega arith;
      found = refl;
      counted = refl;
    },
    (
      record {
        id = refl;
        secret = secret_256;
        ready = slow_sender-IsReady;
        fits = omega arith;
        found = refl;
        counted = refl;
      },
      tt,
    ),
  );
  kept = tt;
  suite = refl;
  has_keys = λ k. refl;
  tolerance = refl;
  last = refl;
  last_fits = omega arith;
}

-- An extended header with the count 9000, and nothing behind it.
abbrev forged : List ℕ
forged = 24 ∷ 9 ∷ 35 ∷ 40 ∷ []

forged-IsByte : All IsByte forged
forged-IsByte = (omega arith, (omega arith, (omega arith, (omega arith, tt))))

-- The frame of the slow sender, which came once, is refused after one of the fast sender, as is its
-- next one; the fast sender's next frame is refused after the forged one.
abbrev events : List Event
events =
    speak 1 first_frame
    ∷ hear 0
    ∷ speak 0 second_frame
    ∷ hear 0
    ∷ hear 1
    ∷ speak 1 first_frame
    ∷ hear 0
    ∷ forge forged 0
    ∷ speak 0 first_frame
    ∷ hear 0
    ∷ []

events-CanSpeak : All (CanSpeak example_ring) events
events-CanSpeak = (
  first_frame-IsSendable,
  (
    tt,
    (
      second_frame-IsSendable,
      (
        tt,
        (tt, (first_frame-IsSendable, (tt, (forged-IsByte, (first_frame-IsSendable, (tt, tt)))))),
      ),
    ),
  ),
)

run_meeting-run_room_example :
    run_meeting example_bits example_ring events meeting ≡ run_room events room
run_meeting-run_room_example =
    run_meeting-run_room example_bits example_ring keys events meeting room meeting-Hosts
      events-CanSpeak

run_room-events :
    run_room events room
    ≡ ok first_frame.payload
      ∷ ok second_frame.payload
      ∷ err (frame_validation_failed frame_counter_too_old)
      ∷ err (frame_validation_failed frame_counter_too_old)
      ∷ err (frame_validation_failed frame_counter_too_old)
      ∷ []
unfolding run_room parse from_be_bytes Codec.frame_count
run_room-events = refl
