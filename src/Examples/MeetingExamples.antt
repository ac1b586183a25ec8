-- ===== src/Examples/MeetingExamples.antt =====
-- A meeting of new senders with a new receiver.
use secure_frame_rs.Prelude.{◌≡◌, refl, arith, List, [], ◌∷◌, All}
use secure_frame_rs.KeyId.{KeyId, FitsHeader}
use secure_frame_rs.Outcome.{ok, err, missing_decryption_key}
use secure_frame_rs.Sender.{Sender}
use secure_frame_rs.Receiver
use secure_frame_rs.Receiver.{Receiver}
use secure_frame_rs.Session.Meeting.{Event, speak, hear, forget, run_meeting}
use secure_frame_rs.Session.Meeting.Room.{run_room}
use secure_frame_rs.Session.Meeting.Hosts.{CanSpeak}
use secure_frame_rs.Session.Meeting.Fresh.{
  Participant, Distinct, join, new_room, run_meeting-new_room,
}
use secure_frame_rs.Examples.Bits.{example_bits}
use secure_frame_rs.Examples.Clear.{example_ring}
use secure_frame_rs.Examples.Ends.{
  example_id, material, first_frame, first_frame-IsSendable, second_frame, second_frame-IsSendable,
}

abbrev participants : List Participant
participants = (example_id, material) ∷ (KeyId.extended 41, 1 ∷ 2 ∷ []) ∷ []

participants-Distinct : Distinct participants
participants-Distinct = ((λ e. cc, tt), (tt, tt))

participants-fit : All (λ p. FitsHeader p.0) participants
participants-fit = (omega arith, (omega arith, tt))

-- Both speak; the first frame of the second sender arrives last and twice, the second time when its
-- key is removed.
abbrev events : List Event
events =
    speak 1 first_frame
    ∷ speak 0 second_frame
    ∷ speak 0 first_frame
    ∷ hear 0
    ∷ hear 2
    ∷ forget (KeyId.extended 41)
    ∷ hear 2
    ∷ []

events-CanSpeak : All (CanSpeak example_ring) events
events-CanSpeak = (
  first_frame-IsSendable,
  (second_frame-IsSendable, (first_frame-IsSendable, (tt, (tt, (tt, (tt, tt)))))),
)

run_meeting-new_room_example :
    (senders : List Sender) × (r : Receiver) × (join example_ring participants Receiver.default
      ≡ (ok senders, r))
    × (run_meeting example_bits example_ring events
          (record { senders = senders; wire = []; receiver = r })
        ≡ run_room events (new_room participants))
run_meeting-new_room_example =
    run_meeting-new_room example_bits example_ring participants events participants-fit
      participants-Distinct events-CanSpeak

run_room-events :
    run_room events (new_room participants)
    ≡ ok first_frame.payload
      ∷ ok first_frame.payload
      ∷ err (missing_decryption_key (KeyId.extended 41))
      ∷ []
unfolding run_room
run_room-events = refl
