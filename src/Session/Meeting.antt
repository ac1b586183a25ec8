-- ===== src/Session/Meeting.antt =====
-- Several senders and one receiver that has a key for each of them, with frames of somebody else's.
pub mod Room
pub mod Hosts
pub mod Speaking
pub mod Hearing
pub mod Refines
pub mod Fresh
use secure_frame_rs.Prelude.{ℕ, List, [], ◌∷◌, ◌++◌, Option, none, some, get_elem?, replace_at}
use secure_frame_rs.KeyId.{KeyId}
use secure_frame_rs.Outcome.{Outcome}
use secure_frame_rs.Bitfield.{Msb0}
use secure_frame_rs.Crypto.Ring
use secure_frame_rs.Sender
use secure_frame_rs.Sender.{Sender}
use secure_frame_rs.Receiver
use secure_frame_rs.Receiver.{Receiver}
use secure_frame_rs.Session.{MediaFrame}
use secure_frame_rs.Session.Network.{put_on_wire, failure}

-- `speak i f`: the sender in place `i` sends a frame. `hear i`: the frame that was sent, by whomever,
-- `i` frames before the last one arrives, maybe again. `forge frame skip`: any bytes arrive, with this
-- number of bytes to skip. `forget k`: the receiver removes the key of `k`.
pub data Event : Type 0 where
  speak : ℕ → MediaFrame → Event
  hear : ℕ → Event
  forge : List ℕ → ℕ → Event
  forget : KeyId → Event

-- The frames of all senders so far, the last one first, with the number of their skipped bytes.
pub record Meeting : Type 0 where
  pub senders : List Sender
  pub wire : List (List ℕ × ℕ)
  pub receiver : Receiver

module _ (bits : Msb0) (ring : Ring.Ring) where
  abbrev pub speak_frame :
      ℕ → Option Sender → MediaFrame → Meeting → List (Outcome (List ℕ)) × Meeting
  speak_frame i none f m = ([], m)
  speak_frame i (some s) f m =
      let sent = Sender.encrypt bits ring f.payload f.skip s in
      (
        failure sent.0,
        record m {
          senders = replace_at m.senders i sent.1;
          wire = put_on_wire sent.0 f.skip m.wire;
        },
      )

  abbrev pub hear_frame : Option (List ℕ × ℕ) → Meeting → List (Outcome (List ℕ)) × Meeting
  hear_frame none m = ([], m)
  hear_frame (some arrived) m =
      let received = Receiver.decrypt bits ring arrived.0 arrived.1 m.receiver in
      (received.0 ∷ [], record m { receiver = received.1 })

  abbrev pub step : Event → Meeting → List (Outcome (List ℕ)) × Meeting
  step (speak i f) m = speak_frame i (get_elem? m.senders i) f m
  step (forge frame skip) m =
      ([], record m { receiver = (Receiver.decrypt bits ring frame skip m.receiver).1 })
  step (forget k) m = ([], record m { receiver = (Receiver.remove_encryption_key k m.receiver).1 })
  step (hear i) m = hear_frame (get_elem? m.wire i) m

  -- What the receiver returns for the frames of the senders that arrive, in order; what it makes of
  -- forged ones is not looked at.
  unfoldable pub run_meeting : List Event → Meeting → List (Outcome (List ℕ))
  run_meeting [] m = []
  run_meeting (e ∷ es) m = let next = step e m in next.0 ++ run_meeting es next.1
