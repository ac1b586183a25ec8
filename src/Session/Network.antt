-- ===== src/Session/Network.antt =====
-- A sender, a receiver and the frames between them, which may arrive in any order, more than once
-- or never.
pub mod Channel
pub mod Refines
pub mod Fresh
pub mod Recovery
use secure_frame_rs.Prelude.{ℕ, List, [], ◌∷◌, ◌++◌, Option, none, some, get_elem?}
use secure_frame_rs.Outcome.{Outcome, ok, err, panic}
use secure_frame_rs.Bitfield.{Msb0}
use secure_frame_rs.Crypto.Ring
use secure_frame_rs.Sender
use secure_frame_rs.Sender.{Sender}
use secure_frame_rs.Receiver
use secure_frame_rs.Receiver.{Receiver}
use secure_frame_rs.Session.{MediaFrame}

-- `deliver i`: the frame that was sent `i` frames before the last one arrives, maybe again.
pub data Event : Type 0 where
  send : MediaFrame → Event
  deliver : ℕ → Event

-- The frames so far, the last one first, with the number of their bytes that are skipped.
pub record Network : Type 0 where
  pub sender : Sender
  pub wire : List (List ℕ × ℕ)
  pub receiver : Receiver

-- What a call of `encrypt` puts on the wire, and what it reports instead.
abbrev pub put_on_wire : Outcome (List ℕ) → ℕ → List (List ℕ × ℕ) → List (List ℕ × ℕ)
put_on_wire (ok frame) skip wire = (frame, skip) ∷ wire
put_on_wire (err e) skip wire = wire
put_on_wire panic skip wire = wire

abbrev pub failure : Outcome (List ℕ) → List (Outcome (List ℕ))
failure (ok frame) = []
failure (err e) = err e ∷ []
failure panic = panic ∷ []

module _ (bits : Msb0) (ring : Ring.Ring) where
  abbrev pub send_frame : MediaFrame → Network → List (Outcome (List ℕ)) × Network
  send_frame f n =
      let sent = Sender.encrypt bits ring f.payload f.skip n.sender in
      (failure sent.0, record n { sender = sent.1; wire = put_on_wire sent.0 f.skip n.wire })

  abbrev pub deliver_frame : Option (List ℕ × ℕ) → Network → List (Outcome (List ℕ)) × Network
  deliver_frame none n = ([], n)
  deliver_frame (some arrived) n =
      let received = Receiver.decrypt bits ring arrived.0 arrived.1 n.receiver in
      (received.0 ∷ [], record n { receiver = received.1 })

  abbrev pub step : Event → Network → List (Outcome (List ℕ)) × Network
  step (send f) n = send_frame f n
  step (deliver i) n = deliver_frame (get_elem? n.wire i) n

  -- What the receiver returns for the frames that arrive, in order.
  unfoldable pub run : List Event → Network → List (Outcome (List ℕ))
  run [] n = []
  run (e ∷ es) n = let next = step e n in next.0 ++ run es next.1
