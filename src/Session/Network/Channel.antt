-- ===== src/Session/Network/Channel.antt =====
-- What the two ends promise: a channel of payloads that are numbered when they are sent.
use secure_frame_rs.Prelude.{
  ℕ, ◌+◌, ◌%◌, List, [], ◌∷◌, ◌++◌, Option, none, some, get_elem?, if◌then◌else◌,
}
use secure_frame_rs.Outcome.{Outcome, ok, err, frame_validation_failed, frame_counter_too_old}
use secure_frame_rs.Header.FrameCount.{max_frame_count}
use secure_frame_rs.FrameValidation.Window.{accepts}
use secure_frame_rs.Session.Network.{Event, send, deliver}
use secure_frame_rs.Session.{MediaFrame}

-- No bytes of a frame, no key and no suite: the numbers of the payloads, and the last accepted one.
pub record Channel : Type 0 where
  pub next : ℕ
  pub sent : List (ℕ × MediaFrame)
  pub tolerance : ℕ
  pub last : ℕ

abbrev pub deliver_payload : Option (ℕ × MediaFrame) → Channel → List (Outcome (List ℕ)) × Channel
deliver_payload none c = ([], c)
deliver_payload (some arrived) c =
    if accepts c.tolerance c.last arrived.0
    then (ok arrived.1.payload ∷ [], record c { last = arrived.0 })
    else (err (frame_validation_failed frame_counter_too_old) ∷ [], c)

abbrev pub step : Event → Channel → List (Outcome (List ℕ)) × Channel
step (send f) c =
    ([], record c { next = (c.next + 1) % max_frame_count; sent = (c.next, f) ∷ c.sent })
step (deliver i) c = deliver_payload (get_elem? c.sent i) c

unfoldable pub run : List Event → Channel → List (Outcome (List ℕ))
run [] c = []
run (e ∷ es) c = let next = step e c in next.0 ++ run es next.1
