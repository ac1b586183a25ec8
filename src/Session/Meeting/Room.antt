-- ===== src/Session/Meeting/Room.antt =====
-- What the senders and the receiver come to: payloads that each sender numbers on its own, and one
-- window for all of them, which is all that a forged frame can move.
use secure_frame_rs.Prelude.{
  drop, ℕ, ◌+◌, ◌%◌, List, [], ◌∷◌, ◌++◌, Bool, true, false, Option, none, some, get_elem?,
  replace_at, if◌then◌else◌,
}
use secure_frame_rs.Outcome.{
  Outcome, ok, err, frame_validation_failed, frame_counter_too_old, missing_decryption_key,
}
use secure_frame_rs.KeyId.{KeyId}
use secure_frame_rs.Receiver.Secrets.{key_eq}
use secure_frame_rs.Header.FrameCount.{max_frame_count}
use secure_frame_rs.FrameValidation.Window.{accepts}
use secure_frame_rs.Header.Codec.Parse.{parse}
use secure_frame_rs.Receiver.Forged.{last_after}
use secure_frame_rs.Session.{MediaFrame}
use secure_frame_rs.Session.Meeting.{Event, speak, hear, forge, forget}

-- What a sender said: its key id, its number and the frame.
pub record Said : Type 0 where
  pub key_id : KeyId
  pub number : ℕ
  pub frame : MediaFrame

-- Each sender's key id with its next number; the key ids that the receiver has forgotten.
pub record Room : Type 0 where
  pub nexts : List (KeyId × ℕ)
  pub sent : List Said
  pub forgotten : List KeyId
  pub tolerance : ℕ
  pub last : ℕ

abbrev pub speak_payload :
    ℕ → Option (KeyId × ℕ) → MediaFrame → Room → List (Outcome (List ℕ)) × Room
speak_payload i none f r = ([], r)
speak_payload i (some (k, next)) f r = (
  [],
  record r {
    nexts = replace_at r.nexts i (k, (next + 1) % max_frame_count);
    sent = record { key_id = k; number = next; frame = f } ∷ r.sent;
  },
)

abbrev pub is_in : KeyId → List KeyId → Bool
is_in k [] = false
is_in k (j ∷ js) = let later = is_in k js in if key_eq j k then true else later

-- What comes out of a frame that the window accepts.
abbrev pub come_out : Bool → Said → Outcome (List ℕ)
come_out true said = err (missing_decryption_key said.key_id)
come_out false said = ok said.frame.payload

abbrev pub hear_payload : Option Said → Room → List (Outcome (List ℕ)) × Room
hear_payload none r = ([], r)
hear_payload (some said) r =
    if accepts r.tolerance r.last said.number
    then (come_out (is_in said.key_id r.forgotten) said ∷ [], record r { last = said.number })
    else (err (frame_validation_failed frame_counter_too_old) ∷ [], r)

abbrev pub step : Event → Room → List (Outcome (List ℕ)) × Room
step (speak i f) r = speak_payload i (get_elem? r.nexts i) f r
step (forge frame skip) r =
    ([], record r { last = last_after (parse (drop skip frame)) r.tolerance r.last })
step (forget k) r = ([], record r { forgotten = k ∷ r.forgotten })
step (hear i) r = hear_payload (get_elem? r.sent i) r

unfoldable pub run_room : List Event → Room → List (Outcome (List ℕ))
run_room [] r = []
run_room (e ∷ es) r = let next = step e r in next.0 ++ run_room es next.1
