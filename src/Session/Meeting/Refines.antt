-- ===== src/Session/Meeting/Refines.antt =====
-- The code implements the room.
use secure_frame_rs.Prelude.{
  drop, All-drop, All, ℕ, ◌≡◌, ap, ap₂, ◌∙◌, refl, List, [], ◌∷◌, ◌++◌, Bool-cases, inl, inr,
}
use secure_frame_rs.KeyId.{KeyId}
use secure_frame_rs.Bitfield.{Msb0}
use secure_frame_rs.Header.Util.{IsByte}
use secure_frame_rs.Header.Codec.Parse.{parse}
use secure_frame_rs.FrameValidation.{ReplayAttackProtection}
use secure_frame_rs.Crypto.Ring
use secure_frame_rs.Crypto.Secret.{Secret}
use secure_frame_rs.Receiver
use secure_frame_rs.Receiver.Keys.{remove_encryption_key-get}
use secure_frame_rs.Receiver.Secrets
use secure_frame_rs.Receiver.Secrets.{key_eq}
use secure_frame_rs.Receiver.Forged.{last_after, with_last, options-decrypt, last_after-IsCount}
use secure_frame_rs.Receiver.Observed.{secrets-decrypt}
use secure_frame_rs.Session.Meeting.{Event, speak, hear, forge, forget, Meeting, step, run_meeting}
use secure_frame_rs.Session.Meeting.Room
use secure_frame_rs.Session.Meeting.Room.{Room, run_room}
use secure_frame_rs.Session.Meeting.Hosts.{Hosts, CanSpeak, Steps}
use secure_frame_rs.Session.Meeting.Speaking.{speak-Steps}
use secure_frame_rs.Session.Meeting.Hearing.{hear-Steps}

module _ (bits : Msb0) (ring : Ring.Ring) (keys : List (KeyId × Secret)) where
  forget-Steps :
      (k : KeyId) (m : Meeting) (r : Room)
      → Hosts bits ring keys m r
      → Steps bits ring keys (forget k) m r
  forget-Steps k m r hosts =
      let (_, options, left) = remove_encryption_key-get k m.receiver in
      (
        refl,
        record {
          members = hosts.members;
          kept = hosts.kept;
          suite = rw options hosts.suite;
          has_keys = λ j. left j ∙ elim (Bool-cases (key_eq k j)) [
            | inl e ↦ rw e refl
            | inr e ↦ rw e (hosts.has_keys j)
          ];
          tolerance = rw options hosts.tolerance;
          last = rw options hosts.last;
          last_fits = rw options hosts.last_fits;
        },
      )

  forge-Steps :
      (frame : List ℕ) (skip : ℕ) (m : Meeting) (r : Room)
      → Hosts bits ring keys m r
      → All IsByte frame
      → Steps bits ring keys (forge frame skip) m r
  forge-Steps frame skip m r hosts bytes =
      let w : ReplayAttackProtection = m.receiver.options.frame_validation in
      let changed : (Receiver.decrypt bits ring frame skip m.receiver).1.options
          ≡ with_last
              (last_after (parse (drop skip frame)) w.tolerance w.last_frame_count.numeric_value)
              m.receiver.options =
        options-decrypt bits ring frame skip m.receiver bytes hosts.last_fits in
      (
        refl,
        record {
          members = hosts.members;
          kept = hosts.kept;
          suite = rw changed hosts.suite;
          has_keys = λ k.
              ap (Secrets.get k) (secrets-decrypt bits ring frame skip m.receiver)
              ∙ hosts.has_keys k;
          tolerance = rw changed hosts.tolerance;
          last =
              rw changed
                (ap₂ (λ a b. last_after (parse (drop skip frame)) a b) hosts.tolerance hosts.last);
          last_fits = rw changed (
              last_after-IsCount (drop skip frame) w.tolerance w.last_frame_count.numeric_value
                (All-drop IsByte skip frame bytes) hosts.last_fits);
        },
      )

  step-Steps :
      (e : Event) (m : Meeting) (r : Room)
      → Hosts bits ring keys m r
      → CanSpeak ring e
      → Steps bits ring keys e m r
  step-Steps (speak i f) m r hosts can = speak-Steps bits ring keys i f m r hosts can
  step-Steps (hear i) m r hosts can = hear-Steps bits ring keys i m r hosts
  step-Steps (forget k) m r hosts can = forget-Steps k m r hosts
  step-Steps (forge frame skip) m r hosts can = forge-Steps frame skip m r hosts can

  -- With AES-GCM-256/SHA-512, for any number of ready senders whose key ids fit their headers and
  -- whose secrets the receiver has, and for every sequence of frames that can be sent by any of them
  -- and arrive in any order, more than once or never, with forged frames of any bytes and removals of
  -- keys between them, the receiver returns what a room of payloads says, which each sender numbers
  -- on its own: for each frame of a sender whose number the one window accepts the payload, or the
  -- missing key once that sender's key is removed, and the replay error for every other; all that a
  -- forged frame does is to move the window to the count in its header, if the window accepts that.
  pub run_meeting-run_room :
      (es : List Event) (m : Meeting) (r : Room)
      → Hosts bits ring keys m r
      → All (CanSpeak ring) es
      → run_meeting bits ring es m ≡ run_room es r
  unfolding run_meeting run_room
  run_meeting-run_room [] m r hosts can = refl
  run_meeting-run_room (e ∷ es) m r hosts can =
      let (same, next) = step-Steps e m r hosts can.0 in
      ap₂ (λ a b. a ++ b) same
        (run_meeting-run_room es (step bits ring e m).1 (Room.step e r).1 next can.1)
