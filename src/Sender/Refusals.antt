-- ===== src/Sender/Refusals.antt =====
-- What the sender does not encrypt.
use secure_frame_rs.Prelude.{ℕ, ◌≡◌, ◌<◌, ◌∙◌, List, length, some, none}
use secure_frame_rs.Outcome.{err, panic, missing_encryption_key}
use secure_frame_rs.Outcome.Slices.{slice_to_panics}
use secure_frame_rs.Bitfield.{Msb0}
use secure_frame_rs.Header.FrameCount.Wheel.{IsOnWheel, advance, increment-IsOnWheel}
use secure_frame_rs.Crypto.Ring
use secure_frame_rs.Crypto.Secret.{Secret}
use secure_frame_rs.Sender.{Sender, encrypt, encrypt_with}
use secure_frame_rs.Sender.Frames.{encrypt-enters}

-- Without a key nothing is encrypted and nothing changes, so no count is used up.
pub encrypt_no_key :
    (bits : Msb0) (ring : Ring.Ring) (payload : List ℕ) (skip : ℕ) (s : Sender)
    → s.secret ≡ none
    → encrypt bits ring payload skip s ≡ (err missing_encryption_key, s)
unfolding encrypt
encrypt_no_key bits ring payload skip s missing = rw missing

past_end :
    (bits : Msb0) (ring : Ring.Ring) (secret : Secret) (payload : List ℕ) (skip : ℕ) (s : Sender)
    → IsOnWheel s.frame_count
    → length payload < skip
    → encrypt_with bits ring secret payload skip s
      ≡ (panic, record s { frame_count = advance 1 s.frame_count })
unfolding encrypt_with
past_end bits ring secret payload skip s wheel short =
    rw ((increment-IsOnWheel s.frame_count wheel).0) (rw (slice_to_panics payload skip short))

-- A sender with a key that is to skip more bytes than the payload has panics, and the frame's count is
-- used up all the same.
pub encrypt_past_end :
    (bits : Msb0) (ring : Ring.Ring) (secret : Secret) (payload : List ℕ) (skip : ℕ) (s : Sender)
    → s.secret ≡ some secret
    → IsOnWheel s.frame_count
    → length payload < skip
    → encrypt bits ring payload skip s ≡ (panic, record s { frame_count = advance 1 s.frame_count })
encrypt_past_end bits ring secret payload skip s has_key wheel short =
    encrypt-enters bits ring secret payload skip s has_key
    ∙ past_end bits ring secret payload skip s wheel short
