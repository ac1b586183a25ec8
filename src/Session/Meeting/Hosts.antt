-- ===== src/Session/Meeting/Hosts.antt =====
-- The state of the code that stands behind a state of the room.
use secure_frame_rs.Prelude.{All, AllPairs, ℕ, ◌≡◌, List, some, none, if◌then◌else◌}
use secure_frame_rs.KeyId.{KeyId, FitsHeader}
use secure_frame_rs.Bitfield.{Msb0}
use secure_frame_rs.Header.FrameCount.{IsCount}
use secure_frame_rs.Header.Util.{IsByte}
use secure_frame_rs.Crypto.CipherSuite.{aes_gcm256_sha512, from_variant}
use secure_frame_rs.Crypto.Ring
use secure_frame_rs.Crypto.Secret.{Secret}
use secure_frame_rs.Sender.{Sender}
use secure_frame_rs.Sender.Frames.{IsReady}
use secure_frame_rs.Receiver.Secrets
use secure_frame_rs.Session.{IsSendable}
use secure_frame_rs.Session.Delivery.{IsSealed}
use secure_frame_rs.Session.Meeting.{Event, speak, hear, forge, forget, Meeting, step}
use secure_frame_rs.Session.Meeting.Room
use secure_frame_rs.Session.Meeting.Room.{Room, Said, is_in}

-- A sender whose secret is in the map of keys, with its key id and next count.
pub record IsMember (keys : List (KeyId × Secret)) (s : Sender) (n : KeyId × ℕ) : Type 0 where
  pub id : s.key_id ≡ n.0
  pub secret : Secret
  pub ready : IsReady aes_gcm256_sha512 secret s
  pub fits : FitsHeader s.key_id
  pub found : Secrets.get s.key_id keys ≡ some secret
  pub counted : s.frame_count.current_frame_count ≡ n.1

-- A frame that a sender with a secret in the map sealed from a payload with its number.
pub record IsKept (bits : Msb0) (ring : Ring.Ring) (keys : List (KeyId × Secret)) (w : List ℕ × ℕ)
    (said : Said) : Type 0 where
  pub secret : Secret
  pub fits : FitsHeader said.key_id
  pub found : Secrets.get said.key_id keys ≡ some secret
  pub skipped : said.frame.skip ≡ w.1
  pub sealed : IsSealed bits ring secret said.key_id said.number said.frame w.0

-- The state of the code behind a state of the room.
pub record Hosts (bits : Msb0) (ring : Ring.Ring) (keys : List (KeyId × Secret)) (m : Meeting)
    (r : Room) : Type 0 where
  pub members : AllPairs (IsMember keys) m.senders r.nexts
  pub kept : AllPairs (IsKept bits ring keys) m.wire r.sent
  pub suite : m.receiver.options.cipher_suite ≡ from_variant aes_gcm256_sha512
  pub has_keys :
      (k : KeyId)
      → Secrets.get k m.receiver.secrets
        ≡ (if is_in k r.forgotten then none else Secrets.get k keys)
  pub tolerance : m.receiver.options.frame_validation.tolerance ≡ r.tolerance
  pub last : m.receiver.options.frame_validation.last_frame_count.numeric_value ≡ r.last
  pub last_fits : IsCount m.receiver.options.frame_validation.last_frame_count

-- Every frame that is sent can be, and forged ones are bytes.
abbrev pub CanSpeak : Ring.Ring → Event → Type 0
CanSpeak ring (speak i f) = IsSendable ring f
CanSpeak ring (hear i) = Unit
CanSpeak ring (forget k) = Unit
CanSpeak ring (forge frame skip) = All IsByte frame

module _ (bits : Msb0) (ring : Ring.Ring) (keys : List (KeyId × Secret)) where
  -- One event: the same reports, and states that belong together.
  abbrev pub Steps : Event → Meeting → Room → Type 0
  Steps e m r =
      ((step bits ring e m).0 ≡ (Room.step e r).0)
      × Hosts bits ring keys (step bits ring e m).1 (Room.step e r).1
