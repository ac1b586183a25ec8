-- ===== src/Session.antt =====
-- A sender and a receiver that exchange frames, as in tests/integration.rs.
pub mod Frames
pub mod Linked
pub mod Setup
pub mod IntegrationTest
pub mod Counts
pub mod Truncated
pub mod Shortened
pub mod Lossy
pub mod Delivery
pub mod Network
pub mod Shared
pub mod Meeting
pub mod Rekeyed
use secure_frame_rs.Prelude.{ℕ, ◌≤◌, List, [], ◌∷◌, length, All}
use secure_frame_rs.KeyId
use secure_frame_rs.Outcome.{Outcome, ok, ◌>>=◌}
use secure_frame_rs.Bitfield.{Msb0}
use secure_frame_rs.Header.Util.{IsByte}
use secure_frame_rs.Crypto.Ring
use secure_frame_rs.Sender
use secure_frame_rs.Sender.{Sender}
use secure_frame_rs.Receiver
use secure_frame_rs.Receiver.{Receiver}

-- A media frame, and how many of its bytes are sent in the clear.
pub record MediaFrame : Type 0 where
  pub payload : List ℕ
  pub skip : ℕ

module _ (bits : Msb0) (ring : Ring.Ring) where
  -- Each frame is encrypted and decrypted before the next one; the results in order.
  unfoldable pub exchange : List MediaFrame → Sender → Receiver → Outcome (List (List ℕ))
  exchange [] s r = ok []
  exchange (f ∷ fs) s r = do
    let sent = Sender.encrypt bits ring f.payload f.skip s
    encrypted_frame ← sent.0
    let received = Receiver.decrypt bits ring encrypted_frame f.skip r
    decrypted_frame ← received.0
    rest ← exchange fs sent.1 received.1
    ok (decrypted_frame ∷ rest)

  -- A sender for an id and a default receiver, with the same key material, exchange frames.
  unfoldable pub encrypt_decrypt_frames : ℕ → List ℕ → List MediaFrame → Outcome (List (List ℕ))
  encrypt_decrypt_frames participant_id key_material frames = do
    let sender =
        Sender.set_encryption_key ring key_material (Sender.new (KeyId.from_u64 participant_id))
    _ ← sender.0
    let receiver =
        Receiver.set_encryption_key ring (KeyId.from_u64 participant_id) key_material
          Receiver.default
    _ ← receiver.0
    exchange frames sender.1 receiver.1

-- A frame that `ring` can seal and that has the bytes that are skipped.
pub record IsSendable (ring : Ring.Ring) (f : MediaFrame) : Type 0 where
  pub skipped : f.skip ≤ length f.payload
  pub short : length f.payload ≤ Ring.Ring.max_plaintext_len ring
  pub bytes : All IsByte f.payload
