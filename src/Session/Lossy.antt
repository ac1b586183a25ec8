-- ===== src/Session/Lossy.antt =====
-- Frames that may be lost on their way to the receiver.
use secure_frame_rs.Prelude.{ℕ, suc, ◌≤◌, ◌≡◌, refl, List, [], ◌∷◌, All}
use secure_frame_rs.Outcome.{Outcome, ok, ◌>>=◌}
use secure_frame_rs.Bitfield.{Msb0}
use secure_frame_rs.Crypto.CipherSuite.{aes_gcm256_sha512}
use secure_frame_rs.Crypto.Ring
use secure_frame_rs.Crypto.Secret.{Secret}
use secure_frame_rs.Sender
use secure_frame_rs.Sender.{Sender}
use secure_frame_rs.Receiver
use secure_frame_rs.Receiver.{Receiver, set_validation}
use secure_frame_rs.Session.{MediaFrame, IsSendable}
use secure_frame_rs.Session.Counts.{header_of_frame}
use secure_frame_rs.Session.Linked.{Linked, Linked-next, Linked-lost, next_window, carried_whole}

-- A frame, and whether it arrives.
pub data Sent : Type 0 where
  arrives : MediaFrame → Sent
  is_lost : MediaFrame → Sent

abbrev pub media_frame : Sent → MediaFrame
media_frame (arrives f) = f
media_frame (is_lost f) = f

module _ (bits : Msb0) (ring : Ring.Ring) where
  -- Every frame is encrypted; those that arrive are decrypted before the next one is sent.
  unfoldable pub transmit : List Sent → Sender → Receiver → Outcome (List (List ℕ))
  transmit [] s r = ok []
  transmit (arrives f ∷ fs) s r = do
    let sent = Sender.encrypt bits ring f.payload f.skip s
    encrypted_frame ← sent.0
    let received = Receiver.decrypt bits ring encrypted_frame f.skip r
    decrypted_frame ← received.0
    rest ← transmit fs sent.1 received.1
    ok (decrypted_frame ∷ rest)
  transmit (is_lost f ∷ fs) s r = do
    let sent = Sender.encrypt bits ring f.payload f.skip s
    encrypted_frame ← sent.0
    transmit fs sent.1 r

-- The payloads that arrive.
unfoldable pub arriving : List Sent → List (List ℕ)
arriving [] = []
arriving (arrives f ∷ fs) = f.payload ∷ arriving fs
arriving (is_lost f ∷ fs) = arriving fs

-- Each frame that arrives is at most `tolerance` places after the one that arrived before it, the
-- first at most that many after a window that is `gap` places behind.
unfoldable pub Survives : ℕ → ℕ → List Sent → Type 0
Survives tolerance gap [] = Unit
Survives tolerance gap (arrives f ∷ fs) = (gap ≤ tolerance) × Survives tolerance 1 fs
Survives tolerance gap (is_lost f ∷ fs) = Survives tolerance (suc gap) fs

module _ (bits : Msb0) (ring : Ring.Ring) where
  transmit_arrives :
      (f : MediaFrame) (fs : List Sent) (s s' : Sender) (r r' : Receiver) (frame out : List ℕ)
      (outs : List (List ℕ))
      → Sender.encrypt bits ring f.payload f.skip s ≡ (ok frame, s')
      → Receiver.decrypt bits ring frame f.skip r ≡ (ok out, r')
      → transmit bits ring fs s' r' ≡ ok outs
      → transmit bits ring (arrives f ∷ fs) s r ≡ ok (out ∷ outs)
  transmit_arrives f fs s s' r r' frame out outs sent received rest =
      unfold transmit in rw sent (rw received (rw rest))

  transmit_lost :
      (f : MediaFrame) (fs : List Sent) (s s' : Sender) (r : Receiver) (frame : List ℕ)
      (outs : List (List ℕ))
      → Sender.encrypt bits ring f.payload f.skip s ≡ (ok frame, s')
      → transmit bits ring fs s' r ≡ ok outs
      → transmit bits ring (is_lost f ∷ fs) s r ≡ ok outs
  transmit_lost f fs s s' r frame outs sent rest = unfold transmit in rw sent rest

  -- With the suite AES-GCM-256/SHA-512 and frames that can be sent, linked ends carry every frame that
  -- arrives, however many are
  -- lost in all, as long as each that arrives is within the tolerance of the one before it: the
  -- receiver returns exactly the payloads that arrive, in their order.
  pub transmit-arriving :
      (secret : Secret) (gap : ℕ) (fs : List Sent) (s : Sender) (r : Receiver)
      → Linked aes_gcm256_sha512 secret gap s r
      → Survives r.options.frame_validation.tolerance gap fs
      → All (λ x. IsSendable ring (media_frame x)) fs
      → transmit bits ring fs s r ≡ ok (arriving fs)
  unfolding arriving Survives
  transmit-arriving secret gap [] s r linked survives sendable = unfold transmit in refl
  transmit-arriving secret gap (arrives f ∷ fs) s r linked survives sendable =
      let (frame, left, sent, received) =
        carried_whole bits ring secret gap f s r linked survives.0 sendable.0 in
      let r' : Receiver = record (set_validation (next_window s r) r) { buffer = left } in
      transmit_arrives f fs s _ r r' frame f.payload (arriving fs) sent received (
        transmit-arriving secret 1 fs _ r'
          (Linked-next aes_gcm256_sha512 secret gap s r frame left linked) survives.1 sendable.1)
  transmit-arriving secret gap (is_lost f ∷ fs) s r linked survives sendable =
      let (frame, sent, _, _) =
        header_of_frame bits ring aes_gcm256_sha512 secret f s linked.ready linked.fits
          sendable.0 in
      transmit_lost f fs s _ r frame (arriving fs) sent (
        transmit-arriving secret (suc gap) fs _ r
          (Linked-lost aes_gcm256_sha512 secret gap s r frame linked) survives sendable.1)
