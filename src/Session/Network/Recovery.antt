-- ===== src/Session/Network/Recovery.antt =====
-- A receiver whose window stands ahead of the sender, as after a forged count.
use secure_frame_rs.Prelude.{
  ℕ, zero, suc, ◌+◌, ◌-◌, ◌<◌, ◌%◌, ◌≡◌, ap, ◌∙◌, refl, arith, List, [], ◌∷◌, length, All, true,
  false,
}
use secure_frame_rs.KeyId.{KeyId, FitsHeader}
use secure_frame_rs.Outcome.{Outcome, ok, err, frame_validation_failed, frame_counter_too_old}
use secure_frame_rs.Bitfield.{Msb0}
use secure_frame_rs.Header.FrameCount.{u64_max, max_frame_count}
use secure_frame_rs.FrameValidation.Window.{accepts}
use secure_frame_rs.Crypto.Ring
use secure_frame_rs.Crypto.Secret.{Secret}
use secure_frame_rs.Session.{MediaFrame, IsSendable}
use secure_frame_rs.Session.Network.{Event, send, deliver, Network, run}
use secure_frame_rs.Session.Network.Channel
use secure_frame_rs.Session.Network.Channel.{Channel}
use secure_frame_rs.Session.Network.Refines.{Implements, CanSend, run-run}

-- Each frame arrives before the next one is sent.
abbrev pub in_turn : List MediaFrame → List Event
in_turn [] = []
in_turn (f ∷ fs) = send f ∷ deliver 0 ∷ in_turn fs

-- `n` frames are refused, and every later one comes out.
abbrev pub recovers : ℕ → List MediaFrame → List (Outcome (List ℕ))
recovers n [] = []
recovers zero (f ∷ fs) = ok f.payload ∷ recovers zero fs
recovers (suc n) (f ∷ fs) = err (frame_validation_failed frame_counter_too_old) ∷ recovers n fs

-- How many of the sender's next frames are refused.
abbrev pub wait : Channel → ℕ
wait c = c.last - c.tolerance - c.next

-- The counts do not come to the wrap, neither the sender's nor the window's.
pub record IsBelowWrap (c : Channel) (fs : List MediaFrame) : Type 0 where
  pub sent : c.next + length fs < max_frame_count
  pub window : c.last + c.tolerance < u64_max + c.next
  pub tolerance : c.tolerance < u64_max

abbrev pub sent_next : MediaFrame → Channel → Channel
sent_next f c = (Channel.step (send f) c).1

abbrev pub accepted_next : MediaFrame → Channel → Channel
accepted_next f c = record (sent_next f c) { last = c.next }

run-accepts :
    (f : MediaFrame) (fs : List MediaFrame) (c : Channel)
    → accepts c.tolerance c.last c.next ≡ true
    → Channel.run (in_turn (f ∷ fs)) c ≡ ok f.payload ∷ Channel.run (in_turn fs) (accepted_next f c)
run-accepts f fs c e = unfold Channel.run in rw e refl

run_refuses :
    (f : MediaFrame) (fs : List MediaFrame) (c : Channel)
    → accepts c.tolerance c.last c.next ≡ false
    → Channel.run (in_turn (f ∷ fs)) c
      ≡ err (frame_validation_failed frame_counter_too_old)
        ∷ Channel.run (in_turn fs) (sent_next f c)
run_refuses f fs c e = unfold Channel.run in rw e refl

accepts_caught_up :
    (tolerance last next : ℕ) → last - tolerance - next ≡ 0 → accepts tolerance last next ≡ true
accepts_caught_up tolerance last next e = ground arith

refuses_behind :
    (tolerance last next n : ℕ)
    → last - tolerance - next ≡ suc n
    → last + tolerance < u64_max + next
    → accepts tolerance last next ≡ false
refuses_behind tolerance last next n e window = ground arith

recovers_from :
    (n : ℕ) (fs : List MediaFrame) (c : Channel)
    → wait c ≡ n
    → IsBelowWrap c fs
    → Channel.run (in_turn fs) c ≡ recovers n fs
recovers_from n [] c e below = unfold Channel.run in refl
recovers_from zero (f ∷ fs) c e below =
    let next : (c.next + 1) % max_frame_count ≡ c.next + 1 = omega (arith, below.sent) in
    run-accepts f fs c (accepts_caught_up c.tolerance c.last c.next e)
    ∙ ap (λ t. ok f.payload ∷ t)
        (recovers_from zero fs (accepted_next f c) (omega (arith, next)) (record {
          sent = omega (arith, below.sent);
          window = omega (arith, next, below.tolerance);
          tolerance = below.tolerance;
        }))
recovers_from (suc n) (f ∷ fs) c e below =
    let next : (c.next + 1) % max_frame_count ≡ c.next + 1 = omega (arith, below.sent) in
    run_refuses f fs c (refuses_behind c.tolerance c.last c.next n e below.window)
    ∙ ap (λ t. err (frame_validation_failed frame_counter_too_old) ∷ t)
        (recovers_from n fs (sent_next f c) (omega (arith, next, e)) (record {
          sent = omega (arith, below.sent);
          window = omega (arith, next, below.window);
          tolerance = below.tolerance;
        }))

CanSend-in_turn :
    (ring : Ring.Ring) (fs : List MediaFrame)
    → All (IsSendable ring) fs
    → All (CanSend ring) (in_turn fs)
CanSend-in_turn ring [] can = tt
CanSend-in_turn ring (f ∷ fs) can = (can.0, (tt, CanSend-in_turn ring fs can.1))

-- With AES-GCM-256/SHA-512, a receiver whose last count is ahead of the sender's next one by more
-- than its tolerance, as after a forged count, refuses exactly the frames whose counts are more than
-- the tolerance behind and then returns the payload of every frame, if neither the sender's counts
-- nor the window come to the wrap and frames that can be sent arrive in turn.
pub run-recovers :
    (bits : Msb0) (ring : Ring.Ring) (secret : Secret) (k : KeyId) (fs : List MediaFrame)
    (n : Network) (c : Channel)
    → FitsHeader k
    → Implements bits ring secret k n c
    → IsBelowWrap c fs
    → All (IsSendable ring) fs
    → run bits ring (in_turn fs) n ≡ recovers (wait c) fs
run-recovers bits ring secret k fs n c fits implements below can =
    run-run bits ring secret k fits (in_turn fs) n c implements (CanSend-in_turn ring fs can)
    ∙ recovers_from (wait c) fs c refl below
