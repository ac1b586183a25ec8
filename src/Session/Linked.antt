-- ===== src/Session/Linked.antt =====
-- A sender and a receiver that share a key.
use secure_frame_rs.Header.Codec.Fields.{frame_count-with_frame_count}
use secure_frame_rs.Prelude.{
  ℕ, suc, ◌+◌, ◌%◌, ◌≤◌, ◌<◌, ◌≡◌, ap, ◌∙◌, refl, arith, List, [], ◌∷◌, ◌++◌, length, some, All,
  append-nil, true,
}
use secure_frame_rs.KeyId.{FitsHeader}
use secure_frame_rs.Outcome.{ok}
use secure_frame_rs.Bitfield.{Msb0}
use secure_frame_rs.Header.FrameCount.{from_u64, max_frame_count, IsCount}
use secure_frame_rs.Header.FrameCount.Wheel.{advance}
use secure_frame_rs.Header.Codec
use secure_frame_rs.FrameValidation.{ReplayAttackProtection, validate}
use secure_frame_rs.FrameValidation.Window.{accepts, validate_lem}
use secure_frame_rs.Crypto.CipherSuite.{CipherSuiteVariant, aes_gcm256_sha512, from_variant}
use secure_frame_rs.Crypto.Ring
use secure_frame_rs.Crypto.Secret.{Secret}
use secure_frame_rs.Sender
use secure_frame_rs.Sender.{Sender}
use secure_frame_rs.Sender.Frames.{next_header, IsReady, IsReady-next}
use secure_frame_rs.Receiver
use secure_frame_rs.Receiver.{Receiver, set_validation}
use secure_frame_rs.Receiver.Secrets
use secure_frame_rs.Session.{MediaFrame, exchange, IsSendable}
use secure_frame_rs.Session.Frames.{Carries, encrypt-Carries}

-- The receiver has the sender's secret and suite, and its window stands `gap` places before the
-- sender's next count on the generator's wheel: one for each frame since the last that it accepted.
pub record Linked (v : CipherSuiteVariant) (secret : Secret) (gap : ℕ) (s : Sender) (r : Receiver)
    : Type 0 where
  pub ready : IsReady v secret s
  pub fits : FitsHeader s.key_id
  pub suite : r.options.cipher_suite ≡ from_variant v
  pub has_key : Secrets.get s.key_id r.secrets ≡ some secret
  pub last_on_wheel : r.options.frame_validation.last_frame_count.numeric_value < max_frame_count
  pub follows :
      s.frame_count.current_frame_count
      ≡ (r.options.frame_validation.last_frame_count.numeric_value + gap) % max_frame_count

accepts_next :
    (tolerance n gap : ℕ)
    → n < max_frame_count
    → gap ≤ tolerance
    → accepts tolerance n ((n + gap) % max_frame_count) ≡ true
accepts_next tolerance n gap wheel near = ground arith

-- The window after the sender's next frame.
abbrev pub next_window : Sender → Receiver → ReplayAttackProtection
next_window s r = record r.options.frame_validation {
  last_frame_count = from_u64 s.frame_count.current_frame_count;
}

validate_next :
    (v : CipherSuiteVariant) (secret : Secret) (gap : ℕ) (s : Sender) (r : Receiver)
    → Linked v secret gap s r
    → gap ≤ r.options.frame_validation.tolerance
    → validate (next_header s) r.options.frame_validation ≡ (ok tt, next_window s r)
validate_next v secret gap s r linked near =
    let w : ReplayAttackProtection = r.options.frame_validation in
    let n : ℕ = w.last_frame_count.numeric_value in
    let c : ℕ = s.frame_count.current_frame_count in
    let count : Codec.frame_count (next_header s) ≡ from_u64 c =
      frame_count-with_frame_count s.key_id (from_u64 c) in
    let c_ok : IsCount (from_u64 c) = omega (arith, linked.ready.on_wheel) in
    let fits : IsCount (Codec.frame_count (next_header s)) = rw count c_ok in
    let fits_last : IsCount w.last_frame_count = omega (arith, linked.last_on_wheel) in
    let accepted : accepts w.tolerance n c ≡ true =
      ap (λ t. accepts w.tolerance n t) linked.follows
      ∙ accepts_next w.tolerance n gap linked.last_on_wheel near in
    validate_lem (next_header s) w fits fits_last ∙ rw count (rw accepted)

-- The two ends stay linked when the sender has encrypted a frame and the receiver has decrypted it,
-- whatever the two buffers hold; the window is then one place behind.
pub Linked-next :
    (v : CipherSuiteVariant) (secret : Secret) (gap : ℕ) (s : Sender) (r : Receiver)
    (sent left : List ℕ)
    → Linked v secret gap s r
    → Linked v secret 1
        (record s { frame_count = advance 1 s.frame_count; buffer = sent })
        (record (set_validation (next_window s r) r) { buffer = left })
Linked-next v secret gap s r sent left linked = record {
  ready = IsReady-next v secret s sent linked.ready;
  fits = linked.fits;
  suite = linked.suite;
  has_key = linked.has_key;
  last_on_wheel = linked.ready.on_wheel;
  follows = refl;
}

-- A frame that is lost on its way leaves the window one place further behind.
pub Linked-lost :
    (v : CipherSuiteVariant) (secret : Secret) (gap : ℕ) (s : Sender) (r : Receiver) (sent : List ℕ)
    → Linked v secret gap s r
    → Linked v secret
        (suc gap)
        (record s { frame_count = advance 1 s.frame_count; buffer = sent })
        r
Linked-lost v secret gap s r sent linked = record {
  ready = IsReady-next v secret s sent linked.ready;
  fits = linked.fits;
  suite = linked.suite;
  has_key = linked.has_key;
  last_on_wheel = linked.last_on_wheel;
  follows = omega (arith, linked.follows);
}

abbrev pub payloads : List MediaFrame → List (List ℕ)
payloads [] = []
payloads (f ∷ fs) = f.payload ∷ payloads fs

pub no_bytes : (l : List ℕ) → length l ≡ 0 → l ≡ []
no_bytes [] e = refl
no_bytes (b ∷ l) e = absurd (omega (arith, e))

module _ (bits : Msb0) (ring : Ring.Ring) where
  pub exchange_cons :
      (f : MediaFrame) (fs : List MediaFrame) (s s' : Sender) (r r' : Receiver) (frame out : List ℕ)
      (outs : List (List ℕ))
      → Sender.encrypt bits ring f.payload f.skip s ≡ (ok frame, s')
      → Receiver.decrypt bits ring frame f.skip r ≡ (ok out, r')
      → exchange bits ring fs s' r' ≡ ok outs
      → exchange bits ring (f ∷ fs) s r ≡ ok (out ∷ outs)
  exchange_cons f fs s s' r r' frame out outs sent received rest =
      unfold exchange in rw sent (rw received (rw rest))

  -- The next frame between linked ends.
  pub Carries-next :
      (v : CipherSuiteVariant) (secret : Secret) (gap : ℕ) (f : MediaFrame) (s : Sender)
      (r : Receiver)
      → Linked v secret gap s r
      → gap ≤ r.options.frame_validation.tolerance
      → IsSendable ring f
      → Carries bits ring v f.payload f.skip s r (next_window s r)
  Carries-next v secret gap f s r linked near sendable =
      encrypt-Carries bits ring v secret f.payload f.skip s r (next_window s r) linked.ready
        linked.fits linked.suite linked.has_key (validate_next v secret gap s r linked near)
        sendable.skipped sendable.short sendable.bytes

  -- With the suite AES-GCM-256/SHA-512 the result is the payload.
  pub carried_whole :
      (secret : Secret) (gap : ℕ) (f : MediaFrame) (s : Sender) (r : Receiver)
      → Linked aes_gcm256_sha512 secret gap s r
      → gap ≤ r.options.frame_validation.tolerance
      → IsSendable ring f
      → (frame : List ℕ) × (left : List ℕ) × (Sender.encrypt bits ring f.payload f.skip s
          ≡ (ok frame, record s { frame_count = advance 1 s.frame_count; buffer = frame }))
        × (Receiver.decrypt bits ring frame f.skip r
            ≡ (ok f.payload, record (set_validation (next_window s r) r) { buffer = left }))
  carried_whole secret gap f s r linked near sendable =
      let carried : Carries bits ring aes_gcm256_sha512 f.payload f.skip s r (next_window s r) =
        Carries-next aes_gcm256_sha512 secret gap f s r linked near sendable in
      let whole : f.payload ++ carried.extra ≡ f.payload =
        ap (λ t. f.payload ++ t) (no_bytes carried.extra carried.length_extra)
        ∙ append-nil f.payload in
      let r' : Receiver = record (set_validation (next_window s r) r) { buffer = carried.left } in
      (carried.frame, carried.left, carried.sent, carried.received ∙ ap (λ t. (ok t, r')) whole)

  -- With the suite AES-GCM-256/SHA-512, ends that are linked within a tolerance of at least 1 carry
  -- any sequence of frames that can be sent: every payload comes out as it went in.
  pub exchange-payloads :
      (secret : Secret) (gap : ℕ) (fs : List MediaFrame) (s : Sender) (r : Receiver)
      → Linked aes_gcm256_sha512 secret gap s r
      → gap ≤ r.options.frame_validation.tolerance
      → 1 ≤ r.options.frame_validation.tolerance
      → All (IsSendable ring) fs
      → exchange bits ring fs s r ≡ ok (payloads fs)
  exchange-payloads secret gap [] s r linked near tolerant sendable = unfold exchange in refl
  exchange-payloads secret gap (f ∷ fs) s r linked near tolerant sendable =
      let (frame, left, sent, received) = carried_whole secret gap f s r linked near sendable.0 in
      let r' : Receiver = record (set_validation (next_window s r) r) { buffer = left } in
      exchange_cons f fs s _ r r' frame f.payload (payloads fs) sent received (
        exchange-payloads secret 1 fs _ r'
          (Linked-next aes_gcm256_sha512 secret gap s r frame left linked) tolerant tolerant
          sendable.1)
