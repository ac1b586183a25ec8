-- ===== src/Session/Delivery.antt =====
-- A frame that a sender encrypted at some time, and a receiver that it reaches at another.
use secure_frame_rs.Header.Codec.Fields.{frame_count-with_frame_count, key_id-with_frame_count}
use secure_frame_rs.Prelude.{
  ℕ, [], ◌≡◌, ap, ◌∙◌, sym, refl, arith, List, ◌++◌, append-nil, some, none, drop, Bool, true,
  false, if◌then◌else◌, Bool-cases, inl, inr,
}
use secure_frame_rs.KeyId.{KeyId, FitsHeader}
use secure_frame_rs.Outcome.{
  ok, err, ok-injective, frame_validation_failed, frame_counter_too_old, missing_decryption_key,
  slice_from,
}
use secure_frame_rs.Bitfield.{Msb0}
use secure_frame_rs.Header.FrameCount.{IsCount, from_u64}
use secure_frame_rs.Header.Codec
use secure_frame_rs.FrameValidation.{ReplayAttackProtection, validate}
use secure_frame_rs.FrameValidation.Window.{accepts, validate_lem}
use secure_frame_rs.Crypto.CipherSuite.{aes_gcm256_sha512, from_variant}
use secure_frame_rs.Crypto.Ring
use secure_frame_rs.Crypto.Secret.{Secret}
use secure_frame_rs.Sender
use secure_frame_rs.Sender.{Sender}
use secure_frame_rs.Sender.Frames.{IsReady, next_header}
use secure_frame_rs.Receiver
use secure_frame_rs.Receiver.{Receiver, set_validation}
use secure_frame_rs.Receiver.Secrets
use secure_frame_rs.Session.{MediaFrame, IsSendable}
use secure_frame_rs.Session.Frames.{Carries, encrypt-Carries}
use secure_frame_rs.Session.Counts.{header_of_frame}
use secure_frame_rs.Session.Linked.{no_bytes}

-- `frame` is what a ready sender with this secret and key id made of `f` at the count `c`.
pub record IsSealed (bits : Msb0) (ring : Ring.Ring) (secret : Secret) (k : KeyId) (c : ℕ)
    (f : MediaFrame) (frame : List ℕ) : Type 0 where
  pub origin : Sender
  pub ready : IsReady aes_gcm256_sha512 secret origin
  pub id : origin.key_id ≡ k
  pub counted : origin.frame_count.current_frame_count ≡ c
  pub sendable : IsSendable ring f
  pub encrypted : (Sender.encrypt bits ring f.payload f.skip origin).0 ≡ ok frame

-- What the receiver needs to open frames of this key id.
pub record CanOpen (secret : Secret) (k : KeyId) (r : Receiver) : Type 0 where
  pub suite : r.options.cipher_suite ≡ from_variant aes_gcm256_sha512
  pub has_key : Secrets.get k r.secrets ≡ some secret
  pub last_fits : IsCount r.options.frame_validation.last_frame_count

-- The window after a frame with the count `c`.
abbrev pub window_at : ℕ → Receiver → ReplayAttackProtection
window_at c r = record r.options.frame_validation { last_frame_count = from_u64 c }

abbrev pub accepts_count : ℕ → Receiver → Bool
accepts_count c r =
    accepts r.options.frame_validation.tolerance
      r.options.frame_validation.last_frame_count.numeric_value c

module _ (bits : Msb0) (ring : Ring.Ring) (secret : Secret) (k : KeyId) (fits : FitsHeader k) where
  validate_sealed :
      (c : ℕ) (f : MediaFrame) (frame : List ℕ) (r : Receiver)
      → (sealed : IsSealed bits ring secret k c f frame)
      → IsCount r.options.frame_validation.last_frame_count
      → validate (next_header sealed.origin) r.options.frame_validation ≡ (
          if accepts_count c r
          then (ok tt, window_at c r)
          else (err (frame_validation_failed frame_counter_too_old), r.options.frame_validation))
  validate_sealed c f frame r sealed last_fits =
      let s : Sender = sealed.origin in
      let count : Codec.frame_count (next_header s) ≡ from_u64 c =
        frame_count-with_frame_count s.key_id (from_u64 s.frame_count.current_frame_count)
        ∙ ap from_u64 sealed.counted in
      let c_ok : IsCount (from_u64 s.frame_count.current_frame_count) =
        omega (arith, sealed.ready.on_wheel) in
      let c_fits : IsCount (Codec.frame_count (next_header s)) =
        rw count (rw (← sealed.counted) c_ok) in
      validate_lem (next_header s) r.options.frame_validation c_fits last_fits ∙ rw count refl

  accepted :
      (c : ℕ) (f : MediaFrame) (frame : List ℕ) (r : Receiver)
      → IsSealed bits ring secret k c f frame
      → CanOpen secret k r
      → accepts_count c r ≡ true
      → (left : List ℕ) × (Receiver.decrypt bits ring frame f.skip r
          ≡ (ok f.payload, record (set_validation (window_at c r) r) { buffer = left }))
  accepted c f frame r sealed opens accepts =
      let s : Sender = sealed.origin in
      let id_fits : FitsHeader s.key_id = rw sealed.id fits in
      let found : Secrets.get s.key_id r.secrets ≡ some secret = rw sealed.id opens.has_key in
      let carried : Carries bits ring aes_gcm256_sha512 f.payload f.skip s r (window_at c r) =
        encrypt-Carries bits ring aes_gcm256_sha512 secret f.payload f.skip s r (window_at c r)
          sealed.ready id_fits opens.suite found
          (validate_sealed c f frame r sealed opens.last_fits ∙ rw accepts refl)
          sealed.sendable.skipped sealed.sendable.short sealed.sendable.bytes in
      let same : carried.frame ≡ frame =
        ok-injective (sym (ap (λ t. t.0) carried.sent) ∙ sealed.encrypted) in
      let whole : f.payload ++ carried.extra ≡ f.payload =
        ap (λ t. f.payload ++ t) (no_bytes carried.extra carried.length_extra)
        ∙ append-nil f.payload in
      let r' : Receiver = record (set_validation (window_at c r) r) { buffer = carried.left } in
      (
        carried.left,
        ap (λ t. Receiver.decrypt bits ring t f.skip r) (sym same)
            ∙ carried.received
            ∙ ap (λ t. (ok t, r')) whole,
      )

  -- The receiver finds the header of a sealed frame, and asks its window.
  decrypt_asks :
      (c : ℕ) (f : MediaFrame) (frame : List ℕ) (r : Receiver)
      → (sealed : IsSealed bits ring secret k c f frame)
      → (slice_from frame f.skip ≡ ok (drop f.skip frame))
        × (Codec.deserialize bits (drop f.skip frame) ≡ ok (next_header sealed.origin))
  decrypt_asks c f frame r sealed =
      let s : Sender = sealed.origin in
      let id_fits : FitsHeader s.key_id = rw sealed.id fits in
      let (frame', sent, parsed, at) =
        header_of_frame bits ring aes_gcm256_sha512 secret f s sealed.ready id_fits
          sealed.sendable in
      let same : frame' ≡ frame = ok-injective (sym (ap (λ t. t.0) sent) ∙ sealed.encrypted) in
      (rw (← same) at, rw (← same) parsed)

  refused :
      (c : ℕ) (f : MediaFrame) (frame : List ℕ) (r : Receiver)
      → IsSealed bits ring secret k c f frame
      → IsCount r.options.frame_validation.last_frame_count
      → accepts_count c r ≡ false
      → Receiver.decrypt bits ring frame f.skip r
        ≡ (err (frame_validation_failed frame_counter_too_old), r)
  unfolding Receiver.decrypt
  refused c f frame r sealed last_fits refuses =
      let (at, parsed) = decrypt_asks c f frame r sealed in
      rw at (rw parsed (rw (validate_sealed c f frame r sealed last_fits) (rw refuses)))

  accepted_without_key :
      (c : ℕ) (f : MediaFrame) (frame : List ℕ) (r : Receiver)
      → IsSealed bits ring secret k c f frame
      → IsCount r.options.frame_validation.last_frame_count
      → Secrets.get k r.secrets ≡ none
      → accepts_count c r ≡ true
      → Receiver.decrypt bits ring frame f.skip r
        ≡ (err (missing_decryption_key k), set_validation (window_at c r) r)
  unfolding Receiver.decrypt
  accepted_without_key c f frame r sealed last_fits missing passes =
      let s : Sender = sealed.origin in
      let (at, parsed) = decrypt_asks c f frame r sealed in
      let id : Codec.key_id (next_header s) ≡ k =
        key_id-with_frame_count s.key_id (from_u64 s.frame_count.current_frame_count) ∙ sealed.id in
      let found : Secrets.get (Codec.key_id (next_header s)) r.secrets ≡ none =
        ap (λ t. Secrets.get t r.secrets) id ∙ missing in
      let r' : Receiver = set_validation (window_at c r) r in
      rw at (
        rw parsed (
          rw (validate_sealed c f frame r sealed last_fits)
            (rw passes (rw found (ap (λ t. (err (missing_decryption_key t), r')) id)))))

  -- A sealed frame whose key the receiver does not have, or not any more, is refused with its key id
  -- if the window accepts its count, which becomes the last one all the same; otherwise it is refused
  -- with the replay error and the receiver stays as it was.
  pub decrypt_without_key :
      (c : ℕ) (f : MediaFrame) (frame : List ℕ) (r : Receiver)
      → IsSealed bits ring secret k c f frame
      → IsCount r.options.frame_validation.last_frame_count
      → Secrets.get k r.secrets ≡ none
      → Receiver.decrypt bits ring frame f.skip r ≡ (
          if accepts_count c r
          then (err (missing_decryption_key k), set_validation (window_at c r) r)
          else (err (frame_validation_failed frame_counter_too_old), r))
  decrypt_without_key c f frame r sealed last_fits missing = elim (Bool-cases (accepts_count c r)) [
    | inl e ↦ rw e (accepted_without_key c f frame r sealed last_fits missing e)
    | inr e ↦ rw e (refused c f frame r sealed last_fits e)
  ]

  -- A frame that a ready sender sealed comes out as its payload, at whatever time it arrives, if the
  -- window accepts its count, which becomes the last one; otherwise it is refused with the replay
  -- error and the receiver stays as it was.
  pub decrypt_sealed :
      (c : ℕ) (f : MediaFrame) (frame : List ℕ) (r : Receiver)
      → IsSealed bits ring secret k c f frame
      → CanOpen secret k r
      → (left : List ℕ) × (Receiver.decrypt bits ring frame f.skip r ≡ (
          if accepts_count c r
          then (ok f.payload, record (set_validation (window_at c r) r) { buffer = left })
          else (err (frame_validation_failed frame_counter_too_old), r)))
  decrypt_sealed c f frame r sealed opens = elim (Bool-cases (accepts_count c r)) [
    | inl e ↦ let (left, eq) = accepted c f frame r sealed opens e in (left, rw e eq)
    | inr e ↦ ([], rw e (refused c f frame r sealed opens.last_fits e))
  ]
