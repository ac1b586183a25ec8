-- ===== src/Receiver/Refusals.antt =====
-- Frames that are not decrypted, and what they leave behind.
use secure_frame_rs.Prelude.{
  ℕ, zero, suc, ◌<◌, ◌≡◌, ap, ◌∙◌, refl, arith, List, [], ◌∷◌, length, drop, Option, some, none,
  All, All-drop, lt-or-le, inl, inr, true, false,
}
use secure_frame_rs.Outcome.{
  Outcome, ok, err, panic, SframeError, missing_decryption_key, frame_validation_failed,
  frame_counter_too_old, slice_from,
}
use secure_frame_rs.Outcome.Slices.{slice_from_lem, slice_from_panics}
use secure_frame_rs.Bitfield.{Msb0}
use secure_frame_rs.Header.Util.{IsByte}
use secure_frame_rs.Header.FrameCount.{IsCount}
use secure_frame_rs.Header.Structs.{Header}
use secure_frame_rs.Header.Codec
use secure_frame_rs.Header.Codec.Parse.{parse, deserialize-parse, or_panic}
use secure_frame_rs.FrameValidation.{ReplayAttackProtection, validate}
use secure_frame_rs.FrameValidation.Window.{accepts, validate_lem}
use secure_frame_rs.Crypto.Ring
use secure_frame_rs.Crypto.Secret.{Secret}
use secure_frame_rs.Receiver.{
  Receiver, ReceiverOptions, decrypt, decrypt_with, decrypt_by, set_validation,
}
use secure_frame_rs.Receiver.Secrets
use secure_frame_rs.Receiver.Frames.{decrypt_enters}

past_end :
    (frame : List ℕ) (skip : ℕ) (h : Header)
    → length frame < skip
    → parse (drop skip frame) ≡ some h
    → ⊥
past_end [] zero h out e = absurd (omega arith)
past_end [] (suc skip) h out e = unfold parse in cc
past_end (b ∷ frame) zero h out e = absurd (omega arith)
past_end (b ∷ frame) (suc skip) h out e = past_end frame skip h (omega arith) e

module _ (bits : Msb0) (ring : Ring.Ring) where
  -- A frame that ends before its header does makes `decrypt` panic, with the receiver unchanged.
  pub decrypt_cut :
      (frame : List ℕ) (skip : ℕ) (r : Receiver)
      → All IsByte frame
      → parse (drop skip frame) ≡ none
      → decrypt bits ring frame skip r ≡ (panic, r)
  unfolding decrypt
  decrypt_cut frame skip r bytes cut = elim (lt-or-le (length frame) skip) [
    | inl out ↦ rw (slice_from_panics frame skip out)
    | inr fits ↦
        rw (slice_from_lem frame skip fits) (
          rw (deserialize-parse bits (drop skip frame) (All-drop IsByte skip frame bytes)) (rw cut))
  ]

  pub options-decrypt_with :
      (secret : Secret) (h : Header) (frame : List ℕ) (skip : ℕ) (r : Receiver)
      → (decrypt_with bits ring secret h frame skip r).1.options ≡ r.options
  unfolding decrypt_with
  options-decrypt_with secret h frame skip r = ground arith

  pub options-decrypt_by :
      (o : Option Secret) (h : Header) (frame : List ℕ) (skip : ℕ) (r : Receiver)
      → (decrypt_by bits ring o h frame skip r).1.options ≡ r.options
  options-decrypt_by none h frame skip r = refl
  options-decrypt_by (some secret) h frame skip r = options-decrypt_with secret h frame skip r

  -- A frame whose header the buffer holds: what is left is the check of its count and what follows.
  pub decrypt_parsed :
      (frame : List ℕ) (skip : ℕ) (h : Header)
      → All IsByte frame
      → parse (drop skip frame) ≡ some h
      → (slice_from frame skip ≡ ok (drop skip frame))
        × (Codec.deserialize bits (drop skip frame) ≡ ok h)
  decrypt_parsed frame skip h bytes parsed = (
    (elim (lt-or-le (length frame) skip) [
      | inl out ↦ absurd (past_end frame skip h out parsed)
      | inr fits ↦ slice_from_lem frame skip fits
    ]),
    deserialize-parse bits (drop skip frame) (All-drop IsByte skip frame bytes)
        ∙ ap or_panic parsed,
  )

  -- A frame whose count the check refuses is refused with the check's error.
  pub decrypt_refused :
      (frame : List ℕ) (skip : ℕ) (r : Receiver) (h : Header) (e : SframeError)
      (p : ReplayAttackProtection)
      → All IsByte frame
      → parse (drop skip frame) ≡ some h
      → validate h r.options.frame_validation ≡ (err e, p)
      → decrypt bits ring frame skip r ≡ (err e, set_validation p r)
  unfolding decrypt
  decrypt_refused frame skip r h e p bytes parsed refused =
      let (at, header) = decrypt_parsed frame skip h bytes parsed in rw at (rw header (rw refused))

  -- A frame for a key id without a secret is refused with that key id, and still moves the window.
  pub decrypt_no_key :
      (frame : List ℕ) (skip : ℕ) (r : Receiver) (h : Header) (p : ReplayAttackProtection)
      → All IsByte frame
      → parse (drop skip frame) ≡ some h
      → validate h r.options.frame_validation ≡ (ok tt, p)
      → Secrets.get (Codec.key_id h) r.secrets ≡ none
      → decrypt bits ring frame skip r
        ≡ (err (missing_decryption_key (Codec.key_id h)), set_validation p r)
  decrypt_no_key frame skip r h p bytes parsed valid missing =
      let (at, header) = decrypt_parsed frame skip h bytes parsed in
      decrypt_enters bits ring frame (drop skip frame) skip h p r at header valid
      ∙ ap (λ t. decrypt_by bits ring t h frame skip (set_validation p r)) missing

  -- The window follows every frame whose count is accepted, whether or not the frame has a key and
  -- decrypts.
  pub decrypt-moves_window :
      (frame : List ℕ) (skip : ℕ) (r : Receiver) (h : Header) (p : ReplayAttackProtection)
      → All IsByte frame
      → parse (drop skip frame) ≡ some h
      → validate h r.options.frame_validation ≡ (ok tt, p)
      → (decrypt bits ring frame skip r).1.options.frame_validation ≡ p
  decrypt-moves_window frame skip r h p bytes parsed valid =
      let (at, header) = decrypt_parsed frame skip h bytes parsed in
      ap (λ (t : Outcome (List ℕ) × Receiver). t.1.options.frame_validation)
        (decrypt_enters bits ring frame (drop skip frame) skip h p r at header valid)
      ∙ ap (λ (t : ReceiverOptions). t.frame_validation)
          (options-decrypt_by (Secrets.get (Codec.key_id h) r.secrets) h frame skip
            (set_validation p r))

  -- One frame with any contents whose count the window accepts makes the receiver refuse every later
  -- frame whose count is outside the window around that count.
  pub decrypt-blocked :
      (forged frame : List ℕ) (skip : ℕ) (r : Receiver) (h g : Header)
      → All IsByte forged
      → All IsByte frame
      → parse (drop skip forged) ≡ some h
      → parse (drop skip frame) ≡ some g
      → IsCount r.options.frame_validation.last_frame_count
      → IsCount (Codec.frame_count h)
      → IsCount (Codec.frame_count g)
      → accepts r.options.frame_validation.tolerance
          r.options.frame_validation.last_frame_count.numeric_value
          (Codec.frame_count h).numeric_value
        ≡ true
      → accepts r.options.frame_validation.tolerance
          (Codec.frame_count h).numeric_value
          (Codec.frame_count g).numeric_value
        ≡ false
      → (decrypt bits ring frame skip (decrypt bits ring forged skip r).1).0
        ≡ err (frame_validation_failed frame_counter_too_old)
  decrypt-blocked forged frame skip r h g b1 b2 p1 p2 c0 c1 c2 in1 out2 =
      let w : ReplayAttackProtection = r.options.frame_validation in
      let w' : ReplayAttackProtection = record w { last_frame_count = Codec.frame_count h } in
      let first : validate h w ≡ (ok tt, w') = validate_lem h w c1 c0 ∙ rw in1 in
      let second : validate g w' ≡ (err (frame_validation_failed frame_counter_too_old), w') =
        validate_lem g w' c2 c1 ∙ rw out2 in
      let r' : Receiver = (decrypt bits ring forged skip r).1 in
      let moved : r'.options.frame_validation ≡ w' =
        decrypt-moves_window forged skip r h w' b1 p1 first in
      ap (λ (t : Outcome (List ℕ) × Receiver). t.0)
        (decrypt_refused frame skip r' g (frame_validation_failed frame_counter_too_old) w' b2 p2
          (ap (validate g) moved ∙ second))
