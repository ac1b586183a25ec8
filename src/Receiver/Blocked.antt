-- ===== src/Receiver/Blocked.antt =====
-- What one frame does to all that come after it.
use secure_frame_rs.Prelude.{
  ℕ, ◌≡◌, ap, ◌∙◌, refl, List, [], ◌∷◌, drop, map, some, true, false, All, All-drop,
}
use secure_frame_rs.Outcome.{Outcome, ok, err, frame_validation_failed, frame_counter_too_old}
use secure_frame_rs.Bitfield.{Msb0}
use secure_frame_rs.Header.Util.{IsByte}
use secure_frame_rs.Header.FrameCount.{IsCount}
use secure_frame_rs.Header.Structs.{Header}
use secure_frame_rs.Header.Codec
use secure_frame_rs.Header.Codec.Parse.{parse}
use secure_frame_rs.Header.Codec.Bounds.{parse_bounds}
use secure_frame_rs.FrameValidation.{ReplayAttackProtection, validate}
use secure_frame_rs.FrameValidation.Window.{accepts, validate_lem}
use secure_frame_rs.Crypto.Ring
use secure_frame_rs.Receiver.{Receiver, decrypt}
use secure_frame_rs.Receiver.Refusals.{decrypt_refused, decrypt-moves_window}
use secure_frame_rs.Receiver.WellFormed.{frame_count-IsCount}

-- A frame, with its number of skipped bytes, whose count is outside the window around `last`.
pub record IsOutside (tolerance last : ℕ) (sent : List ℕ × ℕ) : Type 0 where
  pub bytes : All IsByte sent.0
  pub header : Header
  pub parsed : parse (drop sent.1 sent.0) ≡ some header
  pub outside : accepts tolerance last (Codec.frame_count header).numeric_value ≡ false

parsed-IsCount :
    (frame : List ℕ) (skip : ℕ) (h : Header)
    → All IsByte frame
    → parse (drop skip frame) ≡ some h
    → IsCount (Codec.frame_count h)
parsed-IsCount frame skip h bytes parsed =
    frame_count-IsCount h
      (parse_bounds (drop skip frame) h (All-drop IsByte skip frame bytes) parsed).0

module _ (bits : Msb0) (ring : Ring.Ring) where
  -- What `decrypt` returns for frames that arrive in this order.
  unfoldable pub decrypt_all : List (List ℕ × ℕ) → Receiver → List (Outcome (List ℕ))
  decrypt_all [] r = []
  decrypt_all (sent ∷ later) r =
      let done = decrypt bits ring sent.0 sent.1 r in done.0 ∷ decrypt_all later done.1

  decrypt-IsOutside :
      (sent : List ℕ × ℕ) (r : Receiver)
      → IsCount r.options.frame_validation.last_frame_count
      → IsOutside r.options.frame_validation.tolerance
          r.options.frame_validation.last_frame_count.numeric_value sent
      → decrypt bits ring sent.0 sent.1 r ≡ (err (frame_validation_failed frame_counter_too_old), r)
  decrypt-IsOutside sent r last_fits out =
      let w : ReplayAttackProtection = r.options.frame_validation in
      let count : IsCount (Codec.frame_count out.header) =
        parsed-IsCount sent.0 sent.1 out.header out.bytes out.parsed in
      decrypt_refused bits ring sent.0 sent.1 r out.header
        (frame_validation_failed frame_counter_too_old) w out.bytes out.parsed
        (validate_lem out.header w count last_fits ∙ rw out.outside refl)

  decrypt_all-IsOutside :
      (later : List (List ℕ × ℕ)) (r : Receiver)
      → IsCount r.options.frame_validation.last_frame_count
      → All
          (IsOutside r.options.frame_validation.tolerance
            r.options.frame_validation.last_frame_count.numeric_value)
          later
      → decrypt_all later r ≡ map (λ _. err (frame_validation_failed frame_counter_too_old)) later
  unfolding decrypt_all
  decrypt_all-IsOutside [] r last_fits out = refl
  decrypt_all-IsOutside (sent ∷ later) r last_fits out =
      rw (decrypt-IsOutside sent r last_fits out.0) (
        ap (λ t. err (frame_validation_failed frame_counter_too_old) ∷ t)
          (decrypt_all-IsOutside later r last_fits out.1))

  -- After one frame with any contents whose count the window accepts, the receiver refuses every frame
  -- of any sequence of frames whose counts are all outside the window around that count, with the
  -- replay error.
  pub decrypt_all-blocked :
      (forged : List ℕ) (skip : ℕ) (h : Header) (later : List (List ℕ × ℕ)) (r : Receiver)
      → All IsByte forged
      → parse (drop skip forged) ≡ some h
      → IsCount r.options.frame_validation.last_frame_count
      → accepts r.options.frame_validation.tolerance
          r.options.frame_validation.last_frame_count.numeric_value
          (Codec.frame_count h).numeric_value
        ≡ true
      → All
          (IsOutside r.options.frame_validation.tolerance (Codec.frame_count h).numeric_value)
          later
      → decrypt_all later (decrypt bits ring forged skip r).1
        ≡ map (λ _. err (frame_validation_failed frame_counter_too_old)) later
  decrypt_all-blocked forged skip h later r bytes parsed last_fits accepted out =
      let w : ReplayAttackProtection = r.options.frame_validation in
      let w' : ReplayAttackProtection = record w { last_frame_count = Codec.frame_count h } in
      let count : IsCount (Codec.frame_count h) = parsed-IsCount forged skip h bytes parsed in
      let moves : validate h w ≡ (ok tt, w') =
        validate_lem h w count last_fits ∙ rw accepted refl in
      let r' : Receiver = (decrypt bits ring forged skip r).1 in
      let moved : r'.options.frame_validation ≡ w' =
        decrypt-moves_window bits ring forged skip r h w' bytes parsed moves in
      decrypt_all-IsOutside later r' (rw moved count) (rw moved out)
