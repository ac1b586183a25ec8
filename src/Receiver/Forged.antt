-- ===== src/Receiver/Forged.antt =====
-- What a frame of any bytes can do to a receiver.
use secure_frame_rs.Prelude.{
  ℕ, ◌≡◌, ◌∙◌, ap, refl, List, All, All-drop, drop, Option, Option-cases, none, some, Bool-cases,
  inl, inr, if◌then◌else◌,
}
use secure_frame_rs.Outcome.{Outcome, frame_validation_failed, frame_counter_too_old}
use secure_frame_rs.Bitfield.{Msb0}
use secure_frame_rs.Header.Util.{IsByte}
use secure_frame_rs.Header.FrameCount.{IsCount}
use secure_frame_rs.Header.Structs.{Header}
use secure_frame_rs.Header.Codec
use secure_frame_rs.Header.Codec.Parse.{parse}
use secure_frame_rs.Header.Codec.Bounds.{parse_bounds}
use secure_frame_rs.FrameValidation.{ReplayAttackProtection}
use secure_frame_rs.FrameValidation.Window.{accepts, validate_lem}
use secure_frame_rs.Crypto.Ring
use secure_frame_rs.Receiver.{Receiver, ReceiverOptions, decrypt, set_validation}
use secure_frame_rs.Receiver.Secrets
use secure_frame_rs.Receiver.Frames.{decrypt_enters}
use secure_frame_rs.Receiver.Refusals.{
  decrypt_parsed, decrypt_cut, decrypt_refused, options-decrypt_by,
}
use secure_frame_rs.Receiver.WellFormed.{frame_count-IsCount}

-- The count of a header that the window accepts, and the last one otherwise.
abbrev pub last_after : Option Header → ℕ → ℕ → ℕ
last_after none tolerance last = last
last_after (some h) tolerance last =
    if accepts tolerance last (Codec.frame_count h).numeric_value
    then (Codec.frame_count h).numeric_value
    else last

-- The options of a receiver whose last count is another.
abbrev pub with_last : ℕ → ReceiverOptions → ReceiverOptions
with_last last o = record o {
  frame_validation = record o.frame_validation {
    last_frame_count = record { numeric_value = last };
  };
}

module _ (bits : Msb0) (ring : Ring.Ring) where
  -- A frame of any bytes, whatever becomes of it, changes no more of the options than the last count,
  -- and that only to the count of the header in it, if the window accepts it.
  pub options-decrypt :
      (frame : List ℕ) (skip : ℕ) (r : Receiver)
      → All IsByte frame
      → IsCount r.options.frame_validation.last_frame_count
      → (decrypt bits ring frame skip r).1.options
        ≡ with_last
            (last_after
              (parse (drop skip frame))
              r.options.frame_validation.tolerance
              r.options.frame_validation.last_frame_count.numeric_value)
            r.options
  options-decrypt frame skip r bytes last_fits = elim (Option-cases (parse (drop skip frame))) [
    | inl cut ↦ rw cut (
        ap (λ (t : Outcome (List ℕ) × Receiver). t.1.options)
          (decrypt_cut bits ring frame skip r bytes cut))
    | inr (h, parsed) ↦
        let w : ReplayAttackProtection = r.options.frame_validation in
        let count : IsCount (Codec.frame_count h) =
          frame_count-IsCount h
            (parse_bounds (drop skip frame) h (All-drop IsByte skip frame bytes) parsed).0 in
        let (at, header) = decrypt_parsed bits ring frame skip h bytes parsed in
        let p : ReplayAttackProtection = record w { last_frame_count = Codec.frame_count h } in
        rw parsed
          (elim (Bool-cases (
            accepts w.tolerance w.last_frame_count.numeric_value
              (Codec.frame_count h).numeric_value)) [
                | inl accepted ↦ rw accepted (
                    ap (λ (t : Outcome (List ℕ) × Receiver). t.1.options)
                      (decrypt_enters bits ring frame (drop skip frame) skip h p r at header
                        (validate_lem h w count last_fits ∙ rw accepted refl))
                    ∙ options-decrypt_by bits ring (Secrets.get (Codec.key_id h) r.secrets) h frame
                        skip (set_validation p r))
                | inr refused ↦ rw refused (
                    ap (λ (t : Outcome (List ℕ) × Receiver). t.1.options)
                      (decrypt_refused bits ring frame skip r h
                        (frame_validation_failed frame_counter_too_old) w bytes parsed
                        (validate_lem h w count last_fits ∙ rw refused refl)))
              ])
  ]

-- It stays a u64.
pub last_after-IsCount :
    (frame : List ℕ) (tolerance last : ℕ)
    → All IsByte frame
    → IsCount (record { numeric_value = last })
    → IsCount (record { numeric_value = last_after (parse frame) tolerance last })
last_after-IsCount frame tolerance last bytes fits = elim (Option-cases (parse frame)) [
  | inl cut ↦ rw cut fits
  | inr (h, parsed) ↦
      let count : IsCount (Codec.frame_count h) =
        frame_count-IsCount h (parse_bounds frame h bytes parsed).0 in
      rw parsed (elim (Bool-cases (accepts tolerance last (Codec.frame_count h).numeric_value)) [
        | inl e ↦ rw e count
        | inr e ↦ rw e fits
      ])
]
