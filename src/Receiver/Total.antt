-- ===== src/Receiver/Total.antt =====
-- When decryption panics.
use secure_frame_rs.Prelude.{
  ℕ, ◌+◌, ◌-◌, ◌≤◌, ◌≡◌, ◌↔◌, ◌∙◌, sym, ap, refl, arith, List, ◌++◌, length, take, drop, inl, inr,
  All, All-drop, Option, Option-cases, some, none, Bool-cases, length-append, length-take,
  length-drop, le→ltb,
}
use mathlib.Core.Path.{subst}
use secure_frame_rs.Outcome.{
  Outcome, ok, err, panic, slice_to, sub_checked, frame_validation_failed, frame_counter_too_old,
}
use secure_frame_rs.Outcome.Slices.{slice_to_lem, slice_from_lem, slice_from-append}
use secure_frame_rs.Exec.{continue, get, lift, ◌>>=◌}
use secure_frame_rs.Bitfield.{Msb0}
use secure_frame_rs.Header.Util.{IsByte}
use secure_frame_rs.Header.FrameCount.{IsCount}
use secure_frame_rs.Header.Structs.{Header}
use secure_frame_rs.Header.Codec
use secure_frame_rs.Header.Codec.Parse.{parse}
use secure_frame_rs.Header.Codec.Written.{size_bounds}
use secure_frame_rs.Header.Codec.Bounds.{parse_bounds}
use secure_frame_rs.FrameValidation.{ReplayAttackProtection, validate}
use secure_frame_rs.FrameValidation.Window.{accepts, validate_lem}
use secure_frame_rs.Crypto.CipherSuite.{
  CipherSuiteVariant, aes_gcm128_sha256, aes_gcm256_sha512, from_variant,
}
use secure_frame_rs.Crypto.Ring
use secure_frame_rs.Crypto.Ring.{nonce_len, tag_len}
use secure_frame_rs.Crypto.Secret.{Secret}
use secure_frame_rs.Crypto.KeyExpansion.{IsSecretFor}
use secure_frame_rs.Crypto.Aead
use secure_frame_rs.Crypto.Aead.Bounds.{IsOpened, decrypt-IsOpened}
use secure_frame_rs.Receiver.{Receiver, decrypt, decrypt_with, decrypt_by, set_validation}
use secure_frame_rs.Receiver.Secrets
use secure_frame_rs.Receiver.Frames.{decrypt_enters}
use secure_frame_rs.Receiver.Refusals.{decrypt_parsed, decrypt_cut, decrypt_refused}
use secure_frame_rs.Receiver.WellFormed.{IsWellFormed, frame_count-IsCount}

-- A text or an error.
abbrev pub Returns : Outcome (List ℕ) → Type 0
Returns (ok text) = Unit
Returns (err e) = Unit
Returns panic = ⊥

pub suite_bounds :
    (v : CipherSuiteVariant)
    → (nonce_len ≤ (from_variant v).nonce_len) × ((from_variant v).auth_tag_len ≤ tag_len)
suite_bounds aes_gcm128_sha256 = (omega arith, omega arith)
suite_bounds aes_gcm256_sha512 = (omega arith, omega arith)

-- What is left once the buffer was opened, with `front` before it.
abbrev finish : List ℕ → Receiver → Outcome (List ℕ) × List ℕ → Outcome (List ℕ)
finish front r out =
    (continue out.0
      (λ _. get >>= λ done.
        lift (sub_checked (length done.buffer) done.options.cipher_suite.auth_tag_len)
        >>= λ payload_end. lift (slice_to done.buffer payload_end))
      (record r { buffer = front ++ out.1 })).0

finish-Returns :
    (front : List ℕ) (r : Receiver) (out : Outcome (List ℕ) × List ℕ)
    → r.options.cipher_suite.auth_tag_len ≤ tag_len
    → IsOpened out
    → Returns (finish front r out)
finish-Returns front r (ok text, io) small opened =
    let n : ℕ = r.options.cipher_suite.auth_tag_len in
    let room : n ≤ length (front ++ io) = omega (arith, length-append front io) in
    let done : finish front r (ok text, io) ≡ ok (take (length (front ++ io) - n) (front ++ io)) =
      rw (finish, le→ltb (length (front ++ io)) n room)
        (slice_to_lem (front ++ io) (length (front ++ io) - n) (omega arith)) in
    subst Returns (sym done) tt
finish-Returns front r (err e, io) small opened = tt
finish-Returns front r (panic, io) small opened = opened

module _ (bits : Msb0) (ring : Ring.Ring) where
  decrypt_with-Returns :
      (v : CipherSuiteVariant) (secret : Secret) (h : Header) (frame : List ℕ) (skip : ℕ)
      (r : Receiver)
      → r.options.cipher_suite ≡ from_variant v
      → IsSecretFor (from_variant v) secret
      → skip + Codec.size h ≤ length frame
      → Returns (decrypt_with bits ring secret h frame skip r).0
  unfolding decrypt_with
  decrypt_with-Returns v secret h frame skip r suite fits room =
      let B : ℕ = skip + Codec.size h in
      let T : List ℕ = take skip frame in
      let T_len : length T ≡ skip = omega (arith, length-take skip frame) in
      let opened : IsOpened (
          Aead.decrypt ring (from_variant v) secret (drop skip (take B frame)) (Codec.frame_count h)
            (drop B frame)) =
        decrypt-IsOpened ring (from_variant v) secret (drop skip (take B frame))
          (Codec.frame_count h) (drop B frame)
          (omega (arith, fits.salt_fits, (suite_bounds v).0)) in
      rw (slice_to_lem frame skip (omega arith)) (
        rw (slice_from_lem frame B room) (
          rw (slice_from-append T (drop B frame) skip T_len) (
            rw (slice_to_lem frame B room) (
              rw (slice_from_lem (take B frame) skip (omega (arith, length-take B frame))) (
                rw suite (
                  finish-Returns (take skip (T ++ drop B frame))
                    (record r { options = record r.options { cipher_suite = from_variant v } })
                    (Aead.decrypt ring (from_variant v) secret (drop skip (take B frame))
                      (Codec.frame_count h) (drop B frame))
                    (suite_bounds v).1 opened))))))

  by-Returns :
      (v : CipherSuiteVariant) (o : Option Secret) (h : Header) (frame : List ℕ) (skip : ℕ)
      (r : Receiver)
      → r.options.cipher_suite ≡ from_variant v
      → ((secret : Secret) → o ≡ some secret → IsSecretFor (from_variant v) secret)
      → skip + Codec.size h ≤ length frame
      → Returns (decrypt_by bits ring o h frame skip r).0
  by-Returns v none h frame skip r suite keyed room = tt
  by-Returns v (some secret) h frame skip r suite keyed room =
      decrypt_with-Returns v secret h frame skip r suite (keyed secret refl) room

  pub parsed_room :
      (frame : List ℕ) (skip : ℕ) (h : Header)
      → All IsByte frame
      → parse (drop skip frame) ≡ some h
      → skip + Codec.size h ≤ length frame
  parsed_room frame skip h bytes parsed =
      let (fits, room) =
        parse_bounds (drop skip frame) h (All-drop IsByte skip frame bytes) parsed in
      omega (arith, room, length-drop skip frame, size_bounds h fits)

  -- A well-formed receiver never panics on bytes that hold a header behind the skipped ones: it
  -- returns a text or an error, whatever follows the header.
  pub decrypt-Returns :
      (v : CipherSuiteVariant) (frame : List ℕ) (skip : ℕ) (r : Receiver) (h : Header)
      → All IsByte frame
      → IsWellFormed v r
      → parse (drop skip frame) ≡ some h
      → Returns (decrypt bits ring frame skip r).0
  decrypt-Returns v frame skip r h bytes formed parsed =
      let w : ReplayAttackProtection = r.options.frame_validation in
      let count : IsCount (Codec.frame_count h) =
        frame_count-IsCount h
          (parse_bounds (drop skip frame) h (All-drop IsByte skip frame bytes) parsed).0 in
      let (at, header) = decrypt_parsed bits ring frame skip h bytes parsed in
      elim (Bool-cases (
        accepts w.tolerance w.last_frame_count.numeric_value (Codec.frame_count h).numeric_value)) [
          | inl accepted ↦
              let p : ReplayAttackProtection = record w {
                last_frame_count = Codec.frame_count h;
              } in
              let valid : validate h w ≡ (ok tt, p) =
                validate_lem h w count formed.last ∙ rw accepted in
              rw (decrypt_enters bits ring frame (drop skip frame) skip h p r at header valid) (
                by-Returns v (Secrets.get (Codec.key_id h) r.secrets) h frame skip
                  (set_validation p r) formed.suite (formed.keyed (Codec.key_id h))
                  (parsed_room frame skip h bytes parsed))
          | inr refused ↦
              let stays : validate h w ≡ (err (frame_validation_failed frame_counter_too_old), w) =
                validate_lem h w count formed.last ∙ rw refused in
              rw
                (decrypt_refused bits ring frame skip r h
                  (frame_validation_failed frame_counter_too_old) w bytes parsed stays)
                tt
        ]

  -- A well-formed receiver panics on a frame of bytes exactly if the frame ends before its header
  -- does; on every other frame it returns a text or an error.
  pub decrypt-panics_iff :
      (v : CipherSuiteVariant) (frame : List ℕ) (skip : ℕ) (r : Receiver)
      → All IsByte frame
      → IsWellFormed v r
      → ((decrypt bits ring frame skip r).0 ≡ panic) ↔ (parse (drop skip frame) ≡ none)
  decrypt-panics_iff v frame skip r bytes formed = (
    (λ panics. elim (Option-cases (parse (drop skip frame))) [
      | inl cut ↦ cut
      | inr (h, parsed) ↦
          absurd (subst Returns panics (decrypt-Returns v frame skip r h bytes formed parsed))
    ]),
    (λ cut. ap (λ t. t.0) (decrypt_cut bits ring frame skip r bytes cut)),
  )
