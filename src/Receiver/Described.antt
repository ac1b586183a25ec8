-- ===== src/Receiver/Described.antt =====
-- The whole of `decrypt` against a description that knows no buffer of the receiver.
use secure_frame_rs.Prelude.{
  ℕ, zero, suc, ◌+◌, ◌-◌, ◌≤◌, ◌≡◌, ◌∙◌, sym, refl, arith, List, [], ◌∷◌, ◌++◌, length, take, drop,
  inl, inr, All, All-drop, Option, Option-cases, some, none, Bool-cases, length-append, length-take,
  le→ltb, if◌then◌else◌, drop-drop, take-append_len,
}
use secure_frame_rs.Outcome.{
  Outcome, ok, err, panic, slice_to, sub_checked, frame_validation_failed, frame_counter_too_old,
  missing_decryption_key,
}
use secure_frame_rs.Outcome.Slices.{slice_to_lem, slice_from_lem, slice_from-append}
use secure_frame_rs.Exec.{continue, get, lift, ◌>>=◌}
use secure_frame_rs.Bitfield.{Msb0}
use secure_frame_rs.Header.Util.{IsByte}
use secure_frame_rs.Header.FrameCount.{IsCount}
use secure_frame_rs.Header.Structs.{Header}
use secure_frame_rs.Header.Codec
use secure_frame_rs.Header.Codec.Parse.{parse}
use secure_frame_rs.Header.Codec.Bounds.{parse_bounds}
use secure_frame_rs.FrameValidation.{ReplayAttackProtection}
use secure_frame_rs.FrameValidation.Window.{accepts, validate_lem}
use secure_frame_rs.Crypto.CipherSuite.{CipherSuiteVariant, from_variant}
use secure_frame_rs.Crypto.Ring
use secure_frame_rs.Crypto.Ring.{nonce_len, tag_len}
use secure_frame_rs.Crypto.Secret.{Secret}
use secure_frame_rs.Crypto.KeyExpansion.{IsSecretFor}
use secure_frame_rs.Crypto.Aead
use secure_frame_rs.Crypto.Aead.Bounds.{IsOpened, decrypt-IsOpened}
use secure_frame_rs.Receiver.{Receiver, decrypt, decrypt_with, decrypt_by, set_validation}
use secure_frame_rs.Receiver.Secrets
use secure_frame_rs.Receiver.Frames.{decrypt_enters}
use secure_frame_rs.Receiver.Refusals.{decrypt_parsed, decrypt_cut, decrypt_refused}
use secure_frame_rs.Receiver.WellFormed.{IsWellFormed, frame_count-IsCount}
use secure_frame_rs.Receiver.Total.{parsed_room, suite_bounds}

-- The result of a decryption whose body was opened with `front` before it: all bytes but as many as
-- the suite says a tag has.
abbrev pub described_result :
    List ℕ → Receiver → Outcome (List ℕ) × List ℕ → Outcome (List ℕ) × Receiver
described_result front r (ok text, io) = (
  ok (take (length (front ++ io) - r.options.cipher_suite.auth_tag_len) (front ++ io)),
  record r { buffer = front ++ io },
)
described_result front r (err e, io) = (err e, record r { buffer = front ++ io })
described_result front r (panic, io) = (panic, record r { buffer = front ++ io })

module _ (ring : Ring.Ring) where
  -- `rest` starts with the header, which is authenticated; the body stands behind it.
  abbrev pub described_with :
      Option Secret → Header → List ℕ → List ℕ → Receiver → Outcome (List ℕ) × Receiver
  described_with none h front rest r = (err (missing_decryption_key (Codec.key_id h)), r)
  described_with (some secret) h front rest r = described_result front r (
      Aead.decrypt ring r.options.cipher_suite secret (take (Codec.size h) rest)
        (Codec.frame_count h) (drop (Codec.size h) rest))

  abbrev pub described_header :
      Option Header → List ℕ → List ℕ → Receiver → Outcome (List ℕ) × Receiver
  described_header none front rest r = (panic, r)
  described_header (some h) front rest r =
      let w = r.options.frame_validation in
      if accepts w.tolerance w.last_frame_count.numeric_value (Codec.frame_count h).numeric_value
      then described_with (Secrets.get (Codec.key_id h) r.secrets) h front rest
          (set_validation (record w { last_frame_count = Codec.frame_count h }) r)
      else (err (frame_validation_failed frame_counter_too_old), r)

  -- The header is looked for behind the skipped bytes.
  unfoldable pub described : List ℕ → ℕ → Receiver → Outcome (List ℕ) × Receiver
  described frame skip r =
      described_header (parse (drop skip frame)) (take skip frame) (drop skip frame) r

drop-take_add : (m n : ℕ) (xs : List ℕ) → drop m (take (m + n) xs) ≡ take n (drop m xs)
drop-take_add zero n xs = let e : 0 + n ≡ n = omega arith in rw e refl
drop-take_add (suc m) zero [] = let e : suc m + 0 ≡ suc m = omega arith in rw e refl
drop-take_add (suc m) (suc n) [] =
    let e : suc m + suc n ≡ suc (m + suc n) = omega arith in rw e refl
drop-take_add (suc m) n (x ∷ xs) =
    let e : suc m + n ≡ suc (m + n) = omega arith in rw e (drop-take_add m n xs)

abbrev finish : List ℕ → Receiver → Outcome (List ℕ) × List ℕ → Outcome (List ℕ) × Receiver
finish front r out =
    continue out.0
      (λ _. get >>= λ done.
        lift (sub_checked (length done.buffer) done.options.cipher_suite.auth_tag_len)
        >>= λ payload_end. lift (slice_to done.buffer payload_end))
      (record r { buffer = front ++ out.1 })

finish-described :
    (front : List ℕ) (r : Receiver) (out : Outcome (List ℕ) × List ℕ)
    → r.options.cipher_suite.auth_tag_len ≤ tag_len
    → IsOpened out
    → finish front r out ≡ described_result front r out
finish-described front r (ok text, io) small opened =
    let n : ℕ = r.options.cipher_suite.auth_tag_len in
    let room : n ≤ length (front ++ io) = omega (arith, length-append front io) in
    rw (le→ltb (length (front ++ io)) n room)
      (rw (slice_to_lem (front ++ io) (length (front ++ io) - n) (omega arith)) refl)
finish-described front r (err e, io) small opened = refl
finish-described front r (panic, io) small opened = refl

module _ (bits : Msb0) (ring : Ring.Ring) where
  decrypt_with-described :
      (v : CipherSuiteVariant) (secret : Secret) (h : Header) (frame : List ℕ) (skip : ℕ)
      (r : Receiver)
      → r.options.cipher_suite ≡ from_variant v
      → nonce_len ≤ length secret.salt
      → skip + Codec.size h ≤ length frame
      → decrypt_with bits ring secret h frame skip r
        ≡ described_with ring (some secret) h (take skip frame) (drop skip frame) r
  unfolding decrypt_with
  decrypt_with-described v secret h frame skip r suite long room =
      let n : ℕ = Codec.size h in
      let B : ℕ = skip + n in
      let T : List ℕ = take skip frame in
      let T_len : length T ≡ skip = omega (arith, length-take skip frame) in
      let small : r.options.cipher_suite.auth_tag_len ≤ tag_len = rw suite (suite_bounds v).1 in
      rw (slice_to_lem frame skip (omega arith)) (
        rw (slice_from_lem frame B room) (
          rw (slice_from-append T (drop B frame) skip T_len) (
            rw (slice_to_lem frame B room) (
              rw (slice_from_lem (take B frame) skip (omega (arith, length-take B frame))) (
                rw (drop-take_add skip n frame) (
                  rw (take-append_len skip T (drop B frame) T_len) (
                    rw (sym (drop-drop n skip frame)) (
                      finish-described T r
                        (Aead.decrypt ring r.options.cipher_suite secret (take n (drop skip frame))
                          (Codec.frame_count h) (drop n (drop skip frame)))
                        small
                        (decrypt-IsOpened ring r.options.cipher_suite secret
                          (take n (drop skip frame)) (Codec.frame_count h)
                          (drop n (drop skip frame)) long)))))))))

  by-described :
      (v : CipherSuiteVariant) (o : Option Secret) (h : Header) (frame : List ℕ) (skip : ℕ)
      (r : Receiver)
      → r.options.cipher_suite ≡ from_variant v
      → ((secret : Secret) → o ≡ some secret → IsSecretFor (from_variant v) secret)
      → skip + Codec.size h ≤ length frame
      → decrypt_by bits ring o h frame skip r
        ≡ described_with ring o h (take skip frame) (drop skip frame) r
  by-described v none h frame skip r suite keyed room = refl
  by-described v (some secret) h frame skip r suite keyed room =
      decrypt_with-described v secret h frame skip r suite
        (omega (arith, (keyed secret refl).salt_fits, (suite_bounds v).0)) room

  -- For a well-formed receiver and every frame of bytes, `decrypt` returns, and leaves in the
  -- receiver, what the description says: a panic if the format finds no header behind the skipped
  -- bytes, the replay error if the window does not accept the header's count, the missing key
  -- otherwise if there is none, and otherwise what opening the bytes behind the header comes to.
  pub decrypt-described :
      (v : CipherSuiteVariant) (frame : List ℕ) (skip : ℕ) (r : Receiver)
      → All IsByte frame
      → IsWellFormed v r
      → decrypt bits ring frame skip r ≡ described ring frame skip r
  decrypt-described v frame skip r bytes formed =
      unfold described in
      elim (Option-cases (parse (drop skip frame))) [
        | inl cut ↦ rw cut (decrypt_cut bits ring frame skip r bytes cut)
        | inr (h, parsed) ↦
            let w : ReplayAttackProtection = r.options.frame_validation in
            let count : IsCount (Codec.frame_count h) =
              frame_count-IsCount h
                (parse_bounds (drop skip frame) h (All-drop IsByte skip frame bytes) parsed).0 in
            let (at, header) = decrypt_parsed bits ring frame skip h bytes parsed in
            let p : ReplayAttackProtection = record w { last_frame_count = Codec.frame_count h } in
            rw parsed
              (elim (Bool-cases (
                accepts w.tolerance w.last_frame_count.numeric_value
                  (Codec.frame_count h).numeric_value)) [
                    | inl accepted ↦ rw accepted (
                        decrypt_enters bits ring frame (drop skip frame) skip h p r at header
                          (validate_lem h w count formed.last ∙ rw accepted refl)
                        ∙ by-described v (Secrets.get (Codec.key_id h) r.secrets) h frame skip
                            (set_validation p r) formed.suite (formed.keyed (Codec.key_id h))
                            (parsed_room bits ring frame skip h bytes parsed))
                    | inr refused ↦ rw refused (
                        decrypt_refused bits ring frame skip r h
                          (frame_validation_failed frame_counter_too_old) w bytes parsed
                          (validate_lem h w count formed.last ∙ rw refused refl))
                  ])
      ]
