-- ===== src/Receiver/Frames.antt =====
-- What the receiver reads.
use secure_frame_rs.Prelude.{
  ℕ, ◌+◌, ◌-◌, ◌≤◌, ◌≡◌, ap, ◌∙◌, sym, arith, List, ◌++◌, length, take, length-append, append_assoc,
  le→ltb, take-append_len, take-append_add,
}
use secure_frame_rs.Outcome.{ok, slice_to, slice_from}
use secure_frame_rs.Outcome.Slices.{slice_to_lem, slice_to-append, slice_from-append}
use secure_frame_rs.Bitfield.{Msb0}
use secure_frame_rs.Header.Structs.{Header}
use secure_frame_rs.Header.Codec
use secure_frame_rs.FrameValidation.{ReplayAttackProtection, validate}
use secure_frame_rs.Crypto.CipherSuite.{CipherSuiteVariant, from_variant}
use secure_frame_rs.Crypto.Ring
use secure_frame_rs.Crypto.Aead
use secure_frame_rs.Crypto.Secret.{Secret}
use secure_frame_rs.Receiver.{Receiver, decrypt, decrypt_with, decrypt_by, set_validation}
use secure_frame_rs.Receiver.Secrets

-- `frame` is skipped bytes, a header and what was sealed behind it.
abbrev pub parts : List ℕ → List ℕ → List ℕ → List ℕ
parts skipped header_bytes body = skipped ++ (header_bytes ++ body)

-- A buffer without its last `n` bytes.
slice_to_front :
    (front rest : List ℕ) (n : ℕ)
    → n ≤ length rest
    → slice_to (front ++ rest) (length (front ++ rest) - n)
      ≡ ok (front ++ take (length rest - n) rest)
slice_to_front front rest n h =
    slice_to_lem (front ++ rest) (length (front ++ rest) - n)
      (omega (arith, length-append front rest))
    ∙ ap ok (
        take-append_add front rest (length rest - n) (length (front ++ rest) - n)
          (omega (arith, length-append front rest)))

cut :
    (T text rest : List ℕ) (n : ℕ)
    → n ≤ length rest
    → slice_to (T ++ (text ++ rest)) (length (T ++ (text ++ rest)) - n)
      ≡ ok (T ++ (text ++ take (length rest - n) rest))
cut T text rest n h =
    ap (λ t. slice_to t (length t - n)) (sym (append_assoc T text rest))
    ∙ slice_to_front (T ++ text) rest n h
    ∙ ap ok (append_assoc T text (take (length rest - n) rest))

module _ (bits : Msb0) (ring : Ring.Ring) where
  -- The buffer of a decryption that succeeds: the skipped bytes, the text, and the tag's place; the
  -- result leaves out as many bytes as the suite's tag length says.
  pub decrypt_with_lem :
      (v : CipherSuiteVariant) (secret : Secret) (h : Header) (T E text rest body : List ℕ)
      (skip : ℕ) (r : Receiver)
      → r.options.cipher_suite ≡ from_variant v
      → length T ≡ skip
      → length E ≡ Codec.size h
      → Aead.decrypt ring (from_variant v) secret E (Codec.frame_count h) body
        ≡ (ok text, text ++ rest)
      → (from_variant v).auth_tag_len ≤ length rest
      → decrypt_with bits ring secret h (parts T E body) skip r ≡ (
        ok (T ++ (text ++ take (length rest - (from_variant v).auth_tag_len) rest)),
        record r { buffer = T ++ (text ++ rest) },
      )
  unfolding decrypt_with
  decrypt_with_lem v secret h T E text rest body skip r suite T_len E_len opened room =
      let B : ℕ = skip + Codec.size h in
      let TE_len : length (T ++ E) ≡ B = omega (arith, length-append T E) in
      let body_at : slice_from (parts T E body) B ≡ ok body =
        ap (λ t. slice_from t B) (sym (append_assoc T E body))
        ∙ slice_from-append (T ++ E) body B TE_len in
      let front_at : slice_to (parts T E body) B ≡ ok (T ++ E) =
        ap (λ t. slice_to t B) (sym (append_assoc T E body))
        ∙ slice_to-append (T ++ E) body B TE_len in
      rw (slice_to-append T (E ++ body) skip T_len) (
        rw body_at (
          rw (slice_from-append T body skip T_len) (
            rw front_at (
              rw (slice_from-append T E skip T_len) (
                rw suite (
                  rw opened (
                    rw (take-append_len skip T body T_len) (
                      rw
                        (le→ltb (length (T ++ (text ++ rest))) (from_variant v).auth_tag_len
                          (omega (arith, length-append T (text ++ rest), length-append text rest)))
                        (rw (cut T text rest (from_variant v).auth_tag_len room))))))))))

  -- The frame is read up to the check of its count, which may change the window and refuse it.
  pub decrypt_enters :
      (frame received : List ℕ) (skip : ℕ) (h : Header) (p : ReplayAttackProtection) (r : Receiver)
      → slice_from frame skip ≡ ok received
      → Codec.deserialize bits received ≡ ok h
      → validate h r.options.frame_validation ≡ (ok tt, p)
      → decrypt bits ring frame skip r
        ≡ decrypt_by bits ring
            (Secrets.get (Codec.key_id h) r.secrets)
            h
            frame
            skip
            (set_validation p r)
  unfolding decrypt
  decrypt_enters frame received skip h p r at parsed valid = rw at (rw parsed (rw valid))
