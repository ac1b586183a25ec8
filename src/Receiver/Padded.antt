-- ===== src/Receiver/Padded.antt =====
-- Frames of another program whose header has leading zero bytes in a field.
use secure_frame_rs.Prelude.{
  ℕ, ◌+◌, ◌<◌, ◌≡◌, ◌∙◌, refl, arith, List, ◌∷◌, ◌++◌, length, take, drop, true, inl, inr, lt-or-le,
  All, All-append, some, take-append_len, drop-append_len, take-append_le, drop-append_le,
}
use secure_frame_rs.Bitfield.{Msb0}
use secure_frame_rs.Header.Util.{IsByte}
use secure_frame_rs.Header.Structs.{Header}
use secure_frame_rs.Header.Codec
use secure_frame_rs.Header.Codec.Parse.{parse}
use secure_frame_rs.Header.Codec.Valid.{needed}
use secure_frame_rs.Header.Codec.Padded.{HasMinimalFields, parse-SizeOf, parse-append}
use secure_frame_rs.FrameValidation.Window.{accepts}
use secure_frame_rs.Crypto.CipherSuite.{CipherSuiteVariant}
use secure_frame_rs.Crypto.Ring
use secure_frame_rs.Crypto.Secret.{Secret}
use secure_frame_rs.Crypto.Aead
use secure_frame_rs.Receiver.{Receiver, decrypt, set_validation}
use secure_frame_rs.Receiver.Secrets
use secure_frame_rs.Receiver.WellFormed.{IsWellFormed}
use secure_frame_rs.Receiver.Described.{described, described_result, decrypt-described}

-- The receiver with its window at the count of this header.
abbrev pub moved_to : Header → Receiver → Receiver
moved_to h r =
    set_validation (record r.options.frame_validation { last_frame_count = Codec.frame_count h }) r

-- The first byte of a header with its fields, what stands behind it, and what the receiver knows of it.
pub record IsKnown (b : ℕ) (fields : List ℕ) (h : Header) (secret : Secret) (r : Receiver)
    : Type 0 where
  pub exact : length fields ≡ needed b
  pub parsed : parse (b ∷ fields) ≡ some h
  pub found : Secrets.get (Codec.key_id h) r.secrets ≡ some secret
  pub accepted :
      accepts r.options.frame_validation.tolerance
        r.options.frame_validation.last_frame_count.numeric_value
        (Codec.frame_count h).numeric_value
      ≡ true

module _ (bits : Msb0) (ring : Ring.Ring) where
  -- A well-formed receiver that has the key and whose window accepts the count takes a header with a
  -- leading zero byte in a field for shorter than it is: only its first `size` bytes are what it
  -- authenticates, and the others stand in front of the body that it opens.
  pub decrypt-padded :
      (v : CipherSuiteVariant) (front : List ℕ) (b : ℕ) (fields body : List ℕ) (h : Header)
      (secret : Secret) (r : Receiver)
      → All IsByte front
      → All IsByte (b ∷ fields)
      → All IsByte body
      → IsWellFormed v r
      → IsKnown b fields h secret r
      → ¬ HasMinimalFields b fields
      → (Codec.size h < length (b ∷ fields))
        × (decrypt bits ring (front ++ b ∷ (fields ++ body)) (length front) r
            ≡ described_result front (moved_to h r) (
                Aead.decrypt ring r.options.cipher_suite secret
                  (take (Codec.size h) (b ∷ fields))
                  (Codec.frame_count h)
                  (drop (Codec.size h) (b ∷ fields) ++ body)))
  decrypt-padded v front b fields body h secret r before header behind formed known padded =
      let (most, exact) = parse-SizeOf b fields h header.1 known.parsed in
      let short : Codec.size h < length (b ∷ fields) =
        elim (lt-or-le (Codec.size h) (needed b + 1)) [
          | inl less ↦ omega (arith, known.exact)
          | inr same ↦ absurd (padded (exact.0 (omega arith)))
        ] in
      let X : List ℕ = b ∷ (fields ++ body) in
      let bytes : All IsByte (front ++ X) =
        All-append IsByte front X before
          (header.0, All-append IsByte fields body header.1 behind) in
      let at : parse X ≡ some h =
        parse-append b fields body (omega (arith, known.exact)) ∙ known.parsed in
      let aad : take (Codec.size h) X ≡ take (Codec.size h) (b ∷ fields) =
        take-append_le (Codec.size h) (b ∷ fields) body (omega arith) in
      let io : drop (Codec.size h) X ≡ drop (Codec.size h) (b ∷ fields) ++ body =
        drop-append_le (Codec.size h) (b ∷ fields) body (omega arith) in
      (
        short,
        decrypt-described bits ring v (front ++ X) (length front) r bytes formed
            ∙ unfold described in
              (rw
                (
                  drop-append_len (length front) front X refl,
                  take-append_len (length front) front X refl,
                )
                (rw at (rw (known.accepted, known.found) (rw (aad, io) refl)))),
      )
