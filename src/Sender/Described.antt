-- ===== src/Sender/Described.antt =====
-- The whole of `encrypt` against a description that knows no buffer of the sender.
use secure_frame_rs.Prelude.{
  ℕ, ◌≤◌, ◌<◌, ◌≡◌, ◌↔◌, ◌∙◌, sym, ap, refl, List, ◌++◌, length, take, drop, inl, inr, ◌≢◌, Option,
  Option-cases, some, none, leb, le→leb, lt→leb, lt-or-le, if◌then◌else◌,
}
use secure_frame_rs.Outcome.{Outcome, ok, err, panic, missing_encryption_key}
use secure_frame_rs.Bitfield.{Msb0}
use secure_frame_rs.Header.FrameCount.{from_u64}
use secure_frame_rs.Header.FrameCount.Wheel.{advance}
use secure_frame_rs.Header.Codec.RoundTrip.{encode}
use secure_frame_rs.Crypto.CipherSuite.{CipherSuiteVariant}
use secure_frame_rs.Crypto.Ring
use secure_frame_rs.Crypto.Secret.{Secret}
use secure_frame_rs.Crypto.Aead
use secure_frame_rs.Crypto.Aead.Bounds.{IsSealed, encrypt-IsSealed}
use secure_frame_rs.Sender.{Sender, encrypt}
use secure_frame_rs.Sender.Frames.{next_header, sent_with, encrypt_with_lem, encrypt-enters}
use secure_frame_rs.Sender.Refusals.{encrypt_no_key, encrypt_past_end}
use secure_frame_rs.Sender.WellFormed.{IsWellFormed, has_salt}

module _ (ring : Ring.Ring) where
  -- The text behind the skipped bytes is sealed, with the header as what is authenticated.
  abbrev pub described_with : Option Secret → List ℕ → ℕ → Sender → Outcome (List ℕ) × Sender
  described_with none payload skip s = (err missing_encryption_key, s)
  described_with (some secret) payload skip s =
      let next = record s { frame_count = advance 1 s.frame_count } in
      if leb skip (length payload)
      then sent_with (take skip payload ++ encode (next_header s)) next (
          Aead.encrypt ring s.cipher_suite secret (encode (next_header s))
            (from_u64 s.frame_count.current_frame_count) (drop skip payload))
      else (panic, next)

  unfoldable pub described : List ℕ → ℕ → Sender → Outcome (List ℕ) × Sender
  described payload skip s = described_with s.secret payload skip s

sent_with-no_panic :
    (front : List ℕ) (s : Sender) (out : Outcome (List ℕ) × List ℕ)
    → IsSealed out
    → (sent_with front s out).0 ≢ panic
sent_with-no_panic front s (ok tag, io) sealed panics = cc
sent_with-no_panic front s (err e, io) sealed panics = cc
sent_with-no_panic front s (panic, io) sealed panics = sealed

module _ (bits : Msb0) (ring : Ring.Ring) (v : CipherSuiteVariant) where
  -- What a well-formed sender with a key comes to if the payload has the bytes to skip.
  pub encrypt_fits :
      (secret : Secret) (payload : List ℕ) (skip : ℕ) (s : Sender)
      → IsWellFormed v s
      → s.secret ≡ some secret
      → skip ≤ length payload
      → encrypt bits ring payload skip s
        ≡ sent_with
            (take skip payload ++ encode (next_header s))
            (record s { frame_count = advance 1 s.frame_count })
            (Aead.encrypt ring s.cipher_suite secret
              (encode (next_header s))
              (from_u64 s.frame_count.current_frame_count)
              (drop skip payload))
  encrypt_fits secret payload skip s formed found fits =
      encrypt-enters bits ring secret payload skip s found
      ∙ encrypt_with_lem bits ring secret payload skip s formed.key_in_range formed.on_wheel fits

  -- For a well-formed sender and every payload, `encrypt` returns, and leaves in the sender, what the
  -- description says: without a key the missing key, and nothing changes; with one the count is used
  -- up, and it panics if the payload has fewer bytes than are to be skipped; otherwise the frame is the
  -- skipped bytes, the header with that count, and the ciphertext and the tag that sealing the rest
  -- gives, or the error of sealing.
  pub encrypt-described :
      (payload : List ℕ) (skip : ℕ) (s : Sender)
      → IsWellFormed v s
      → encrypt bits ring payload skip s ≡ described ring payload skip s
  unfolding described
  encrypt-described payload skip s formed = elim (Option-cases s.secret) [
    | inl missing ↦
        encrypt_no_key bits ring payload skip s missing
        ∙ ap (λ o. described_with ring o payload skip s) (sym missing)
    | inr (secret, found) ↦
        let by_key : described_with ring s.secret payload skip s
            ≡ described_with ring (some secret) payload skip s =
          ap (λ o. described_with ring o payload skip s) found in
        elim (lt-or-le (length payload) skip) [
          | inl short ↦
              encrypt_past_end bits ring secret payload skip s found formed.on_wheel short
              ∙ sym (by_key ∙ rw (lt→leb skip (length payload) short) refl)
          | inr fits ↦
              encrypt_fits secret payload skip s formed found fits
              ∙ sym (by_key ∙ rw (le→leb skip (length payload) fits) refl)
        ]
  ]

  -- A well-formed sender panics exactly if it has a key and is to skip more bytes than the payload has;
  -- for every other payload it returns a frame or an error.
  pub encrypt-panics_iff :
      (payload : List ℕ) (skip : ℕ) (s : Sender)
      → IsWellFormed v s
      → ((encrypt bits ring payload skip s).0 ≡ panic)
        ↔ ((secret : Secret) × (s.secret ≡ some secret) × (length payload < skip))
  encrypt-panics_iff payload skip s formed = (
    (λ panics. elim (Option-cases s.secret) [
      | inl missing ↦
          let refused : (encrypt bits ring payload skip s).0 ≡ err missing_encryption_key =
            ap (λ t. t.0) (encrypt_no_key bits ring payload skip s missing) in
          absurd cc
      | inr (secret, found) ↦ elim (lt-or-le (length payload) skip) [
        | inl short ↦ (secret, found, short)
        | inr fits ↦ absurd (
            sent_with-no_panic (take skip payload ++ encode (next_header s))
              (record s { frame_count = advance 1 s.frame_count })
              (Aead.encrypt ring s.cipher_suite secret (encode (next_header s))
                (from_u64 s.frame_count.current_frame_count) (drop skip payload))
              (encrypt-IsSealed ring s.cipher_suite secret (encode (next_header s))
                (from_u64 s.frame_count.current_frame_count) (drop skip payload)
                (has_salt v s secret formed found))
              (sym (ap (λ t. t.0) (encrypt_fits secret payload skip s formed found fits)) ∙ panics))
      ]
    ]),
    (λ (secret, found, short).
        ap (λ t. t.0)
          (encrypt_past_end bits ring secret payload skip s found formed.on_wheel short)),
  )
