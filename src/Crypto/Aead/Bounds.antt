-- ===== src/Crypto/Aead/Bounds.antt =====
-- Encryption and decryption of any buffer.
use secure_frame_rs.Prelude.{
  ℕ, ◌≤◌, ◌<◌, ◌≡◌, arith, List, length, Option, Option-cases, some, none, lt-or-le, inl, inr,
}
use secure_frame_rs.Outcome.{Outcome, ok, err, panic, decryption_failure, encryption_failure}
use secure_frame_rs.Header.FrameCount.{FrameCount}
use secure_frame_rs.Crypto.CipherSuite.{CipherSuite}
use secure_frame_rs.Crypto.Ring
use secure_frame_rs.Crypto.Ring.{nonce_len, tag_len}
use secure_frame_rs.Crypto.Secret.{Secret, create_nonce}
use secure_frame_rs.Crypto.Secret.Nonce.{create_nonce_lem, nonce_bytes}
use secure_frame_rs.Crypto.KeyExpansion.{ok_or}
use secure_frame_rs.Crypto.Aead.{algorithm, encrypt, decrypt, unbound_encryption_key}

-- A result is no panic, and the buffer behind a text has room for a tag.
abbrev pub IsOpened : Outcome (List ℕ) × List ℕ → Type 0
IsOpened (ok text, io) = tag_len ≤ length io
IsOpened (err e, io) = Unit
IsOpened (panic, io) = ⊥

-- A result is no panic.
abbrev pub IsSealed : Outcome (List ℕ) × List ℕ → Type 0
IsSealed (ok tag, io) = Unit
IsSealed (err e, io) = Unit
IsSealed (panic, io) = ⊥

sealed : (out : List ℕ × Option (List ℕ)) → IsSealed (ok_or encryption_failure out.1, out.0)
sealed (left, none) = tt
sealed (left, some tag) = tt

module _ (ring : Ring.Ring) where
  open ring use {
    UnboundKey, seal_in_place, new_unbound_key, open_in_place, open_in_place-length,
    open_in_place_short,
  }

  opened :
      (io : List ℕ) (out : List ℕ × Option (List ℕ))
      → length out.0 ≡ length io
      → (length io < tag_len → out.1 ≡ none)
      → IsOpened (ok_or decryption_failure out.1, out.0)
  opened io (left, none) kept short = tt
  opened io (left, some text) kept short = elim (lt-or-le (length io) tag_len) [
    | inl small ↦ let impossible : some text ≡ none = short small in absurd cc
    | inr fits ↦ omega (arith, kept)
  ]

  -- With a salt that is long enough, decrypting any buffer gives an error or a text, never a panic,
  -- and a text only if the buffer has room for a tag.
  pub decrypt-IsOpened :
      (suite : CipherSuite) (secret : Secret) (aad : List ℕ) (c : FrameCount) (io : List ℕ)
      → nonce_len ≤ length secret.salt
      → IsOpened (decrypt ring suite secret aad c io)
  unfolding decrypt unbound_encryption_key
  decrypt-IsOpened suite secret aad c io long =
      let nonce_ok : create_nonce nonce_len secret c ≡ ok (nonce_bytes nonce_len secret c) =
        create_nonce_lem nonce_len secret c long in
      elim (Option-cases (new_unbound_key (algorithm suite.variant) secret.key)) [
        | inl refused ↦ rw refused tt
        | inr (key, found) ↦ rw found (
            rw nonce_ok (
              opened io (open_in_place key (nonce_bytes nonce_len secret c) aad io)
                (open_in_place-length key (nonce_bytes nonce_len secret c) aad io)
                (open_in_place_short key (nonce_bytes nonce_len secret c) aad io)))
      ]

  -- With a salt that is long enough, encrypting any text gives an error or a tag, never a panic.
  pub encrypt-IsSealed :
      (suite : CipherSuite) (secret : Secret) (aad : List ℕ) (c : FrameCount) (text : List ℕ)
      → nonce_len ≤ length secret.salt
      → IsSealed (encrypt ring suite secret aad c text)
  unfolding encrypt unbound_encryption_key
  encrypt-IsSealed suite secret aad c text long =
      let nonce_ok : create_nonce nonce_len secret c ≡ ok (nonce_bytes nonce_len secret c) =
        create_nonce_lem nonce_len secret c long in
      elim (Option-cases (new_unbound_key (algorithm suite.variant) secret.key)) [
        | inl refused ↦ rw refused tt
        | inr (key, found) ↦
            rw found
              (rw nonce_ok (sealed (seal_in_place key (nonce_bytes nonce_len secret c) aad text)))
      ]
