-- ===== src/Session/Truncated.antt =====
-- Basic key ids that the three bits of the header cannot hold.
use secure_frame_rs.Prelude.{
  ℕ, ◌%◌, ◌≡◌, ◌∙◌, ap, refl, arith, List, ◌++◌, take, length-take, none, All-append,
}
use secure_frame_rs.KeyId
use secure_frame_rs.KeyId.{KeyId}
use secure_frame_rs.Outcome.{ok, err, missing_decryption_key}
use secure_frame_rs.Outcome.Slices.{slice_from-append}
use secure_frame_rs.Bitfield.{Msb0}
use secure_frame_rs.Header.Util.{IsByte}
use secure_frame_rs.Header.FrameCount.{from_u64}
use secure_frame_rs.Header.Structs.{Header, IsHeader}
use secure_frame_rs.Header.Codec
use secure_frame_rs.Header.Codec.Written.{masked}
use secure_frame_rs.Header.Codec.RoundTrip.{encode, deserialize-encode}
use secure_frame_rs.FrameValidation.{ReplayAttackProtection, validate}
use secure_frame_rs.Crypto.CipherSuite.{CipherSuiteVariant}
use secure_frame_rs.Crypto.Ring
use secure_frame_rs.Crypto.Secret.{Secret}
use secure_frame_rs.Sender
use secure_frame_rs.Sender.{Sender}
use secure_frame_rs.Sender.Frames.{
  next_header, frame_of, IsReady, SealsNext, sealed_next, encrypt_lem, IsHeader-with_frame_count,
}
use secure_frame_rs.Receiver
use secure_frame_rs.Receiver.{Receiver, set_validation}
use secure_frame_rs.Receiver.Secrets
use secure_frame_rs.Receiver.Frames.{decrypt_enters}
use secure_frame_rs.Session.{MediaFrame, IsSendable}

-- The header that a receiver reads from the next frame of a sender whose key id is `k`.
abbrev header_read : ℕ → Sender → Header
header_read k s =
    Codec.with_frame_count (KeyId.from_u8 (k % 8)) (from_u64 s.frame_count.current_frame_count)

masked-basic :
    (k : ℕ) (s : Sender) → s.key_id ≡ KeyId.from_u8 k → masked (next_header s) ≡ header_read k s
masked-basic k s is = rw is (unfold masked Codec.with_frame_count in refl)

-- A ready sender made for a u8 key id encrypts every frame that can be sent, but its frames name the id's low three bits:
-- a receiver whose window accepts the count and that has no secret for those refuses the frame with
-- the missing key `k % 8`, whether or not it has a secret for `k`.
pub encrypt-truncates :
    (bits : Msb0) (ring : Ring.Ring) (v : CipherSuiteVariant) (secret : Secret) (k : ℕ)
    (f : MediaFrame) (s : Sender) (r : Receiver) (p : ReplayAttackProtection)
    → IsReady v secret s
    → s.key_id ≡ KeyId.from_u8 k
    → IsSendable ring f
    → validate (header_read k s) r.options.frame_validation ≡ (ok tt, p)
    → Secrets.get (KeyId.from_u8 (k % 8)) r.secrets ≡ none
    → (frame : List ℕ) × ((Sender.encrypt bits ring f.payload f.skip s).0 ≡ ok frame)
      × ((Receiver.decrypt bits ring frame f.skip r).0
          ≡ err (missing_decryption_key (KeyId.from_u8 (k % 8))))
encrypt-truncates bits ring v secret k f s r p ready is sendable valid missing =
    let sealed : SealsNext bits ring v secret f.payload f.skip s =
      sealed_next bits ring v secret f.payload f.skip s ready sendable.short sendable.bytes in
    let h : Header = next_header s in
    let T : List ℕ = take f.skip f.payload in
    let body : List ℕ = sealed.cipher ++ sealed.tag in
    let frame : List ℕ = frame_of f.payload f.skip h sealed.cipher sealed.tag in
    let h_ok : IsHeader h =
      IsHeader-with_frame_count s.key_id s.frame_count.current_frame_count ready.key_in_range
        (omega (arith, ready.on_wheel)) in
    let parsed : Codec.deserialize bits (encode h ++ body) ≡ ok (header_read k s) =
      deserialize-encode bits h body h_ok
        (All-append IsByte sealed.cipher sealed.tag sealed.cipher_bytes sealed.tag_bytes)
      ∙ ap ok (masked-basic k s is) in
    let id : Codec.key_id (header_read k s) ≡ KeyId.from_u8 (k % 8) =
      unfold Codec.key_id Codec.with_frame_count in refl in
    (
      frame,
      ap (λ t. t.0)
          (encrypt_lem bits ring v secret f.payload f.skip s ready sendable.skipped sealed),
      ap (λ t. t.0)
            (decrypt_enters bits ring frame (encode h ++ body) f.skip (header_read k s) p r
              (slice_from-append T (encode h ++ body) f.skip
                (omega (arith, length-take f.skip f.payload, sendable.skipped)))
              parsed valid)
          ∙ ap
              (λ t.
                (Receiver.decrypt_by bits ring (Secrets.get t r.secrets) (header_read k s) frame
                  f.skip (set_validation p r)).0)
              id
          ∙ ap
              (λ t.
                (Receiver.decrypt_by bits ring t (header_read k s) frame f.skip
                  (set_validation p r)).0)
              missing
          ∙ ap (λ t. err (missing_decryption_key t)) id,
    )
