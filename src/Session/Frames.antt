-- ===== src/Session/Frames.antt =====
-- One frame on its way from a sender to a receiver.
use secure_frame_rs.Header.Codec.Fields.{frame_count-with_frame_count, key_id-with_frame_count}
use secure_frame_rs.Prelude.{
  ℕ, ◌-◌, ◌%◌, ◌≤◌, ◌≡◌, ap, ◌∙◌, sym, refl, arith, List, ◌++◌, length, take, drop, some, All,
  All-append, append_assoc, length-take, take-append-drop,
}
use secure_frame_rs.KeyId.{KeyId, FitsHeader}
use secure_frame_rs.Outcome.{ok}
use secure_frame_rs.Outcome.Slices.{slice_from-append}
use secure_frame_rs.Bitfield.{Msb0}
use secure_frame_rs.Header.Util.{IsByte}
use secure_frame_rs.Header.FrameCount.{FrameCount, from_u64}
use secure_frame_rs.Header.FrameCount.Wheel.{advance}
use secure_frame_rs.Header.Structs.{Header, IsHeader}
use secure_frame_rs.Header.Codec
use secure_frame_rs.Header.Codec.Written.{masked}
use secure_frame_rs.Header.Codec.RoundTrip.{encode, length-encode, deserialize-encode}
use secure_frame_rs.FrameValidation.{ReplayAttackProtection, validate}
use secure_frame_rs.Crypto.Aead
use secure_frame_rs.Crypto.CipherSuite.{
  CipherSuiteVariant, aes_gcm128_sha256, aes_gcm256_sha512, from_variant,
}
use secure_frame_rs.Crypto.Ring
use secure_frame_rs.Crypto.Ring.{tag_len}
use secure_frame_rs.Crypto.Secret.{Secret}
use secure_frame_rs.Sender
use secure_frame_rs.Sender.{Sender}
use secure_frame_rs.Sender.Frames.{
  next_header, frame_of, IsReady, SealsNext, sealed_next, encrypt_lem, IsHeader-with_frame_count,
}
use secure_frame_rs.Receiver
use secure_frame_rs.Receiver.{Receiver, set_validation}
use secure_frame_rs.Receiver.Secrets
use secure_frame_rs.Receiver.Frames.{decrypt_with_lem, decrypt_enters}

pub masked-with_frame_count :
    (k : KeyId) (c : FrameCount)
    → FitsHeader k
    → masked (Codec.with_frame_count k c) ≡ Codec.with_frame_count k c
unfolding masked Codec.with_frame_count
masked-with_frame_count (KeyId.basic k) c fits = let e : k % 8 ≡ k = omega arith in rw e
masked-with_frame_count (KeyId.extended k) c fits = refl

auth_tag_len-le : (v : CipherSuiteVariant) → (from_variant v).auth_tag_len ≤ tag_len
auth_tag_len-le aes_gcm128_sha256 = omega arith
auth_tag_len-le aes_gcm256_sha512 = omega arith

-- What the two ends do with one payload. The receiver's result ends in as many bytes too many as the
-- suite's tag length falls short of that of `ring`.
pub record Carries (bits : Msb0) (ring : Ring.Ring) (v : CipherSuiteVariant) (payload : List ℕ)
    (skip : ℕ) (s : Sender) (r : Receiver) (p : ReplayAttackProtection) : Type 0 where
  pub frame : List ℕ
  pub extra : List ℕ
  pub left : List ℕ
  pub sent :
      Sender.encrypt bits ring payload skip s
      ≡ (ok frame, record s { frame_count = advance 1 s.frame_count; buffer = frame })
  pub received :
      Receiver.decrypt bits ring frame skip r
      ≡ (ok (payload ++ extra), record (set_validation p r) { buffer = left })
  pub length_extra : length extra ≡ tag_len - (from_variant v).auth_tag_len

module _ (bits : Msb0) (ring : Ring.Ring) where
  open ring use {max_plaintext_len}

  -- A payload of bytes that has the bytes to skip and is short enough to seal, encrypted by a ready
  -- sender whose key id fits its header, is decrypted, for either suite, by every receiver that has
  -- the same suite, the secret for that key id and a window that accepts the count; the result is the
  -- payload and as many further bytes as the suite's tag length falls short of 16.
  pub encrypt-Carries :
      (v : CipherSuiteVariant) (secret : Secret) (payload : List ℕ) (skip : ℕ) (s : Sender)
      (r : Receiver) (p : ReplayAttackProtection)
      → IsReady v secret s
      → FitsHeader s.key_id
      → r.options.cipher_suite ≡ from_variant v
      → Secrets.get s.key_id r.secrets ≡ some secret
      → validate (next_header s) r.options.frame_validation ≡ (ok tt, p)
      → skip ≤ length payload
      → length payload ≤ max_plaintext_len
      → All IsByte payload
      → Carries bits ring v payload skip s r p
  encrypt-Carries v secret payload skip s r p ready fits suite has_key valid room short bytes =
      let sealed : SealsNext bits ring v secret payload skip s =
        sealed_next bits ring v secret payload skip s ready short bytes in
      let h : Header = next_header s in
      let c : ℕ = s.frame_count.current_frame_count in
      let T : List ℕ = take skip payload in
      let X : List ℕ = drop skip payload in
      let body : List ℕ = sealed.cipher ++ sealed.tag in
      let n : ℕ = (from_variant v).auth_tag_len in
      let T_len : length T ≡ skip = omega (arith, length-take skip payload) in
      let h_ok : IsHeader h =
        IsHeader-with_frame_count s.key_id c ready.key_in_range (omega (arith, ready.on_wheel)) in
      let parsed : Codec.deserialize bits (encode h ++ body) ≡ ok h =
        deserialize-encode bits h body h_ok
          (All-append IsByte sealed.cipher sealed.tag sealed.cipher_bytes sealed.tag_bytes)
        ∙ ap ok (masked-with_frame_count s.key_id (from_u64 c) fits) in
      let found : Secrets.get (Codec.key_id h) r.secrets ≡ some secret =
        ap (λ k. Secrets.get k r.secrets) (key_id-with_frame_count s.key_id (from_u64 c))
        ∙ has_key in
      let extra : List ℕ = take (length sealed.rest - n) sealed.rest in
      let rest_len : length sealed.rest ≡ tag_len = sealed.length_rest in
      record {
        frame = frame_of payload skip h sealed.cipher sealed.tag;
        extra = extra;
        left = T ++ (X ++ sealed.rest);
        sent = encrypt_lem bits ring v secret payload skip s ready room sealed;
        received =
            decrypt_enters bits ring (frame_of payload skip h sealed.cipher sealed.tag)
              (encode h ++ body) skip h p r (slice_from-append T (encode h ++ body) skip T_len)
              parsed valid
            ∙ ap
                (λ t.
                  Receiver.decrypt_by bits ring t h
                    (frame_of payload skip h sealed.cipher sealed.tag) skip (set_validation p r))
                found
            ∙ decrypt_with_lem bits ring v secret h T (encode h) X sealed.rest body skip
                (set_validation p r) suite T_len (length-encode h h_ok)
                (ap (λ f. Aead.decrypt ring (from_variant v) secret (encode h) f body)
                    (frame_count-with_frame_count s.key_id (from_u64 c))
                  ∙ sealed.decrypts)
                (omega (arith, rest_len, auth_tag_len-le v))
            ∙ ap (λ t. (ok t, record (set_validation p r) { buffer = T ++ (X ++ sealed.rest) }))
                (sym (append_assoc T X extra)
                  ∙ ap (λ t. t ++ extra) (take-append-drop skip payload));
        length_extra = omega (arith, length-take (length sealed.rest - n) sealed.rest);
      }
