-- ===== src/Sender/Frames.antt =====
-- What the sender writes.
use secure_frame_rs.Header.Codec.Fields.{frame_count-with_frame_count}
use secure_frame_rs.Prelude.{
  ℕ, ◌+◌, ◌≤◌, ◌<◌, ◌≡◌, ap, ◌∙◌, refl, arith, List, ◌++◌, length, take, drop, some, All, All-drop,
  length-append, ◌^◌, length-take, length-drop, append_assoc,
}
use secure_frame_rs.KeyId.{KeyId, InRange}
use secure_frame_rs.Outcome.{Outcome, ok, err, panic}
use secure_frame_rs.Exec.{continue, get, pure, ◌>>=◌}
use secure_frame_rs.Outcome.Slices.{
  slice_to_lem, slice_from_lem, slice_to-append, slice_from-append,
}
use secure_frame_rs.Bitfield.{Msb0}
use secure_frame_rs.Header.Util.{IsByte}
use secure_frame_rs.Header.FrameCount.{from_u64}
use secure_frame_rs.Header.FrameCount.Wheel.{IsOnWheel, advance, increment-IsOnWheel}
use secure_frame_rs.Header.Structs.{Header, IsHeader}
use secure_frame_rs.Header.Codec
use secure_frame_rs.Header.Codec.RoundTrip.{encode, length-encode, to_vec_lem}
use secure_frame_rs.Crypto.CipherSuite.{CipherSuiteVariant, from_variant}
use secure_frame_rs.Crypto.Ring
use secure_frame_rs.Crypto.Secret.{Secret}
use secure_frame_rs.Crypto.KeyExpansion.{IsSecretFor}
use secure_frame_rs.Crypto.Aead
use secure_frame_rs.Crypto.Aead.Laws.{Seals, encrypt-Seals}
use secure_frame_rs.Sender.{Sender, encrypt, encrypt_with, encrypt_by, extend}

-- The header of the next frame.
abbrev pub next_header : Sender → Header
next_header s = Codec.with_frame_count s.key_id (from_u64 s.frame_count.current_frame_count)

pub IsHeader-with_frame_count :
    (k : KeyId) (c : ℕ) → InRange k → c < 2 ^ 64 → IsHeader (Codec.with_frame_count k (from_u64 c))
unfolding Codec.with_frame_count
IsHeader-with_frame_count (KeyId.basic k) c hk hc = (hk, hc)
IsHeader-with_frame_count (KeyId.extended k) c hk hc = (hk, hc)

-- The frame of a payload: the skipped bytes, the header, the ciphertext and the tag.
abbrev pub frame_of : List ℕ → ℕ → Header → List ℕ → List ℕ → List ℕ
frame_of payload skip h cipher tag = take skip payload ++ (encode h ++ (cipher ++ tag))

-- What a sender needs to encrypt.
pub record IsReady (v : CipherSuiteVariant) (secret : Secret) (s : Sender) : Type 0 where
  pub suite : s.cipher_suite ≡ from_variant v
  pub has_key : s.secret ≡ some secret
  pub key_fits : IsSecretFor (from_variant v) secret
  pub key_in_range : InRange s.key_id
  pub on_wheel : IsOnWheel s.frame_count

-- A ready sender is ready again after a frame.
pub IsReady-next :
    (v : CipherSuiteVariant) (secret : Secret) (s : Sender) (sent : List ℕ)
    → IsReady v secret s
    → IsReady v secret (record s { frame_count = advance 1 s.frame_count; buffer = sent })
IsReady-next v secret s sent ready = record {
  suite = ready.suite;
  has_key = ready.has_key;
  key_fits = ready.key_fits;
  key_in_range = ready.key_in_range;
  on_wheel = (increment-IsOnWheel s.frame_count ready.on_wheel).1;
}

-- What is left of `encrypt` once the text behind `front` was sealed: the tag is put behind the
-- ciphertext, and the frame is returned; without a tag the buffer keeps what there is.
abbrev pub sent_with : List ℕ → Sender → Outcome (List ℕ) × List ℕ → Outcome (List ℕ) × Sender
sent_with front s (ok tag, io) =
    (ok (front ++ (io ++ tag)), record s { buffer = front ++ (io ++ tag) })
sent_with front s (err e, io) = (err e, record s { buffer = front ++ io })
sent_with front s (panic, io) = (panic, record s { buffer = front ++ io })

abbrev finish : List ℕ → Sender → Outcome (List ℕ) × List ℕ → Outcome (List ℕ) × Sender
finish front s out =
    continue out.0 (λ tag. extend tag >>= λ _. get >>= λ done. pure done.buffer)
      (record s { buffer = front ++ out.1 })

sent_with_lem :
    (front : List ℕ) (s : Sender) (out : Outcome (List ℕ) × List ℕ)
    → finish front s out ≡ sent_with front s out
sent_with_lem front s (ok tag, io) =
    ap (λ t. (ok t, record s { buffer = t })) (append_assoc front io tag)
sent_with_lem front s (err e, io) = refl
sent_with_lem front s (panic, io) = refl

module _ (bits : Msb0) (ring : Ring.Ring) where
  open ring use {max_plaintext_len}

  encrypt_by_lem :
      (payload : List ℕ) (skip : ℕ) (s : Sender)
      → encrypt bits ring payload skip s ≡ encrypt_by bits ring s.secret payload skip s
  encrypt_by_lem payload skip s = unfold encrypt in refl

  pub encrypt-enters :
      (secret : Secret) (payload : List ℕ) (skip : ℕ) (s : Sender)
      → s.secret ≡ some secret
      → encrypt bits ring payload skip s ≡ encrypt_with bits ring secret payload skip s
  encrypt-enters secret payload skip s has_key =
      let by : encrypt_by bits ring s.secret payload skip s
          ≡ encrypt_with bits ring secret payload skip s =
        ap (λ t. encrypt_by bits ring t payload skip s) has_key in
      encrypt_by_lem payload skip s ∙ by

  -- What a sender with a key makes of a payload that has the bytes to skip, whatever sealing comes to.
  pub encrypt_with_lem :
      (secret : Secret) (payload : List ℕ) (skip : ℕ) (s : Sender)
      → InRange s.key_id
      → IsOnWheel s.frame_count
      → skip ≤ length payload
      → encrypt_with bits ring secret payload skip s
        ≡ sent_with
            (take skip payload ++ encode (next_header s))
            (record s { frame_count = advance 1 s.frame_count })
            (Aead.encrypt ring s.cipher_suite secret
              (encode (next_header s))
              (from_u64 s.frame_count.current_frame_count)
              (drop skip payload))
  unfolding encrypt_with
  encrypt_with_lem secret payload skip s key wheel fits =
      let c : ℕ = s.frame_count.current_frame_count in
      let h : Header = next_header s in
      let h_ok : IsHeader h = IsHeader-with_frame_count s.key_id c key (omega arith) in
      let T : List ℕ = take skip payload in
      let E : List ℕ = encode h in
      let X : List ℕ = drop skip payload in
      let T_len : length T ≡ skip = omega (arith, length-take skip payload) in
      let TE_len : length (T ++ E) ≡ skip + Codec.size h =
        omega (arith, T_len, length-append T E, length-encode h h_ok) in
      rw ((increment-IsOnWheel s.frame_count wheel).0) (
        rw (slice_to_lem payload skip fits) (
          rw (slice_from_lem payload skip fits) (
            rw (to_vec_lem bits h h_ok) (
              rw (slice_to-append (T ++ E) X (skip + Codec.size h) TE_len) (
                rw (slice_from-append (T ++ E) X (skip + Codec.size h) TE_len) (
                  rw (slice_from-append T E skip T_len) (
                    rw (frame_count-with_frame_count s.key_id (from_u64 c)) (
                      sent_with_lem (T ++ E) (record s { frame_count = advance 1 s.frame_count })
                        (Aead.encrypt ring s.cipher_suite secret E (from_u64 c) X)))))))))

  abbrev pub SealsNext : CipherSuiteVariant → Secret → List ℕ → ℕ → Sender → Type 0
  SealsNext v secret payload skip s =
      Seals ring (from_variant v) secret (encode (next_header s))
        (from_u64 s.frame_count.current_frame_count) (drop skip payload)

  pub sealed_next :
      (v : CipherSuiteVariant) (secret : Secret) (payload : List ℕ) (skip : ℕ) (s : Sender)
      → IsReady v secret s
      → length payload ≤ max_plaintext_len
      → All IsByte payload
      → SealsNext v secret payload skip s
  sealed_next v secret payload skip s ready short bytes =
      encrypt-Seals ring v secret (encode (next_header s))
        (from_u64 s.frame_count.current_frame_count) (drop skip payload) ready.key_fits
        (omega (arith, length-drop skip payload)) (All-drop IsByte skip payload bytes)

  -- A ready sender turns a payload that has the bytes to skip into the skipped bytes, the header with
  -- the next count, the ciphertext and the tag; its buffer keeps the frame, and its generator is one
  -- count further on.
  pub encrypt_lem :
      (v : CipherSuiteVariant) (secret : Secret) (payload : List ℕ) (skip : ℕ) (s : Sender)
      → IsReady v secret s
      → skip ≤ length payload
      → (sealed : SealsNext v secret payload skip s)
      → encrypt bits ring payload skip s ≡ (
        ok (frame_of payload skip (next_header s) sealed.cipher sealed.tag),
        record s {
          frame_count = advance 1 s.frame_count;
          buffer = frame_of payload skip (next_header s) sealed.cipher sealed.tag;
        },
      )
  encrypt_lem v secret payload skip s ready fits sealed =
      let c : ℕ = s.frame_count.current_frame_count in
      let E : List ℕ = encode (next_header s) in
      let T : List ℕ = take skip payload in
      let done : Sender = record s { frame_count = advance 1 s.frame_count } in
      let sealing : Aead.encrypt ring s.cipher_suite secret E (from_u64 c) (drop skip payload)
          ≡ (ok sealed.tag, sealed.cipher) =
        ap (λ t. Aead.encrypt ring t secret E (from_u64 c) (drop skip payload)) ready.suite
        ∙ sealed.encrypts in
      encrypt-enters secret payload skip s ready.has_key
      ∙ encrypt_with_lem secret payload skip s ready.key_in_range ready.on_wheel fits
      ∙ ap (sent_with (T ++ E) done) sealing
      ∙ ap (λ t. (ok t, record done { buffer = t }))
          (append_assoc T E (sealed.cipher ++ sealed.tag))
