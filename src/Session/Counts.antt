-- ===== src/Session/Counts.antt =====
-- The frames that a sender encrypts one after the other.
use secure_frame_rs.Prelude.{
  ℕ, ◌≡◌, ap, ◌∙◌, sym, refl, arith, List, [], ◌∷◌, ◌++◌, length, take, drop, All, All-append,
  drop-append_len, length-take, length-append,
}
use secure_frame_rs.KeyId.{KeyId, FitsHeader}
use secure_frame_rs.Outcome.{ok, slice_from}
use secure_frame_rs.Outcome.Slices.{slice_from_lem}
use secure_frame_rs.Exec.{Exec, pure, ◌>>=◌}
use secure_frame_rs.Bitfield.{Msb0}
use secure_frame_rs.Header.Util.{IsByte}
use secure_frame_rs.Header.FrameCount.{FrameCountGenerator, from_u64}
use secure_frame_rs.Header.FrameCount.Wheel.{advance, advance-zero, advance-advance}
use secure_frame_rs.Header.Structs.{Header, IsHeader}
use secure_frame_rs.Header.Codec
use secure_frame_rs.Header.Codec.RoundTrip.{encode, deserialize-encode}
use secure_frame_rs.Crypto.CipherSuite.{CipherSuiteVariant}
use secure_frame_rs.Crypto.Ring
use secure_frame_rs.Crypto.Secret.{Secret}
use secure_frame_rs.Sender
use secure_frame_rs.Sender.{Sender}
use secure_frame_rs.Sender.Frames.{
  IsReady-next, next_header, frame_of, IsReady, SealsNext, sealed_next, encrypt_lem,
  IsHeader-with_frame_count,
}
use secure_frame_rs.Session.{MediaFrame, IsSendable}
use secure_frame_rs.Session.Frames.{masked-with_frame_count}

module _ (bits : Msb0) (ring : Ring.Ring) where
  unfoldable pub encrypt_all : List MediaFrame → Exec Sender (List (List ℕ))
  encrypt_all [] = pure []
  encrypt_all (f ∷ fs) = do
    frame ← Sender.encrypt bits ring f.payload f.skip
    frames ← encrypt_all fs
    pure (frame ∷ frames)

-- Behind the skipped bytes, each frame has a header with the key id and the generator's next count.
unfoldable pub Numbered :
    Msb0 → KeyId → FrameCountGenerator → List MediaFrame → List (List ℕ) → Type 0
Numbered bits k g [] [] = Unit
Numbered bits k g [] (o ∷ os) = ⊥
Numbered bits k g (f ∷ fs) [] = ⊥
Numbered bits k g (f ∷ fs) (o ∷ os) =
    (Codec.deserialize bits (drop f.skip o)
      ≡ ok (Codec.with_frame_count k (from_u64 g.current_frame_count)))
    × Numbered bits k (advance 1 g) fs os

module _ (bits : Msb0) (ring : Ring.Ring) where
  -- The header of one frame, and the frame after which the sender is ready again.
  pub header_of_frame :
      (v : CipherSuiteVariant) (secret : Secret) (f : MediaFrame) (s : Sender)
      → IsReady v secret s
      → FitsHeader s.key_id
      → IsSendable ring f
      → (frame : List ℕ) × (Sender.encrypt bits ring f.payload f.skip s
          ≡ (ok frame, record s { frame_count = advance 1 s.frame_count; buffer = frame }))
        × (Codec.deserialize bits (drop f.skip frame) ≡ ok (next_header s))
        × (slice_from frame f.skip ≡ ok (drop f.skip frame))
  header_of_frame v secret f s ready fits sendable =
      let sealed : SealsNext bits ring v secret f.payload f.skip s =
        sealed_next bits ring v secret f.payload f.skip s ready sendable.short sendable.bytes in
      let c : ℕ = s.frame_count.current_frame_count in
      let h : Header = next_header s in
      let body : List ℕ = sealed.cipher ++ sealed.tag in
      let h_ok : IsHeader h =
        IsHeader-with_frame_count s.key_id c ready.key_in_range (omega (arith, ready.on_wheel)) in
      let at : drop f.skip (frame_of f.payload f.skip h sealed.cipher sealed.tag)
          ≡ encode h ++ body =
        drop-append_len f.skip (take f.skip f.payload) (encode h ++ body)
          (omega (arith, length-take f.skip f.payload, sendable.skipped)) in
      (
        frame_of f.payload f.skip h sealed.cipher sealed.tag,
        encrypt_lem bits ring v secret f.payload f.skip s ready sendable.skipped sealed,
        ap (Codec.deserialize bits) at
            ∙ deserialize-encode bits h body h_ok
                (All-append IsByte sealed.cipher sealed.tag sealed.cipher_bytes sealed.tag_bytes)
            ∙ ap ok (masked-with_frame_count s.key_id (from_u64 c) fits),
        slice_from_lem (frame_of f.payload f.skip h sealed.cipher sealed.tag) f.skip (
            omega (
              arith,
              length-append (take f.skip f.payload) (encode h ++ body),
              length-take f.skip f.payload,
              sendable.skipped,
            )),
      )

  -- A ready sender whose key id fits its header encrypts every sequence of frames that can be sent;
  -- their headers carry its key id and
  -- consecutive counts, and it is left ready, that many counts further on.
  pub encrypt_all-Numbered :
      (v : CipherSuiteVariant) (secret : Secret) (fs : List MediaFrame) (s : Sender)
      → IsReady v secret s
      → FitsHeader s.key_id
      → All (IsSendable ring) fs
      → (frames : List (List ℕ)) × ((encrypt_all bits ring fs s).0 ≡ ok frames)
        × Numbered bits s.key_id s.frame_count fs frames
        × IsReady v secret (encrypt_all bits ring fs s).1
        × ((encrypt_all bits ring fs s).1.frame_count ≡ advance (length fs) s.frame_count)
  unfolding encrypt_all Numbered
  encrypt_all-Numbered v secret [] s ready fits sendable =
      ([], refl, tt, ready, sym (advance-zero s.frame_count ready.on_wheel))
  encrypt_all-Numbered v secret (f ∷ fs) s ready fits sendable =
      let (frame, sent, header, _) = header_of_frame v secret f s ready fits sendable.0 in
      let s' : Sender = record s { frame_count = advance 1 s.frame_count; buffer = frame } in
      let (frames, rest, numbered, ready', count) =
        encrypt_all-Numbered v secret fs s' (IsReady-next v secret s frame ready) fits sendable.1 in
      (
        frame ∷ frames,
        rw sent (rw rest),
        (header, numbered),
        rw sent (rw rest ready'),
        rw sent (rw rest (count ∙ advance-advance (length fs) s.frame_count)),
      )
