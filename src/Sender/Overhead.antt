-- ===== src/Sender/Overhead.antt =====
-- What a frame adds to its payload.
use secure_frame_rs.Prelude.{
  ℕ, ◌+◌, ◌≤◌, ◌≡◌, ap, arith, List, ◌++◌, length, take, All, All-append, All-take, length-append,
  length-take, length-drop, take-append_len,
}
use secure_frame_rs.Outcome.{ok}
use secure_frame_rs.Bitfield.{Msb0}
use secure_frame_rs.Header.Util.{IsByte}
use secure_frame_rs.Header.Structs.{Header, IsHeader}
use secure_frame_rs.Header.Codec
use secure_frame_rs.Header.Codec.Written.{size_bounds}
use secure_frame_rs.Header.Codec.RoundTrip.{encode, encode-IsByte, length-encode}
use secure_frame_rs.Crypto.CipherSuite.{CipherSuiteVariant}
use secure_frame_rs.Crypto.Ring
use secure_frame_rs.Crypto.Ring.{tag_len}
use secure_frame_rs.Crypto.Secret.{Secret}
use secure_frame_rs.Sender.{Sender, encrypt}
use secure_frame_rs.Sender.Frames.{
  next_header, frame_of, IsReady, SealsNext, sealed_next, encrypt_lem, IsHeader-with_frame_count,
}

-- `frame` is made of u8, starts with the skipped bytes in the clear, and is longer than the payload
-- by the header and a whole tag, together at most 33 bytes.
pub record IsFrameOf (payload : List ℕ) (skip : ℕ) (h : Header) (frame : List ℕ) : Type 0 where
  pub bytes : All IsByte frame
  pub clear : take skip frame ≡ take skip payload
  pub overhead : length frame ≡ length payload + Codec.size h + tag_len
  pub bound : length frame ≤ length payload + 33

-- Every frame that a ready sender makes of a payload of bytes that has the bytes to skip and is short
-- enough to seal is made of bytes, starts with the skipped bytes in the clear, and is longer than the
-- payload by the size of its header and 16 bytes, for either suite, and by at most 33 bytes.
pub encrypt-IsFrameOf :
    (bits : Msb0) (ring : Ring.Ring) (v : CipherSuiteVariant) (secret : Secret) (payload : List ℕ)
    (skip : ℕ) (s : Sender)
    → IsReady v secret s
    → skip ≤ length payload
    → length payload ≤ Ring.Ring.max_plaintext_len ring
    → All IsByte payload
    → (frame : List ℕ) × ((encrypt bits ring payload skip s).0 ≡ ok frame)
      × IsFrameOf payload skip (next_header s) frame
encrypt-IsFrameOf bits ring v secret payload skip s ready room short bytes =
    let sealed : SealsNext bits ring v secret payload skip s =
      sealed_next bits ring v secret payload skip s ready short bytes in
    let h : Header = next_header s in
    let h_ok : IsHeader h =
      IsHeader-with_frame_count s.key_id s.frame_count.current_frame_count ready.key_in_range
        (omega (arith, ready.on_wheel)) in
    let T : List ℕ = take skip payload in
    let body : List ℕ = sealed.cipher ++ sealed.tag in
    let T_len : length T ≡ skip = omega (arith, length-take skip payload) in
    let len : length (T ++ (encode h ++ body)) ≡ length payload + Codec.size h + tag_len = omega (
      arith,
      T_len,
      length-append T (encode h ++ body),
      length-append (encode h) body,
      length-append sealed.cipher sealed.tag,
      length-encode h h_ok,
      sealed.length_cipher,
      sealed.length_tag,
      length-drop skip payload,
    ) in
    (
      frame_of payload skip h sealed.cipher sealed.tag,
      ap (λ t. t.0) (encrypt_lem bits ring v secret payload skip s ready room sealed),
      record {
        bytes = All-append IsByte T (encode h ++ body) (All-take IsByte skip payload bytes) (
            All-append IsByte (encode h) body (encode-IsByte h h_ok)
              (All-append IsByte sealed.cipher sealed.tag sealed.cipher_bytes sealed.tag_bytes));
        clear = take-append_len skip T (encode h ++ body) T_len;
        overhead = len;
        bound = omega (arith, len, size_bounds h h_ok);
      },
    )
