-- ===== src/UnitTests/Wire.antt =====
-- The format on the wire that the tests of src/sender.rs expect.
use secure_frame_rs.Prelude.{
  ◌+◌, ap, ◌∙◌, sym, some, append_assoc, length-append, length-take, length-drop, take-append_len,
  take, length, ℕ, ◌≡◌, ◌≤◌, refl, arith, List, [], ◌∷◌, ◌++◌, true,
}
use secure_frame_rs.Outcome.{ok}
use secure_frame_rs.Bitfield.{Msb0}
use secure_frame_rs.Header.Codec
use secure_frame_rs.Header.Codec.{unwrap}
use secure_frame_rs.Header.Codec.Written.{written_with}
use secure_frame_rs.Header.Codec.RoundTrip.{encode}
use secure_frame_rs.Header.Basic
use secure_frame_rs.Header.FrameCount.{from_u64, length_in_bytes, as_be_bytes}
use secure_frame_rs.Header.Util.{as_min_be_bytes, min_len_in_bytes, to_be_bytes, leading_zeros}
use secure_frame_rs.Crypto.CipherSuite.{aes_gcm256_sha512}
use secure_frame_rs.Crypto.Ring
use secure_frame_rs.Sender
use secure_frame_rs.Sender.Keys as SenderKeys
use secure_frame_rs.Sender.Frames.{
  IsReady, SealsNext, sealed_next, encrypt_lem, frame_of, next_header,
}
use secure_frame_rs.Receiver.Keys as ReceiverKeys
use secure_frame_rs.Receiver
use secure_frame_rs.Receiver.{Receiver}
use secure_frame_rs.UnitTests.{are_bytes, are_bytes-IsByte}
use secure_frame_rs.UnitTests.Senders.{
  material, payload, key_id, long_payload, wire, long_wire, encrypt_on_wire,
}

module _ (bits : Msb0) (ring : Ring.Ring) where
  -- The header of a first frame of this sender.
  first_header : encode (Codec.with_frame_count key_id (from_u64 0)) ≡ 0 ∷ 0 ∷ []
  unfolding encode written_with Codec.with_frame_count Codec.size Basic.size length_in_bytes
      as_be_bytes as_min_be_bytes min_len_in_bytes to_be_bytes leading_zeros
  first_header = refl

  -- Before its ciphertext, what the tests send is as they expect it, and all of it is as long; the
  -- rest is what AES makes of it.
  on_wire :
      (text : List ℕ)
      → length text ≤ Ring.Ring.max_plaintext_len ring
      → 4 ≤ length text
      → are_bytes text ≡ true
      → (encrypted : List ℕ) × (encrypt_on_wire bits ring text ≡ ok encrypted)
        × (take 6 encrypted ≡ take 4 text ++ (0 ∷ 0 ∷ []))
        × (length encrypted ≡ length text + 18)
  on_wire text short room bytes =
      let (secret, key_fits, _, keyed) =
        SenderKeys.set_encryption_key_lem ring aes_gcm256_sha512 material (Sender.new key_id)
          refl in
      let (_, _, _, stored, _, _) =
        ReceiverKeys.set_encryption_key-get ring aes_gcm256_sha512 key_id material Receiver.default
          refl in
      let s : Sender.Sender = record (Sender.new key_id) { secret = some secret } in
      let ready : IsReady aes_gcm256_sha512 secret s = record {
        suite = refl;
        has_key = refl;
        key_fits = key_fits;
        key_in_range = omega arith;
        on_wheel = omega arith;
      } in
      let sealed : SealsNext bits ring aes_gcm256_sha512 secret text 4 s =
        sealed_next bits ring aes_gcm256_sha512 secret text 4 s ready short
          (are_bytes-IsByte text bytes) in
      let T : List ℕ = take 4 text in
      let front : List ℕ = T ++ (0 ∷ 0 ∷ []) in
      let body : List ℕ = sealed.cipher ++ sealed.tag in
      let T_len : length T ≡ 4 = omega (arith, length-take 4 text) in
      let front_len : length front ≡ 6 = omega (arith, T_len, length-append T (0 ∷ 0 ∷ [])) in
      let is : frame_of text 4 (next_header s) sealed.cipher sealed.tag ≡ front ++ body =
        ap (λ t. T ++ (t ++ body)) first_header ∙ sym (append_assoc T (0 ∷ 0 ∷ []) body) in
      let sent : (Sender.encrypt bits ring text 4 s).0 ≡ ok (front ++ body) =
        ap (λ t. t.0) (encrypt_lem bits ring aes_gcm256_sha512 secret text 4 s ready room sealed)
        ∙ ap ok is in
      (
        front ++ body,
        rw keyed (rw stored (rw sent refl)),
        take-append_len 6 front body front_len,
        omega (
          arith,
          front_len,
          length-append front body,
          length-append sealed.cipher sealed.tag,
          sealed.length_cipher,
          sealed.length_tag,
          length-drop 4 text,
        ),
      )

  -- The tests `deadbeef_on_wire` and `deadbeef_on_wire_long` can only fail behind the header.
  on_wire_payload :
      21 ≤ Ring.Ring.max_plaintext_len ring
      → (encrypted : List ℕ) × (encrypt_on_wire bits ring payload ≡ ok encrypted)
        × (take 6 encrypted ≡ take 6 wire)
        × (length encrypted ≡ length wire)
  on_wire_payload short = on_wire payload (omega (arith, short)) (omega arith) refl

  on_wire_long_payload :
      21 ≤ Ring.Ring.max_plaintext_len ring
      → (encrypted : List ℕ) × (encrypt_on_wire bits ring long_payload ≡ ok encrypted)
        × (take 6 encrypted ≡ take 6 long_wire)
        × (length encrypted ≡ length long_wire)
  on_wire_long_payload short = on_wire long_payload (omega (arith, short)) (omega arith) refl
