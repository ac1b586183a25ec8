-- ===== src/Header/Codec/Builds/LongCount.antt =====
-- Counts of eight bytes in the build with the feature `verify-test-vectors`, where LEN_OFFSET is 0.
use secure_frame_rs.Prelude.{ℕ, ◌+◌, ◌-◌, ◌%◌, ◌^◌, ◌≤◌, ◌<◌, ◌≡◌, refl, arith, ◌∙◌, ap, ap₂}
use secure_frame_rs.Prelude.{
  List, [], ◌∷◌, ◌++◌, length, take, drop, All, All-append, All-drop, length-append, append_assoc,
  take-append_len,
}
use secure_frame_rs.Outcome.{ok}
use secure_frame_rs.Bitfield.{Msb0}
use secure_frame_rs.Header.Util.{IsByte, from_be_bytes, as_min_be_bytes, min_len_in_bytes}
use secure_frame_rs.Header.Util.Bytes.{
  from_be_bytes-as_min_be_bytes, as_min_be_bytes-IsByte, min_len_in_bytes_bounds,
  length-as_min_be_bytes,
}
use secure_frame_rs.Header.Util.Minimal.{min_len_in_bytes-le, min_len_in_bytes-eight}
use secure_frame_rs.Header.FrameCount.{from_u64, length_in_bytes, as_be_bytes}
use secure_frame_rs.Header.Structs.{len_offset_of_vectors, Header, basic, extended, IsHeader}
use secure_frame_rs.Header.Basic.Read as BasicRead
use secure_frame_rs.Header.Extended.Read as ExtendedRead
use secure_frame_rs.Header.Basic.Write as BasicWrite
use secure_frame_rs.Header.Extended.Write as ExtendedWrite
use secure_frame_rs.Header.Codec.{serialize_with, deserialize_with, size}
use secure_frame_rs.Header.Codec.Written.{masked, written_with, size_bounds}
use secure_frame_rs.Header.Codec.Builds.{as_basic, as_extended, serialize-written}

-- A header with an empty count.
abbrev pub without_count : Header → Header
without_count (basic h) = basic (record h { frame_count = from_u64 0 })
without_count (extended h) = extended (record h { frame_count = from_u64 0 })

-- The key id of an extended header takes at most seven bytes, the count eight.
abbrev pub HasLongCount : Header → Type 0
HasLongCount (basic h) = 2 ^ 56 ≤ h.frame_count.numeric_value
HasLongCount (extended h) = (h.key_id < 2 ^ 56) × (2 ^ 56 ≤ h.frame_count.numeric_value)

module _ (bits : Msb0) where
  decode-long_count :
      (h : Header) (b : ℕ) (rest : List ℕ)
      → IsHeader h
      → HasLongCount h
      → All IsByte rest
      → deserialize_with bits 0 (written_with 0 h b rest) ≡ ok (without_count (masked h))
  unfolding written_with masked as_be_bytes length_in_bytes
  decode-long_count (basic h) b rest v long bytes =
      let count : ℕ = h.frame_count.numeric_value in
      let n : ℕ = min_len_in_bytes count in
      let ctr : List ℕ = as_min_be_bytes count in
      let eight : n ≡ 8 = min_len_in_bytes-eight count long v.1 in
      let len : length ctr ≡ n = length-as_min_be_bytes count v.1 in
      let first : ℕ = BasicWrite.first_byte b (n - 0) h.key_id in
      let post : List ℕ = drop n rest in
      let key : first % 8 ≡ h.key_id % 8 = omega arith in
      let coded : BasicRead.coded_length 0 first ≡ 0 = omega arith in
      as_basic bits 0 (omega arith) first (ctr ++ post)
        (All-append IsByte ctr post (as_min_be_bytes-IsByte count) (All-drop IsByte n rest bytes))
        (omega arith) (omega (arith, length-append ctr post)) (omega arith)
      ∙ ap₂ (λ k c. ok (basic (record { key_id = k; frame_count = from_u64 c }))) key
          (ap (λ t. from_be_bytes (take t (ctr ++ post))) coded ∙ unfold from_be_bytes in refl)
  decode-long_count (extended h) b rest v long bytes =
      let count : ℕ = h.frame_count.numeric_value in
      let n : ℕ = min_len_in_bytes count in
      let k : ℕ = min_len_in_bytes h.key_id in
      let ctr : List ℕ = as_min_be_bytes count in
      let kid : List ℕ = as_min_be_bytes h.key_id in
      let eight : n ≡ 8 = min_len_in_bytes-eight count long.1 v.1 in
      let hk : (1 ≤ k) × (k ≤ 8) = min_len_in_bytes_bounds h.key_id v.0 in
      let key_room : k ≤ 7 = min_len_in_bytes-le 7 h.key_id (omega arith) long.0 in
      let kid_len : length kid ≡ k = length-as_min_be_bytes h.key_id v.0 in
      let first : ℕ = ExtendedWrite.first_byte b (n - 0) (k - 0) in
      let post : List ℕ = drop (k + n) rest in
      let coded : ExtendedRead.coded_length 0 first ≡ 0 = omega arith in
      let coded_key : ExtendedRead.coded_key_length 0 first ≡ k = omega arith in
      as_extended bits 0 (omega arith) first ((kid ++ ctr) ++ post)
        (All-append IsByte (kid ++ ctr) post
          (All-append IsByte kid ctr (as_min_be_bytes-IsByte h.key_id)
            (as_min_be_bytes-IsByte count))
          (All-drop IsByte (k + n) rest bytes))
        (omega arith) (omega (arith, length-append (kid ++ ctr) post, length-append kid ctr))
        (omega (arith, length-append (kid ++ ctr) post, length-append kid ctr))
      ∙ rw (coded, coded_key, append_assoc kid ctr post)
          (rw (take-append_len k kid (ctr ++ post) kid_len) (
            ap₂ (λ k c. ok (extended (record { key_id = k; frame_count = from_u64 c })))
              (from_be_bytes-as_min_be_bytes h.key_id v.0) (unfold from_be_bytes in refl)))

  -- With the feature verify-test-vectors, serializing a header with fields in range whose count takes
  -- eight bytes, and whose key id takes no more than seven if it is extended, into a buffer of bytes
  -- that is long enough succeeds, and deserializing the buffer gives a header with the count 0 and
  -- the same key id, of which a basic header keeps the low three bits.
  pub deserialize-long_count :
      (h : Header) (buffer : List ℕ)
      → IsHeader h
      → HasLongCount h
      → All IsByte buffer
      → size h ≤ length buffer
      → (out : List ℕ) × (serialize_with bits len_offset_of_vectors h buffer ≡ ok out)
        × (deserialize_with bits len_offset_of_vectors out ≡ ok (without_count (masked h)))
  deserialize-long_count h [] v long bytes fits = absurd (omega (arith, size_bounds h v))
  deserialize-long_count h (b ∷ rest) v long bytes fits = (
    written_with 0 h b rest,
    serialize-written bits 0 (omega arith) h b rest v fits,
    decode-long_count h b rest v long bytes.1,
  )
