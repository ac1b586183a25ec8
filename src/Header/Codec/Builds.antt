-- ===== src/Header/Codec/Builds.antt =====
-- Headers in every build: the constant `LEN_OFFSET` of src/header/mod.rs is 1, or 0 with the feature
-- `verify-test-vectors`.
pub mod LongCount
pub mod Checked
use secure_frame_rs.Prelude.{ℕ, ◌+◌, ◌-◌, ◌/◌, ◌%◌, ◌^◌, ◌≤◌, ◌<◌, ◌≡◌, refl, arith, ◌∙◌, ap, ap₂}
use secure_frame_rs.Prelude.{
  List, [], ◌∷◌, ◌++◌, length, take, drop, le→leb, All, All-append, All-drop, length-append,
  length-drop, append_assoc, take-append_len, drop-append_len,
}
use secure_frame_rs.Outcome.{ok}
use secure_frame_rs.Bitfield.{Msb0}
use secure_frame_rs.Header.Util.{IsByte, from_be_bytes, as_min_be_bytes, min_len_in_bytes}
use secure_frame_rs.Header.Util.Bytes.{
  from_be_bytes-as_min_be_bytes, as_min_be_bytes-IsByte, min_len_in_bytes_bounds,
  length-as_min_be_bytes,
}
use secure_frame_rs.Header.Util.Minimal.{min_len_in_bytes-le}
use secure_frame_rs.Header.FrameCount.{from_u64, length_in_bytes, as_be_bytes}
use secure_frame_rs.Header.Structs.{Header, basic, extended, IsHeader}
use secure_frame_rs.Header.Basic
use secure_frame_rs.Header.Extended
use secure_frame_rs.Header.Basic.Read as BasicRead
use secure_frame_rs.Header.Extended.Read as ExtendedRead
use secure_frame_rs.Header.Basic.Write as BasicWrite
use secure_frame_rs.Header.Extended.Write as ExtendedWrite
use secure_frame_rs.Header.Codec.{serialize_with, deserialize_with, size}
use secure_frame_rs.Header.Codec.Written.{
  masked, written_with, written-IsByte, length-written, size_bounds,
}

-- The fields take at most as many bytes as three bits and the constant of the build can say: eight by
-- default, seven with the feature.
abbrev pub CodesLengths : ℕ → Header → Type 0
CodesLengths o (basic h) = h.frame_count.numeric_value < 256 ^ (7 + o)
CodesLengths o (extended h) =
    (h.key_id < 256 ^ (7 + o)) × (h.frame_count.numeric_value < 256 ^ (7 + o))

module _ (bits : Msb0) (o : ℕ) (build : o ≤ 1) where
  pub as_basic :
      (b : ℕ) (t : List ℕ)
      → All IsByte t
      → b / 8 % 2 ≡ 0
      → 1 ≤ length t
      → BasicRead.coded_length o b ≤ length t
      → deserialize_with bits o (b ∷ t)
        ≡ ok (
            basic (record {
              key_id = b % 8;
              frame_count = from_u64 (from_be_bytes (take (BasicRead.coded_length o b) t));
            }))
  unfolding deserialize_with
  as_basic b [] bytes flag long fits = absurd (omega arith)
  as_basic b (c ∷ t) bytes flag long fits = rw (BasicRead.is_valid_lem bits b c t) (
      rw (flag, le→leb (1 + b / 16 % 8) (length (b ∷ c ∷ t)) (omega arith))
        (rw (BasicRead.deserialize_with_lem bits o b (c ∷ t) build bytes fits) refl))

  pub as_extended :
      (b : ℕ) (t : List ℕ)
      → All IsByte t
      → b / 8 % 2 ≡ 1
      → 1 ≤ length t
      → ExtendedRead.coded_key_length o b + ExtendedRead.coded_length o b ≤ length t
      → deserialize_with bits o (b ∷ t)
        ≡ ok (
            extended (record {
              key_id = from_be_bytes (take (ExtendedRead.coded_key_length o b) t);
              frame_count = from_u64 (
                  from_be_bytes (
                    take
                      (ExtendedRead.coded_length o b)
                      (drop (ExtendedRead.coded_key_length o b) t)));
            }))
  unfolding deserialize_with
  as_extended b [] bytes flag long fits = absurd (omega arith)
  as_extended b (c ∷ t) bytes flag long fits =
      rw (BasicRead.is_valid_lem bits b c t)
        (rw flag (rw (ExtendedRead.deserialize_with_lem bits o b (c ∷ t) build bytes fits) refl))

  pub serialize-written :
      (h : Header) (b : ℕ) (rest : List ℕ)
      → IsHeader h
      → size h ≤ length (b ∷ rest)
      → serialize_with bits o h (b ∷ rest) ≡ ok (written_with o h b rest)
  unfolding serialize_with written_with size
  serialize-written (basic h) b rest v fits =
      BasicWrite.serialize_with_lem bits o h b rest build v.1 fits
  serialize-written (extended h) b rest v fits =
      ExtendedWrite.serialize_with_lem bits o h b rest build v.0 v.1 fits

  decode-written :
      (h : Header) (b : ℕ) (rest : List ℕ)
      → IsHeader h
      → All IsByte rest
      → CodesLengths o h
      → deserialize_with bits o (written_with o h b rest) ≡ ok (masked h)
  unfolding written_with masked as_be_bytes length_in_bytes
  decode-written (basic h) b rest v bytes codes =
      let count : ℕ = h.frame_count.numeric_value in
      let n : ℕ = min_len_in_bytes count in
      let ctr : List ℕ = as_min_be_bytes count in
      let bounds : (1 ≤ n) × (n ≤ 8) = min_len_in_bytes_bounds count v.1 in
      let room : n ≤ 7 + o = min_len_in_bytes-le (7 + o) count (omega arith) codes in
      let len : length ctr ≡ n = length-as_min_be_bytes count v.1 in
      let first : ℕ = BasicWrite.first_byte b (n - o) h.key_id in
      let post : List ℕ = drop n rest in
      let key : first % 8 ≡ h.key_id % 8 = omega arith in
      let coded : BasicRead.coded_length o first ≡ n = omega arith in
      as_basic first (ctr ++ post)
        (All-append IsByte ctr post (as_min_be_bytes-IsByte count) (All-drop IsByte n rest bytes))
        (omega arith) (omega (arith, length-append ctr post))
        (omega (arith, length-append ctr post))
      ∙ ap₂ (λ k c. ok (basic (record { key_id = k; frame_count = from_u64 c }))) key
          (ap (λ t. from_be_bytes (take t (ctr ++ post))) coded
            ∙ ap from_be_bytes (take-append_len n ctr post len)
            ∙ from_be_bytes-as_min_be_bytes count v.1)
  decode-written (extended h) b rest v bytes codes =
      let count : ℕ = h.frame_count.numeric_value in
      let n : ℕ = min_len_in_bytes count in
      let k : ℕ = min_len_in_bytes h.key_id in
      let ctr : List ℕ = as_min_be_bytes count in
      let kid : List ℕ = as_min_be_bytes h.key_id in
      let hn : (1 ≤ n) × (n ≤ 8) = min_len_in_bytes_bounds count v.1 in
      let hk : (1 ≤ k) × (k ≤ 8) = min_len_in_bytes_bounds h.key_id v.0 in
      let room : n ≤ 7 + o = min_len_in_bytes-le (7 + o) count (omega arith) codes.1 in
      let key_room : k ≤ 7 + o = min_len_in_bytes-le (7 + o) h.key_id (omega arith) codes.0 in
      let ctr_len : length ctr ≡ n = length-as_min_be_bytes count v.1 in
      let kid_len : length kid ≡ k = length-as_min_be_bytes h.key_id v.0 in
      let first : ℕ = ExtendedWrite.first_byte b (n - o) (k - o) in
      let post : List ℕ = drop (k + n) rest in
      let coded : ExtendedRead.coded_length o first ≡ n = omega arith in
      let coded_key : ExtendedRead.coded_key_length o first ≡ k = omega arith in
      as_extended first ((kid ++ ctr) ++ post)
        (All-append IsByte (kid ++ ctr) post
          (All-append IsByte kid ctr (as_min_be_bytes-IsByte h.key_id)
            (as_min_be_bytes-IsByte count))
          (All-drop IsByte (k + n) rest bytes))
        (omega arith) (omega (arith, length-append (kid ++ ctr) post, length-append kid ctr))
        (omega (arith, length-append (kid ++ ctr) post, length-append kid ctr))
      ∙ rw (coded, coded_key, append_assoc kid ctr post)
          (rw
            (
              take-append_len k kid (ctr ++ post) kid_len,
              drop-append_len k kid (ctr ++ post) kid_len,
              take-append_len n ctr post ctr_len,
            )
            (ap₂ (λ k c. ok (extended (record { key_id = k; frame_count = from_u64 c })))
              (from_be_bytes-as_min_be_bytes h.key_id v.0)
              (from_be_bytes-as_min_be_bytes count v.1)))

  -- In every build, serializing a header with fields in range whose lengths the build can code into a
  -- buffer of bytes that is long enough succeeds and keeps the buffer's length, and deserializing the
  -- buffer gives the header back, with the low three bits of a basic key id.
  pub deserialize-serialize_with :
      (h : Header) (buffer : List ℕ)
      → IsHeader h
      → CodesLengths o h
      → All IsByte buffer
      → size h ≤ length buffer
      → (out : List ℕ) × (serialize_with bits o h buffer ≡ ok out)
        × (length out ≡ length buffer)
        × (deserialize_with bits o out ≡ ok (masked h))
  deserialize-serialize_with h [] v codes bytes fits = absurd (omega (arith, size_bounds h v))
  deserialize-serialize_with h (b ∷ rest) v codes bytes fits = (
    written_with o h b rest,
    serialize-written h b rest v fits,
    length-written o h b rest v fits,
    decode-written h b rest v bytes.1 codes,
  )
