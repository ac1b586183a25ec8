-- ===== src/Examples/BuildExamples.antt =====
-- Headers in the build with the feature `verify-test-vectors`.
use secure_frame_rs.Prelude.{
  ℕ, ◌≤◌, ◌≡◌, ◌^◌, refl, arith, List, [], ◌∷◌, length, All, replicate, true, ap, ◌∙◌,
}
use secure_frame_rs.Outcome.{ok}
use secure_frame_rs.Header.Util.{IsByte, min_len_in_bytes, to_be_bytes, leading_zeros}
use secure_frame_rs.Header.FrameCount.{from_u64, length_in_bytes}
use secure_frame_rs.Header.Structs.{len_offset_of_vectors, Header, extended}
use secure_frame_rs.Header.Extended
use secure_frame_rs.Header.Codec.{serialize_with, deserialize_with, is_valid, size}
use secure_frame_rs.Header.Codec.Written.{masked}
use secure_frame_rs.Header.Codec.Valid.{looks_valid, is_valid_lem}
use secure_frame_rs.Header.Codec.Builds.{deserialize-serialize_with}
use secure_frame_rs.Header.Codec.Builds.LongCount.{without_count, deserialize-long_count}
use secure_frame_rs.Header.Codec.Builds.Checked.{is_valid-decodes}
use secure_frame_rs.Examples.Bits.{example_bits}

abbrev short_header : Header
short_header = extended (record { key_id = 40; frame_count = from_u64 666 })

abbrev long_header : Header
long_header = extended (record { key_id = 40; frame_count = from_u64 (2 ^ 56) })

abbrev buffer : List ℕ
buffer = replicate 10 255

buffer-IsByte : All IsByte buffer
buffer-IsByte = omega arith

size_short : size short_header ≤ 10
unfolding size Extended.size length_in_bytes min_len_in_bytes to_be_bytes leading_zeros
size_short = omega arith

size_long : size long_header ≤ 10
unfolding size Extended.size length_in_bytes min_len_in_bytes to_be_bytes leading_zeros
size_long = omega arith

deserialize-serialize_with_example :
    (out : List ℕ) × (serialize_with example_bits len_offset_of_vectors short_header buffer
      ≡ ok out)
    × (length out ≡ 10)
    × (deserialize_with example_bits len_offset_of_vectors out ≡ ok (masked short_header))
deserialize-serialize_with_example =
    deserialize-serialize_with example_bits len_offset_of_vectors (omega arith) short_header buffer
      (omega arith) (omega arith) buffer-IsByte size_short

deserialize-long_count_example :
    (out : List ℕ) × (serialize_with example_bits len_offset_of_vectors long_header buffer ≡ ok out)
    × (deserialize_with example_bits len_offset_of_vectors out
        ≡ ok (without_count (masked long_header)))
deserialize-long_count_example =
    deserialize-long_count example_bits long_header buffer (omega arith) (omega arith) buffer-IsByte
      size_long

looks_valid_two : looks_valid (16 ∷ 7 ∷ []) ≡ true
unfolding looks_valid
looks_valid_two = refl

valid_two : is_valid example_bits (16 ∷ 7 ∷ []) ≡ ok true
valid_two = is_valid_lem example_bits (16 ∷ 7 ∷ []) ∙ ap ok looks_valid_two

is_valid-decodes_example :
    (h : Header) × (deserialize_with example_bits len_offset_of_vectors (16 ∷ 7 ∷ []) ≡ ok h)
is_valid-decodes_example = is_valid-decodes example_bits 16 (7 ∷ []) (omega arith, tt) valid_two
