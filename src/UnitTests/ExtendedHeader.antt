-- ===== src/UnitTests/ExtendedHeader.antt =====
-- The tests of src/header/extended_header.rs.
use secure_frame_rs.Prelude.{◌+◌, ◌-◌, ◌≡◌, refl, [], ◌∷◌, ◌++◌, ◌==◌, not, replicate}
use secure_frame_rs.Outcome.{Outcome, ok, ◌>>=◌}
use secure_frame_rs.Bitfield.{Msb0}
use secure_frame_rs.Header.Util.{
  from_be_bytes, as_min_be_bytes, min_len_in_bytes, to_be_bytes, leading_zeros,
}
use secure_frame_rs.Header.FrameCount
use secure_frame_rs.Header.FrameCount.{from_u64, length_in_bytes, as_be_bytes, eq_u64, u64_max}
use secure_frame_rs.Header.Structs.{ExtendedHeader, new_extended}
use secure_frame_rs.Header.Extended.{
  serialize_with, deserialize_with, size, serialize, deserialize, remainder, is_valid,
}
use secure_frame_rs.Header.Codec.{unwrap}
use secure_frame_rs.Header.Loops.{for_enumerate}
use secure_frame_rs.UnitTests.{assert, is_err}
use secure_frame_rs.UnitTests.Util.{assert_bytes_eq, bin2string}
use secure_frame_rs.Examples.Bits.{example_bits}

abbrev calculate_header_size : Outcome (Unit {0})
calculate_header_size = do
  _ ← assert (1 + 2 == size (new_extended 0 FrameCount.default))
  _ ← assert (1 + 3 == size (new_extended 260 FrameCount.default))
  _ ← assert (1 + 3 == size (new_extended 5000 FrameCount.default))
  assert (1 + 4 == size (new_extended 5000 (from_u64 260)))

module _ (bits : Msb0) where
  abbrev fail_to_serialize_when_buffer_is_too_small : Outcome (Unit {0})
  fail_to_serialize_when_buffer_is_too_small = do
    let header : ExtendedHeader = new_extended 30 (from_u64 5)
    failed ← is_err (serialize bits header (replicate (size header - 1) 0))
    assert failed

  abbrev serialize_to_buffer : Outcome (Unit {0})
  serialize_to_buffer = do
    let header : ExtendedHeader = new_extended 6 (from_u64 154)
    buffer ← unwrap (serialize bits header (replicate (size header) 0))
    assert_bytes_eq (8 ∷ 6 ∷ 154 ∷ []) buffer

  abbrev serialize_when_frame_count_and_key_id_is_0 : Outcome (Unit {0})
  serialize_when_frame_count_and_key_id_is_0 = do
    let header : ExtendedHeader = new_extended 0 (from_u64 0)
    buffer ← unwrap (serialize bits header (replicate (size header) 0))
    assert_bytes_eq (8 ∷ 0 ∷ 0 ∷ []) buffer

  abbrev serialize_when_frame_count_and_key_id_length_is_8 : Outcome (Unit {0})
  serialize_when_frame_count_and_key_id_length_is_8 = do
    let header : ExtendedHeader = new_extended u64_max (from_u64 u64_max)
    buffer ← unwrap (serialize bits header (replicate (size header) 0))
    assert_bytes_eq ((127 ∷ []) ++ (to_be_bytes 8 u64_max ++ to_be_bytes 8 u64_max)) buffer

  abbrev be_invalid_if_buffer_to_small : Outcome (Unit {0})
  be_invalid_if_buffer_to_small = do valid ← is_valid bits (0 ∷ []); assert (not valid)

  abbrev be_invalid_if_reserved_is_set : Outcome (Unit {0})
  be_invalid_if_reserved_is_set = do valid ← is_valid bits (128 ∷ 0 ∷ 0 ∷ []); assert (not valid)

  abbrev be_invalid_if_extended_header_flag_is_not_set : Outcome (Unit {0})
  be_invalid_if_extended_header_flag_is_not_set = do
    valid ← is_valid bits (0 ∷ 0 ∷ 0 ∷ [])
    assert (not valid)

  abbrev be_invalid_if_buffer_smaller_than_expected_size : Outcome (Unit {0})
  be_invalid_if_buffer_smaller_than_expected_size = do
    valid ← is_valid bits (120 ∷ 0 ∷ 0 ∷ [])
    assert (not valid)

  abbrev be_valid_for_correct_data : Outcome (Unit {0})
  be_valid_for_correct_data = do valid ← is_valid bits (8 ∷ 2 ∷ 154 ∷ []); assert valid

  abbrev deserialize_from_valid_data : Outcome (Unit {0})
  deserialize_from_valid_data = do
    header ← unwrap (deserialize bits (8 ∷ 2 ∷ 154 ∷ []))
    _ ← assert (header.key_id == 2)
    assert (eq_u64 header.frame_count 154)

size_passes : calculate_header_size ≡ ok tt
unfolding size length_in_bytes min_len_in_bytes to_be_bytes leading_zeros
size_passes = refl

too_small_passes : fail_to_serialize_when_buffer_is_too_small example_bits ≡ ok tt
unfolding serialize_with size length_in_bytes min_len_in_bytes to_be_bytes leading_zeros
too_small_passes = refl

to_buffer_passes : serialize_to_buffer example_bits ≡ ok tt
unfolding serialize_with size length_in_bytes as_be_bytes as_min_be_bytes min_len_in_bytes
    to_be_bytes leading_zeros for_enumerate assert_bytes_eq bin2string
to_buffer_passes = refl

zeros_pass : serialize_when_frame_count_and_key_id_is_0 example_bits ≡ ok tt
unfolding serialize_with size length_in_bytes as_be_bytes as_min_be_bytes min_len_in_bytes
    to_be_bytes leading_zeros for_enumerate assert_bytes_eq bin2string
zeros_pass = refl

longest_passes : serialize_when_frame_count_and_key_id_length_is_8 example_bits ≡ ok tt
unfolding serialize_with size length_in_bytes as_be_bytes as_min_be_bytes min_len_in_bytes
    to_be_bytes leading_zeros for_enumerate assert_bytes_eq bin2string
longest_passes = refl

one_byte_passes : be_invalid_if_buffer_to_small example_bits ≡ ok tt
unfolding is_valid
one_byte_passes = refl

reserved_passes : be_invalid_if_reserved_is_set example_bits ≡ ok tt
unfolding is_valid
reserved_passes = refl

flag_passes : be_invalid_if_extended_header_flag_is_not_set example_bits ≡ ok tt
unfolding is_valid
flag_passes = refl

short_passes : be_invalid_if_buffer_smaller_than_expected_size example_bits ≡ ok tt
unfolding is_valid
short_passes = refl

correct_passes : be_valid_for_correct_data example_bits ≡ ok tt
unfolding is_valid
correct_passes = refl

deserialize_passes : deserialize_from_valid_data example_bits ≡ ok tt
unfolding deserialize_with remainder for_enumerate from_be_bytes eq_u64
deserialize_passes = refl
