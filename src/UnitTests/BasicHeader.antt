-- ===== src/UnitTests/BasicHeader.antt =====
-- The tests of src/header/basic_header.rs.
use secure_frame_rs.Prelude.{ℕ, ◌-◌, ◌≡◌, refl, List, [], ◌∷◌, ◌==◌, not, replicate}
use secure_frame_rs.Outcome.{Outcome, ok, ◌>>=◌}
use secure_frame_rs.Bitfield.{Msb0}
use secure_frame_rs.Header.Util.{
  from_be_bytes, as_min_be_bytes, min_len_in_bytes, to_be_bytes, leading_zeros,
}
use secure_frame_rs.Header.FrameCount.{from_u64, length_in_bytes, as_be_bytes, eq_u64}
use secure_frame_rs.Header.Structs.{BasicHeader, new_basic}
use secure_frame_rs.Header.Basic.{
  deserialize_with, serialize_with, size, serialize, deserialize, read_frame_count, is_valid,
}
use secure_frame_rs.Header.Codec.{unwrap}
use secure_frame_rs.Header.Loops.{for_enumerate}
use secure_frame_rs.UnitTests.{assert, is_err, bytes_eq}
use secure_frame_rs.UnitTests.Util.{assert_bytes_eq, bin2string}
use secure_frame_rs.Examples.Bits.{example_bits}

-- The bytes 0b00010110, 0b00000010 and 0b10011010.
abbrev data_6_666 : List ℕ
data_6_666 = 22 ∷ 2 ∷ 154 ∷ []

module _ (bits : Msb0) where
  abbrev fail_to_serialize_when_buffer_is_too_small : Outcome (Unit {0})
  fail_to_serialize_when_buffer_is_too_small = do
    let header : BasicHeader = new_basic 3 (from_u64 5)
    failed ← is_err (serialize bits header (replicate (size header - 1) 0))
    assert failed

  abbrev serialize_to_buffer : Outcome (Unit {0})
  serialize_to_buffer = do
    let header : BasicHeader = new_basic 6 (from_u64 666)
    buffer ← unwrap (serialize bits header (replicate (size header) 0))
    assert_bytes_eq data_6_666 buffer

  abbrev serialize_when_frame_count_and_key_id_is_0 : Outcome (Unit {0})
  serialize_when_frame_count_and_key_id_is_0 = do
    let header : BasicHeader = new_basic 0 (from_u64 0)
    buffer ← unwrap (serialize bits header (replicate (size header) 0))
    assert (bytes_eq (0 ∷ 0 ∷ []) buffer)

  abbrev be_invalid_if_buffer_to_small : Outcome (Unit {0})
  be_invalid_if_buffer_to_small = do valid ← is_valid bits (0 ∷ []); assert (not valid)

  abbrev be_invalid_if_extended_header_flag_is_set : Outcome (Unit {0})
  be_invalid_if_extended_header_flag_is_set = do
    valid ← is_valid bits (8 ∷ 0 ∷ 0 ∷ [])
    assert (not valid)

  abbrev be_invalid_if_buffer_smaller_than_expected_size : Outcome (Unit {0})
  be_invalid_if_buffer_smaller_than_expected_size = do
    valid ← is_valid bits (112 ∷ 0 ∷ 0 ∷ [])
    assert (not valid)

  abbrev be_valid_for_correct_data : Outcome (Unit {0})
  be_valid_for_correct_data = do valid ← is_valid bits data_6_666; assert valid

  abbrev deserialize_from_valid_data : Outcome (Unit {0})
  deserialize_from_valid_data = do
    header ← unwrap (deserialize bits data_6_666)
    _ ← assert (header.key_id == 6)
    assert (eq_u64 header.frame_count 666)

too_small_passes : fail_to_serialize_when_buffer_is_too_small example_bits ≡ ok tt
unfolding serialize_with size length_in_bytes min_len_in_bytes to_be_bytes leading_zeros
too_small_passes = refl

to_buffer_passes : serialize_to_buffer example_bits ≡ ok tt
unfolding serialize_with size length_in_bytes as_be_bytes as_min_be_bytes min_len_in_bytes
    to_be_bytes leading_zeros for_enumerate assert_bytes_eq bin2string
to_buffer_passes = refl

zeros_pass : serialize_when_frame_count_and_key_id_is_0 example_bits ≡ ok tt
unfolding serialize_with size length_in_bytes as_be_bytes as_min_be_bytes min_len_in_bytes
    to_be_bytes leading_zeros for_enumerate
zeros_pass = refl

one_byte_passes : be_invalid_if_buffer_to_small example_bits ≡ ok tt
unfolding is_valid
one_byte_passes = refl

flag_passes : be_invalid_if_extended_header_flag_is_set example_bits ≡ ok tt
unfolding is_valid
flag_passes = refl

short_passes : be_invalid_if_buffer_smaller_than_expected_size example_bits ≡ ok tt
unfolding is_valid
short_passes = refl

correct_passes : be_valid_for_correct_data example_bits ≡ ok tt
unfolding is_valid
correct_passes = refl

deserialize_passes : deserialize_from_valid_data example_bits ≡ ok tt
unfolding deserialize_with read_frame_count from_be_bytes eq_u64
deserialize_passes = refl
