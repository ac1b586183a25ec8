-- ===== src/UnitTests/Headers.antt =====
-- The tests of src/header/mod.rs in the default build.

use secure_frame_rs.Prelude.{◌≡◌, refl, [], ◌∷◌, ◌==◌, not}
use secure_frame_rs.KeyId.{KeyId}
use secure_frame_rs.Outcome.{Outcome, ok, ◌>>=◌}
use secure_frame_rs.Bitfield.{Msb0}
use secure_frame_rs.Header.Util.{from_be_bytes, min_len_in_bytes, to_be_bytes, leading_zeros}
use secure_frame_rs.Header.FrameCount.{FrameCount, from_u64, eq_u64, length_in_bytes}
use secure_frame_rs.Header.Structs.{Header}
use secure_frame_rs.Header.Basic
use secure_frame_rs.Header.Codec.{
  deserialize_with, with_frame_count, is_extended, key_id, frame_count, size, deserialize, unwrap,
}
use secure_frame_rs.Receiver.Secrets.{key_eq}
use secure_frame_rs.UnitTests.{assert}
use secure_frame_rs.Examples.Bits.{example_bits}

-- `assert_eq!` of two frame counts.
abbrev assert_same_count : FrameCount → FrameCount → Outcome (Unit {0})
assert_same_count a b = assert (eq_u64 a b.numeric_value)

abbrev create_basic_header_from_basic_key_id_with_correct_fields : Outcome (Unit {0})
create_basic_header_from_basic_key_id_with_correct_fields = do
  let id : KeyId = KeyId.basic 0
  let count : FrameCount = from_u64 0
  let header : Header = with_frame_count id count
  _ ← assert (not (is_extended header))
  _ ← assert (key_eq id (key_id header))
  _ ← assert_same_count count (frame_count header)
  assert (2 == size header)

abbrev create_extended_header_from_extended_key_id_with_correct_fields : Outcome (Unit {0})
create_extended_header_from_extended_key_id_with_correct_fields = do
  let id : KeyId = KeyId.extended 666
  let count : FrameCount = from_u64 0
  let header : Header = with_frame_count id count
  _ ← assert (is_extended header)
  _ ← assert (key_eq id (key_id header))
  assert_same_count count (frame_count header)

abbrev deserialize_basic_header : Msb0 → Outcome (Unit {0})
deserialize_basic_header bits = do
  header ← unwrap (deserialize bits (22 ∷ 2 ∷ 154 ∷ []))
  assert (not (is_extended header))

basic_passes : create_basic_header_from_basic_key_id_with_correct_fields ≡ ok tt
unfolding with_frame_count is_extended key_id frame_count size eq_u64 Basic.size length_in_bytes
    min_len_in_bytes to_be_bytes leading_zeros
basic_passes = refl

extended_passes : create_extended_header_from_extended_key_id_with_correct_fields ≡ ok tt
unfolding with_frame_count is_extended key_id frame_count eq_u64
extended_passes = refl

deserialize_passes : deserialize_basic_header example_bits ≡ ok tt
unfolding deserialize_with is_extended Basic.is_valid Basic.deserialize_with Basic.read_frame_count
    from_be_bytes
deserialize_passes = refl
