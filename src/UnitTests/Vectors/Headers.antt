-- ===== src/UnitTests/Vectors/Headers.antt =====
-- The tests of src/header/mod.rs with the feature `verify-test-vectors`.
use secure_frame_rs.Prelude.{◌≡◌, refl, List, [], ◌∷◌}
use secure_frame_rs.KeyId
use secure_frame_rs.KeyId.{KeyId}
use secure_frame_rs.Outcome.{Outcome, ok, ◌>>=◌}
use secure_frame_rs.Bitfield.{Msb0}
use secure_frame_rs.Header.Util.{
  from_be_bytes, as_min_be_bytes, min_len_in_bytes, to_be_bytes, leading_zeros,
}
use secure_frame_rs.Header.FrameCount.{from_u64, eq_u64, length_in_bytes, as_be_bytes}
use secure_frame_rs.Header.Structs.{Header, len_offset_of_vectors}
use secure_frame_rs.Header.Basic
use secure_frame_rs.Header.Extended
use secure_frame_rs.Header.Loops.{for_enumerate}
use secure_frame_rs.Header.Codec
use secure_frame_rs.Header.Codec.{with_frame_count, key_id, frame_count, size, unwrap}
use secure_frame_rs.Receiver.Secrets.{key_eq}
use secure_frame_rs.UnitTests.{assert}
use secure_frame_rs.UnitTests.Util.{assert_bytes_eq, bin2string}
use secure_frame_rs.UnitTests.Vectors.{TestVector}
use secure_frame_rs.UnitTests.Vectors.AesGcm256
use secure_frame_rs.Examples.Bits.{example_bits}

-- The header of a vector.
abbrev pub header_of : TestVector → Header
header_of test_vector =
    with_frame_count (KeyId.from_u64 test_vector.key_id) (from_u64 test_vector.frame_count)

module _ (bits : Msb0) where
  abbrev serialize_test_vector : TestVector → Outcome (Unit {0})
  serialize_test_vector test_vector = do
    header ← Codec.to_vec_with bits len_offset_of_vectors (header_of test_vector)
    assert_bytes_eq header test_vector.header

  abbrev deserialize_test_vector : TestVector → Outcome (Unit {0})
  deserialize_test_vector test_vector = do
    header ← unwrap (Codec.deserialize_with bits len_offset_of_vectors test_vector.header)
    _ ← assert (key_eq (key_id header) (KeyId.from_u64 test_vector.key_id))
    assert (eq_u64 (frame_count header) test_vector.frame_count)

-- `into_iter().for_each(..)`
abbrev pub for_each : (TestVector → Outcome (Unit {0})) → List TestVector → Outcome (Unit {0})
for_each test [] = ok tt
for_each test (v ∷ vs) = do _ ← test v; for_each test vs

abbrev serialize_test_vectors : Msb0 → Outcome (Unit {0})
serialize_test_vectors bits = for_each (serialize_test_vector bits) AesGcm256.get_test_vectors

abbrev deserialize_test_vectors : Msb0 → Outcome (Unit {0})
deserialize_test_vectors bits = for_each (deserialize_test_vector bits) AesGcm256.get_test_vectors

serialize_passes : serialize_test_vectors example_bits ≡ ok tt
unfolding Codec.to_vec_with Codec.serialize_with size with_frame_count KeyId.from_u64 Basic.size
    Basic.serialize_with Extended.size Extended.serialize_with length_in_bytes as_be_bytes
    as_min_be_bytes min_len_in_bytes to_be_bytes leading_zeros for_enumerate assert_bytes_eq
    bin2string
serialize_passes = refl

deserialize_passes : deserialize_test_vectors example_bits ≡ ok tt
unfolding Codec.deserialize_with key_id frame_count KeyId.from_u64 eq_u64 Basic.is_valid
    Basic.deserialize_with Basic.read_frame_count Extended.deserialize_with Extended.remainder
    for_enumerate from_be_bytes
deserialize_passes = refl
