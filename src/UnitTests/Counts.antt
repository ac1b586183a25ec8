-- ===== src/UnitTests/Counts.antt =====
-- The tests of src/header/frame_count.rs.
use secure_frame_rs.Prelude.{ℕ, zero, suc, ◌+◌, ◌/◌, ◌≡◌, refl, [], ◌∷◌, ◌==◌}
use secure_frame_rs.Outcome.{Outcome, ok, ◌>>=◌}
use secure_frame_rs.Header.FrameCount.{
  FrameCountGenerator, from_u64, as_be_bytes, length_in_bytes, eq_u64, u64_max, new_generator,
  increment,
}
use secure_frame_rs.Header.Util.{as_min_be_bytes, min_len_in_bytes, to_be_bytes, leading_zeros}
use secure_frame_rs.UnitTests.{assert, bytes_eq}

abbrev return_numeric_value : Outcome (Unit {0})
return_numeric_value = assert (eq_u64 (from_u64 42) 42)

abbrev return_value_as_be_bytes_without_trailing_zeros_iter : Outcome (Unit {0})
return_value_as_be_bytes_without_trailing_zeros_iter = do
  _ ← assert (bytes_eq (2 ∷ 154 ∷ []) (as_be_bytes (from_u64 666)))
  assert (bytes_eq (0 ∷ []) (as_be_bytes (from_u64 0)))

-- `usize` has 64 bits.
abbrev return_length_in_bytes : Outcome (Unit {0})
return_length_in_bytes = do
  _ ← assert (2 == length_in_bytes (from_u64 666))
  _ ← assert (1 == length_in_bytes (from_u64 0))
  assert (64 / 8 == length_in_bytes (from_u64 u64_max))

-- `for i in i..i + rounds`
abbrev increments : ℕ → ℕ → FrameCountGenerator → Outcome (Unit {0})
increments zero i frame_count_generator = ok tt
increments (suc rounds) i frame_count_generator = do
  stepped ← increment frame_count_generator
  _ ← assert (eq_u64 stepped.0 i)
  increments rounds (i + 1) stepped.1

abbrev create_increasing_frame_counts : Outcome (Unit {0})
create_increasing_frame_counts = increments 10 0 new_generator

numeric_value_passes : return_numeric_value ≡ ok tt
unfolding eq_u64
numeric_value_passes = refl

be_bytes_pass : return_value_as_be_bytes_without_trailing_zeros_iter ≡ ok tt
unfolding as_be_bytes as_min_be_bytes min_len_in_bytes to_be_bytes leading_zeros
be_bytes_pass = refl

length_in_bytes_passes : return_length_in_bytes ≡ ok tt
unfolding length_in_bytes min_len_in_bytes to_be_bytes leading_zeros
length_in_bytes_passes = refl

increasing_passes : create_increasing_frame_counts ≡ ok tt
unfolding increment eq_u64
increasing_passes = refl
