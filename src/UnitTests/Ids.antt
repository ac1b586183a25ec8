-- ===== src/UnitTests/Ids.antt =====
-- The tests of src/header/keyid.rs and src/header/util.rs.
use secure_frame_rs.Prelude.{ℕ, ◌≡◌, refl, Bool, false, ◌==◌}
use secure_frame_rs.KeyId
use secure_frame_rs.KeyId.{KeyId}
use secure_frame_rs.Outcome.{Outcome, ok, ◌>>=◌}
use secure_frame_rs.Header.FrameCount.{u64_max}
use secure_frame_rs.Header.Util.{min_len_in_bytes, to_be_bytes, leading_zeros}
use secure_frame_rs.UnitTests.{assert}

-- `matches!(id, KeyId::Basic(n))` and `matches!(id, KeyId::Extended(n))`
abbrev is_basic : KeyId → ℕ → Bool
is_basic (KeyId.basic k) n = k == n
is_basic (KeyId.extended k) n = false

abbrev is_extended : KeyId → ℕ → Bool
is_extended (KeyId.basic k) n = false
is_extended (KeyId.extended k) n = k == n

abbrev create_valid_sender_id_asserted : ℕ → KeyId
create_valid_sender_id_asserted id = KeyId.from_u64 id

abbrev create_basic_sender_id_for_ge0_l8 : Outcome (Unit {0})
create_basic_sender_id_for_ge0_l8 = do
  _ ← assert (is_basic (create_valid_sender_id_asserted 0) 0)
  assert (is_basic (create_valid_sender_id_asserted 7) 7)

abbrev create_extended_sender_id_for_ge8 : Outcome (Unit {0})
create_extended_sender_id_for_ge8 = do
  _ ← assert (is_extended (create_valid_sender_id_asserted 8) 8)
  assert (is_extended (create_valid_sender_id_asserted u64_max) u64_max)

abbrev nof_non_zero_bytes : Outcome (Unit {0})
nof_non_zero_bytes = do
  _ ← assert (1 == min_len_in_bytes 0)
  _ ← assert (1 == min_len_in_bytes 7)
  _ ← assert (2 == min_len_in_bytes 256)
  assert (8 == min_len_in_bytes u64_max)

basic_ids_pass : create_basic_sender_id_for_ge0_l8 ≡ ok tt
unfolding KeyId.from_u64
basic_ids_pass = refl

extended_ids_pass : create_extended_sender_id_for_ge8 ≡ ok tt
unfolding KeyId.from_u64
extended_ids_pass = refl

nof_non_zero_bytes_passes : nof_non_zero_bytes ≡ ok tt
unfolding min_len_in_bytes to_be_bytes leading_zeros
nof_non_zero_bytes_passes = refl
