-- ===== src/UnitTests/Validation.antt =====
-- The tests of src/frame_validation.rs.
use secure_frame_rs.Prelude.{ℕ, zero, suc, ◌+◌, ◌-◌, ◌%◌, ◌^◌, ◌≡◌, refl}
use secure_frame_rs.KeyId
use secure_frame_rs.KeyId.{KeyId}
use secure_frame_rs.Outcome.{Outcome, ok, err, panic, frame_validation_failed}
use secure_frame_rs.Exec.{Exec, pure, ◌>>◌}
use secure_frame_rs.Header.Structs.{Header}
use secure_frame_rs.Header.FrameCount.{from_u64, u64_max, gt, le_u64, sub, sub_from_u64, add_u64}
use secure_frame_rs.Header.Codec.{with_frame_count, frame_count, unwrap}
use secure_frame_rs.FrameValidation.{ReplayAttackProtection, with_tolerance, validate}

-- `Header::with_frame_count(23456789u64, count)`
abbrev header_at : ℕ → Header
header_at count = with_frame_count (KeyId.from_u64 23456789) (from_u64 count)

-- `assert_eq!(validator.validate(&header), Ok(()))`
abbrev assert_valid : Header → Exec ReplayAttackProtection (Unit {0})
assert_valid header p = (unwrap (validate header p).0, (validate header p).1)

-- `assert!(matches!(validator.validate(&header), Err(SframeError::FrameValidationFailed(_))))`
abbrev is_refusal : Outcome (Unit {0}) → Outcome (Unit {0})
is_refusal (err (frame_validation_failed message)) = ok tt
is_refusal _ = panic

abbrev assert_refused : Header → Exec ReplayAttackProtection (Unit {0})
assert_refused header p = (is_refusal (validate header p).0, (validate header p).1)

abbrev accept_newer_headers : Outcome (Unit {0})
accept_newer_headers =
    ((assert_valid (header_at 2400) >> assert_valid (header_at 2480)) (with_tolerance 128)).0

abbrev accept_older_headers_in_tolerance : Outcome (Unit {0})
accept_older_headers_in_tolerance =
    ((assert_valid (header_at 2480) >> assert_valid (header_at 2400)) (with_tolerance 128)).0

abbrev reject_too_old_headers : Outcome (Unit {0})
reject_too_old_headers =
    ((assert_valid (header_at 2480) >> assert_refused (header_at 1024)) (with_tolerance 128)).0

abbrev start_count : ℕ
start_count = u64_max - 3

-- `for step in step..step + rounds`, with `start_count.wrapping_add(step)`.
abbrev assert_steps : ℕ → ℕ → Exec ReplayAttackProtection (Unit {0})
assert_steps zero step = pure tt
assert_steps (suc rounds) step =
    assert_valid (header_at ((start_count + step) % 2 ^ 64)) >> assert_steps rounds (step + 1)

abbrev handle_overflowing_counters : Outcome (Unit {0})
handle_overflowing_counters =
    ((assert_valid (header_at start_count) >> assert_steps 10 0) (with_tolerance 128)).0

newer_passes : accept_newer_headers ≡ ok tt
unfolding validate gt le_u64 sub sub_from_u64 add_u64 with_frame_count frame_count KeyId.from_u64
newer_passes = refl

older_passes : accept_older_headers_in_tolerance ≡ ok tt
unfolding validate gt le_u64 sub sub_from_u64 add_u64 with_frame_count frame_count KeyId.from_u64
older_passes = refl

too_old_passes : reject_too_old_headers ≡ ok tt
unfolding validate gt le_u64 sub sub_from_u64 add_u64 with_frame_count frame_count KeyId.from_u64
too_old_passes = refl

overflowing_passes : handle_overflowing_counters ≡ ok tt
unfolding validate gt le_u64 sub sub_from_u64 add_u64 with_frame_count frame_count KeyId.from_u64
overflowing_passes = refl
