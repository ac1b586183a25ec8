-- ===== src/Examples/WindowExamples.antt =====
-- Counts at the edges of the window.
use secure_frame_rs.Prelude.{ℕ, ◌+◌, ◌-◌, ◌^◌, ◌<◌, ◌≡◌, ◌∙◌, refl, arith, if◌then◌else◌}
use secure_frame_rs.KeyId.{KeyId}
use secure_frame_rs.Outcome.{ok, err, frame_validation_failed, frame_counter_too_old}
use secure_frame_rs.Header.Structs.{Header, basic}
use secure_frame_rs.Header.FrameCount.{from_u64, max_frame_count, FrameCountGenerator}
use secure_frame_rs.Header.Codec
use secure_frame_rs.FrameValidation.{ReplayAttackProtection, validate}
use secure_frame_rs.FrameValidation.Window.{accepts, validate_lem, validate-advance}
use secure_frame_rs.FrameValidation.Replay.{
  validate-validate, validate_all, backwards, validate_all-backwards,
}

abbrev header_at : ℕ → Header
header_at c = basic (record { key_id = 4; frame_count = from_u64 c })

abbrev window_at : ℕ → ReplayAttackProtection
window_at c = record { tolerance = 128; last_frame_count = from_u64 c }

abbrev last_generator : FrameCountGenerator
last_generator = record { current_frame_count = max_frame_count - 1 }

count_at : (c : ℕ) → Codec.frame_count (header_at c) ≡ from_u64 c
unfolding Codec.frame_count
count_at c = refl

count_small : (c : ℕ) → c < 2 ^ 64 → (Codec.frame_count (header_at c)).numeric_value < 2 ^ 64
unfolding Codec.frame_count
count_small c h = h

-- A count that is one too old.
validate_example : validate (header_at 71) (window_at 200) ≡ (
    if accepts 128 200 (Codec.frame_count (header_at 71)).numeric_value
    then (ok tt, record (window_at 200) { last_frame_count = Codec.frame_count (header_at 71) })
    else (err (frame_validation_failed frame_counter_too_old), window_at 200))
validate_example =
    validate_lem (header_at 71) (window_at 200) (count_small 71 (omega arith)) (omega arith)

-- The count 0, which follows the last count of the wheel.
validate-advance_example : validate (header_at 0) (window_at (max_frame_count - 1)) ≡ (
  ok tt,
  record (window_at (max_frame_count - 1)) { last_frame_count = Codec.frame_count (header_at 0) },
)
validate-advance_example =
    validate-advance (header_at 0) (window_at (max_frame_count - 1)) last_generator 1 (omega arith)
      refl (count_at 0) (omega arith) (omega arith) (omega arith)

accepted_72 : validate (header_at 72) (window_at 200) ≡ (ok tt, window_at 72)
accepted_72 =
    validate_lem (header_at 72) (window_at 200) (count_small 72 (omega arith)) (omega arith)
    ∙ unfold Codec.frame_count in refl

validate-validate_example : validate (header_at 72) (window_at 72) ≡ (ok tt, window_at 72)
validate-validate_example =
    validate-validate (header_at 72) (window_at 200) (window_at 72) (count_small 72 (omega arith))
      (omega arith) accepted_72

validate_all-backwards_example :
    validate_all
      (backwards (KeyId.basic 4) 5 300)
      (record { tolerance = 1; last_frame_count = from_u64 (5 + 300) })
    ≡ (ok tt, record { tolerance = 1; last_frame_count = from_u64 5 })
validate_all-backwards_example =
    validate_all-backwards (KeyId.basic 4) 1 5 300 (omega arith) (omega arith)
