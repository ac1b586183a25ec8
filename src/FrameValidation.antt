-- ===== src/FrameValidation.antt =====
-- src/frame_validation.rs: the check of a frame's count before its decryption.
-- The `Cell` that `validate` writes to is the state of the action.
pub mod Window
pub mod Replay
use secure_frame_rs.Prelude.{ℕ, Bool, if◌then◌else◌}
use secure_frame_rs.Outcome.{SframeError, frame_validation_failed, frame_counter_too_old}
use secure_frame_rs.Exec.{Exec, raise, lift, get, put, ◌>>=◌}
use secure_frame_rs.Header.Structs.{Header}
use secure_frame_rs.Header.FrameCount.{
  FrameCount, from_u64, u64_max, gt, le_u64, sub, sub_from_u64, add_u64,
}
use secure_frame_rs.Header.Codec

-- The trait; `Self` is the state of an implementation, which its cells hold.
pub record FrameValidation (Self : Type 0) : Type 0 where
  pub validate : Header → Exec Self (Unit {0})

pub record ReplayAttackProtection : Type 0 where
  pub tolerance : ℕ
  pub last_frame_count : FrameCount

abbrev pub with_tolerance : ℕ → ReplayAttackProtection
with_tolerance tolerance = record { tolerance = tolerance; last_frame_count = from_u64 0 }

unfoldable pub validate : Header → Exec ReplayAttackProtection (Unit {0})
unfolding gt le_u64 sub sub_from_u64 add_u64 Codec.frame_count
validate header = do
  p ← get
  let current_frame_count = Codec.frame_count header
  let accept = put (record p { last_frame_count = current_frame_count })
  if gt current_frame_count p.last_frame_count then accept else do
    age ← lift (sub p.last_frame_count current_frame_count)
    if le_u64 age p.tolerance then accept else do
      dist_to_overflow ← lift (sub_from_u64 u64_max p.last_frame_count)
      overflow_age ← lift (add_u64 current_frame_count dist_to_overflow)
      if le_u64 overflow_age p.tolerance
          then accept
          else raise (frame_validation_failed frame_counter_too_old)

abbrev pub replay_attack_protection : FrameValidation ReplayAttackProtection
replay_attack_protection = record { validate = validate }
