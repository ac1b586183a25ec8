-- ===== src/Header/FrameCount.antt =====
-- src/header/frame_count.rs: the frame count of a header and the generator of the sender.
-- The arithmetic on u64 is checked: an overflow is a panic.
pub mod Wheel
pub mod Runs
use secure_frame_rs.Prelude.{ℕ, ◌+◌, ◌-◌, ◌%◌, ◌^◌, ◌<◌, List, Bool, ltb, leb, ◌==◌}
use secure_frame_rs.Outcome.{Outcome, ok, ◌>>=◌, sub_checked, add_checked, map_ok}
use secure_frame_rs.Header.Util.{min_len_in_bytes, as_min_be_bytes}

pub record FrameCount : Type 0 where
  pub numeric_value : ℕ

abbrev pub u64_max : ℕ
u64_max = 2 ^ 64 - 1

abbrev pub IsCount : FrameCount → Type 0
IsCount c = c.numeric_value < 2 ^ 64

abbrev pub from_u64 : ℕ → FrameCount
from_u64 numeric_value = record { numeric_value = numeric_value }

abbrev pub to_u64 : FrameCount → ℕ
to_u64 frame_count = frame_count.numeric_value

abbrev pub default : FrameCount
default = from_u64 0

unfoldable pub as_be_bytes : FrameCount → List ℕ
unfolding as_min_be_bytes
as_be_bytes c = as_min_be_bytes c.numeric_value

unfoldable pub length_in_bytes : FrameCount → ℕ
unfolding min_len_in_bytes
length_in_bytes c = min_len_in_bytes c.numeric_value

-- `FrameCount - FrameCount`
unfoldable pub sub : FrameCount → FrameCount → Outcome FrameCount
sub c rhs = map_ok from_u64 (sub_checked c.numeric_value rhs.numeric_value)

-- `u64 - FrameCount`
unfoldable pub sub_from_u64 : ℕ → FrameCount → Outcome ℕ
sub_from_u64 n rhs = sub_checked n rhs.numeric_value

-- `FrameCount - u64`
unfoldable pub sub_u64 : FrameCount → ℕ → Outcome FrameCount
sub_u64 c rhs = map_ok from_u64 (sub_checked c.numeric_value rhs)

-- `FrameCount + u64`
unfoldable pub add_u64 : FrameCount → ℕ → Outcome FrameCount
add_u64 c rhs = map_ok from_u64 (add_checked 64 c.numeric_value rhs)

-- The derived `>` of two counts.
unfoldable pub gt : FrameCount → FrameCount → Bool
gt c other = ltb other.numeric_value c.numeric_value

-- `FrameCount == u64`
unfoldable pub eq_u64 : FrameCount → ℕ → Bool
eq_u64 c other = c.numeric_value == other

-- `FrameCount <= u64`
unfoldable pub le_u64 : FrameCount → ℕ → Bool
le_u64 c other = leb c.numeric_value other

pub record FrameCountGenerator : Type 0 where
  pub current_frame_count : ℕ

abbrev pub max_frame_count : ℕ
max_frame_count = u64_max

abbrev pub new_generator : FrameCountGenerator
new_generator = record { current_frame_count = 0 }

-- Returns the count and moves the generator on.
unfoldable pub increment : FrameCountGenerator → Outcome (FrameCount × FrameCountGenerator)
increment g = do
  let frame_count = from_u64 g.current_frame_count
  next ← add_checked 64 g.current_frame_count 1
  ok (frame_count, record { current_frame_count = next % max_frame_count })
