-- ===== src/Header/FrameCount/Wheel.antt =====
-- The counts that a generator gives out: a wheel of 2^64 - 1 values.
use secure_frame_rs.Prelude.{ℕ, suc, ◌+◌, ◌%◌, ◌<◌, ◌≡◌, arith, ap}
use secure_frame_rs.Outcome.{ok}
use secure_frame_rs.Header.FrameCount.{FrameCountGenerator, from_u64, increment, max_frame_count}

-- The state that every generator of the program is in.
abbrev pub IsOnWheel : FrameCountGenerator → Type 0
IsOnWheel g = g.current_frame_count < max_frame_count

abbrev pub advance : ℕ → FrameCountGenerator → FrameCountGenerator
advance k g = record { current_frame_count = (g.current_frame_count + k) % max_frame_count }

-- On the wheel `increment` never overflows: it gives out the current count and moves one place on.
pub increment-IsOnWheel :
    (g : FrameCountGenerator)
    → IsOnWheel g
    → (increment g ≡ ok (from_u64 g.current_frame_count, advance 1 g)) × IsOnWheel (advance 1 g)
unfolding increment
increment-IsOnWheel g h = ground arith

abbrev at_count : ℕ → FrameCountGenerator
at_count c = record { current_frame_count = c }

pub advance-zero : (g : FrameCountGenerator) → IsOnWheel g → advance 0 g ≡ g
advance-zero g h =
    let same : (g.current_frame_count + 0) % max_frame_count ≡ g.current_frame_count =
      omega arith in
    ap at_count same

pub advance-advance :
    (n : ℕ) (g : FrameCountGenerator) → advance n (advance 1 g) ≡ advance (suc n) g
advance-advance n g =
    let same : ((g.current_frame_count + 1) % max_frame_count + n) % max_frame_count
        ≡ (g.current_frame_count + suc n) % max_frame_count =
      omega arith in
    ap at_count same
