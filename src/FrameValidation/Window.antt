-- ===== src/FrameValidation/Window.antt =====
-- Which counts the check accepts.
use secure_frame_rs.Prelude.{
  ℕ, ◌+◌, ◌%◌, ◌^◌, ◌≤◌, ◌<◌, ◌≡◌, ap, ap₂, ◌∙◌, arith, Bool, true, ltb, leb, ◌||◌, if◌then◌else◌,
}
use secure_frame_rs.Outcome.{ok, err, frame_validation_failed, frame_counter_too_old}
use secure_frame_rs.Header.Structs.{Header}
use secure_frame_rs.Header.FrameCount.{
  FrameCount, FrameCountGenerator, IsCount, from_u64, u64_max, max_frame_count,
}
use secure_frame_rs.Header.FrameCount.Wheel.{IsOnWheel, advance}
use secure_frame_rs.Header.Codec
use secure_frame_rs.FrameValidation.{ReplayAttackProtection, validate}

-- A count that is newer, at most `tolerance` older, or at most `tolerance` ahead across the wrap.
abbrev pub accepts : ℕ → ℕ → ℕ → Bool
accepts tolerance last current =
    ltb last current
    || (leb last (current + tolerance) || leb (current + u64_max) (last + tolerance))

-- For counts of 64 bits, validate never panics: a count that is newer, at most the tolerance older,
-- or at most the tolerance ahead across the wrap replaces the last one, and any other is refused with
-- the replay error and changes nothing.
pub validate_lem :
    (h : Header) (p : ReplayAttackProtection)
    → IsCount (Codec.frame_count h)
    → IsCount p.last_frame_count
    → validate h p ≡ (
        if accepts p.tolerance p.last_frame_count.numeric_value (Codec.frame_count h).numeric_value
        then (ok tt, record p { last_frame_count = Codec.frame_count h })
        else (err (frame_validation_failed frame_counter_too_old), p))
unfolding validate
validate_lem h p c l = ground arith

accepts-advance :
    (tolerance n k : ℕ)
    → n < max_frame_count
    → 1 ≤ k
    → k ≤ tolerance
    → k ≤ max_frame_count
    → accepts tolerance n ((n + k) % max_frame_count) ≡ true
accepts-advance tolerance n k wheel pos near small = ground arith

-- From a window at a generator's current count, the frame that the generator gives out `k` steps
-- later is accepted, for `k` from 1 to the tolerance and to 2^64 - 1, also where the generator wraps.
pub validate-advance :
    (h : Header) (p : ReplayAttackProtection) (g : FrameCountGenerator) (k : ℕ)
    → IsOnWheel g
    → p.last_frame_count ≡ from_u64 g.current_frame_count
    → Codec.frame_count h ≡ from_u64 (advance k g).current_frame_count
    → 1 ≤ k
    → k ≤ p.tolerance
    → k ≤ max_frame_count
    → validate h p ≡ (ok tt, record p { last_frame_count = Codec.frame_count h })
validate-advance h p g k wheel last current pos near small =
    let n : ℕ = g.current_frame_count in
    let c : ℕ = (n + k) % max_frame_count in
    let fits : IsCount (Codec.frame_count h) =
      rw current (let lt : c < 2 ^ 64 = omega arith in lt) in
    let fits_last : IsCount p.last_frame_count =
      rw last (let lt : n < 2 ^ 64 = omega arith in lt) in
    let accepted : accepts p.tolerance p.last_frame_count.numeric_value
          (Codec.frame_count h).numeric_value
        ≡ true =
      ap₂ (λ a b. accepts p.tolerance a b) (ap (λ (t : FrameCount). t.numeric_value) last)
        (ap (λ (t : FrameCount). t.numeric_value) current)
      ∙ accepts-advance p.tolerance n k wheel pos near small in
    validate_lem h p fits fits_last ∙ rw accepted
