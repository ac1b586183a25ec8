-- ===== src/Header/FrameCount/Runs.antt =====
-- Any number of increments of a generator in turn.
use secure_frame_rs.Prelude.{
  ℕ, zero, suc, ◌+◌, ◌%◌, ◌<◌, ◌≡◌, ◌∙◌, sym, ap, arith, List, [], ◌∷◌, some, some-injective,
  get_elem?,
}
use secure_frame_rs.Outcome.{Outcome, ok, ◌>>=◌}
use secure_frame_rs.Header.FrameCount.{
  FrameCount, FrameCountGenerator, from_u64, increment, max_frame_count,
}
use secure_frame_rs.Header.FrameCount.Wheel.{
  IsOnWheel, advance, increment-IsOnWheel, advance-zero, advance-advance,
}

-- The counts that `n` increments give out, and the generator after them.
unfoldable pub take_counts :
    ℕ → FrameCountGenerator → Outcome (List FrameCount × FrameCountGenerator)
take_counts zero g = ok ([], g)
take_counts (suc n) g = do
  stepped ← increment g
  rest ← take_counts n stepped.1
  ok (stepped.0 ∷ rest.0, rest.1)

-- The `n` counts that follow on `i` counts from `c`.
unfoldable pub consecutive : ℕ → ℕ → ℕ → List FrameCount
consecutive c i zero = []
consecutive c i (suc n) = from_u64 ((c + i) % max_frame_count) ∷ consecutive c (i + 1) n

one_more : (i : ℕ) (g : FrameCountGenerator) → advance 1 (advance i g) ≡ advance (i + 1) g
one_more i g =
    let same : ((g.current_frame_count + i) % max_frame_count + 1) % max_frame_count
        ≡ (g.current_frame_count + (i + 1)) % max_frame_count =
      omega arith in
    ap (λ (c : ℕ). record { current_frame_count = c }) same

take_counts-from :
    (n i : ℕ) (g : FrameCountGenerator)
    → take_counts n (advance i g)
      ≡ ok (consecutive g.current_frame_count i n, advance n (advance i g))
unfolding take_counts consecutive
take_counts-from zero i g =
    let on : IsOnWheel (advance i g) = omega arith in
    ap (λ t. ok ([], t)) (sym (advance-zero (advance i g) on))
take_counts-from (suc n) i g =
    let on : IsOnWheel (advance i g) = omega arith in
    let ends : advance n (advance (i + 1) g) ≡ advance (suc n) (advance i g) =
      ap (advance n) (sym (one_more i g)) ∙ advance-advance n (advance i g) in
    rw ((increment-IsOnWheel (advance i g) on).0) (
      rw (one_more i g) (
        rw (take_counts-from n (i + 1) g) (
          ap
            (λ t. ok (
              from_u64 ((g.current_frame_count + i) % max_frame_count)
                  ∷ consecutive g.current_frame_count (i + 1) n,
              t,
            ))
            ends)))

-- From below 2^64 - 1, any number of increments never overflows: they give out the consecutive counts
-- modulo 2^64 - 1, from the current one on, and move the generator that many places on.
pub take_counts_lem :
    (n : ℕ) (g : FrameCountGenerator)
    → IsOnWheel g
    → take_counts n g ≡ ok (consecutive g.current_frame_count 0 n, advance n g)
take_counts_lem n g on =
    let still : advance 0 g ≡ g = advance-zero g on in
    ap (take_counts n) (sym still)
    ∙ take_counts-from n 0 g
    ∙ ap (λ t. ok (consecutive g.current_frame_count 0 n, advance n t)) still

pub get_elem?-consecutive :
    (c i n j : ℕ) (count : FrameCount)
    → get_elem? (consecutive c i n) j ≡ some count
    → (j < n) × (from_u64 ((c + (i + j)) % max_frame_count) ≡ count)
unfolding consecutive
get_elem?-consecutive c i zero j count at = absurd cc
get_elem?-consecutive c i (suc n) zero count at =
    let same : i + 0 ≡ i = omega arith in (omega arith, rw same (some-injective at))
get_elem?-consecutive c i (suc n) (suc j) count at =
    let (before, is) = get_elem?-consecutive c (i + 1) n j count at in
    let same : i + suc j ≡ i + 1 + j = omega arith in (omega arith, rw same is)
