-- ===== src/Header/Util/Padding.antt =====
-- Leading zero bytes.
use secure_frame_rs.Prelude.{
  ℕ, zero, suc, ◌+◌, ◌*◌, ◌^◌, ◌≤◌, ◌≡◌, ◌↔◌, ap, ◌∙◌, arith, List, [], ◌∷◌, length, All,
}
use secure_frame_rs.Header.Util.{IsByte, from_be, from_be_bytes, min_len_in_bytes}
use secure_frame_rs.Header.Util.Bytes.{min_len_in_bytes_bounds, from_be_bytes-zeros}
use secure_frame_rs.Header.Util.Minimal.{
  regroup, from_be_bytes-lt, min_len_in_bytes-least, min_len_in_bytes-gt,
}
use native.Mathlib.Nat.{pow-suc, mul-le-mul_right}

-- The first of several bytes is not zero.
abbrev pub IsMinimal : List ℕ → Type 0
IsMinimal [] = Unit
IsMinimal (b ∷ []) = Unit
IsMinimal (b ∷ c ∷ bs) = 1 ≤ b

from_be-ge : (acc : ℕ) (bs : List ℕ) → acc * 256 ^ length bs ≤ from_be acc bs
unfolding from_be
from_be-ge acc [] = omega arith
from_be-ge acc (b ∷ bs) =
    let wider : 256 * acc * 256 ^ length bs ≤ (acc * 256 + b) * 256 ^ length bs =
      mul-le-mul_right (256 ^ length bs) (omega arith) in
    let same : acc * 256 ^ suc (length bs) ≡ 256 * acc * 256 ^ length bs =
      ap (λ t. acc * t) (pow-suc 256 (length bs)) ∙ regroup acc (256 ^ length bs) in
    rw same (omega (arith, wider, from_be-ge (acc * 256 + b) bs))

starts-ge : (b : ℕ) (bs : List ℕ) → 1 ≤ b → 256 ^ length bs ≤ from_be_bytes (b ∷ bs)
unfolding from_be_bytes from_be
starts-ge b bs pos =
    let once : 1 * 256 ^ length bs ≤ (0 * 256 + b) * 256 ^ length bs =
      mul-le-mul_right (256 ^ length bs) (omega arith) in
    omega (arith, once, from_be-ge (0 * 256 + b) bs)

-- One to eight bytes are the shortest that write their number exactly if they have no zero in front.
pub min_len_in_bytes-IsMinimal :
    (bs : List ℕ)
    → All IsByte bs
    → 1 ≤ length bs
    → length bs ≤ 8
    → (min_len_in_bytes (from_be_bytes bs) ≡ length bs) ↔ IsMinimal bs
min_len_in_bytes-IsMinimal [] bytes pos short = absurd (omega arith)
min_len_in_bytes-IsMinimal (b ∷ []) bytes pos short = (
  (λ e. tt),
  (λ m. omega (
    arith,
    min_len_in_bytes-least (b ∷ []) bytes pos,
    min_len_in_bytes_bounds (from_be_bytes (b ∷ [])) (from_be_bytes-lt (b ∷ []) bytes short),
  )),
)
min_len_in_bytes-IsMinimal (b ∷ c ∷ bs) bytes pos short = (
  (λ e.
      elim b as (λ t. min_len_in_bytes (from_be_bytes (t ∷ c ∷ bs)) ≡ length (t ∷ c ∷ bs) → 1 ≤ t) [
        | zero ↦ λ f.
            absurd (omega (arith, f, same, min_len_in_bytes-least (c ∷ bs) bytes.1 (omega arith)))
        | suc n ↦ λ f. omega arith
      ]
        e),
  (λ pos'. omega (
    arith,
    min_len_in_bytes-least (b ∷ c ∷ bs) bytes pos,
    min_len_in_bytes-gt (length (c ∷ bs)) (from_be_bytes (b ∷ c ∷ bs)) (starts-ge b (c ∷ bs) pos')
        (from_be_bytes-lt (b ∷ c ∷ bs) bytes short),
  )),
)
  where
    same : min_len_in_bytes (from_be_bytes (0 ∷ c ∷ bs)) ≡ min_len_in_bytes (from_be_bytes (c ∷ bs))
    same = ap min_len_in_bytes (from_be_bytes-zeros 1 (c ∷ bs))
