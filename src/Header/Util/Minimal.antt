-- ===== src/Header/Util/Minimal.antt =====
-- The bounds of the numbers that byte strings stand for, and the least number of bytes.
use secure_frame_rs.Prelude.{
  ℕ, zero, suc, ◌+◌, ◌*◌, ◌/◌, ◌%◌, ◌^◌, ◌≤◌, ◌<◌, ◌≡◌, sym, ap, ◌∙◌, refl, arith, List, [], ◌∷◌,
  ◌++◌, length, All, replicate, replicate-add, lt-or-le, inl, inr,
}
use secure_frame_rs.Header.Util.{
  IsByte, to_be_bytes, from_be, from_be_bytes, leading_zeros, min_len_in_bytes, as_min_be_bytes,
}
use secure_frame_rs.Header.Util.Bytes.{
  min_len_in_bytes_bounds, from_be_bytes-as_min_be_bytes, as_min_be_bytes-IsByte,
  length-as_min_be_bytes,
}
use native.Mathlib.Nat.{pow-suc, mul_assoc, mul_comm, mul-le-mul_right, pow-le-pow_right}

pub regroup : (a p : ℕ) → a * (p * 256) ≡ 256 * a * p
regroup a p = sym (mul_assoc a p 256) ∙ mul_comm (a * p) 256 ∙ sym (mul_assoc 256 a p)

one_byte :
    (acc b n x : ℕ) → b < 256 → x < (acc * 256 + b + 1) * 256 ^ n → x < (acc + 1) * 256 ^ suc n
one_byte acc b n x small h =
    let step : acc * 256 + b + 1 ≤ 256 * (acc + 1) = omega arith in
    let wider : (acc * 256 + b + 1) * 256 ^ n ≤ 256 * (acc + 1) * 256 ^ n =
      mul-le-mul_right (256 ^ n) step in
    let same : (acc + 1) * 256 ^ suc n ≡ 256 * (acc + 1) * 256 ^ n =
      ap (λ t. (acc + 1) * t) (pow-suc 256 n) ∙ regroup (acc + 1) (256 ^ n) in
    rw same (omega (arith, wider))

from_be-lt : (acc : ℕ) (bs : List ℕ) → All IsByte bs → from_be acc bs < (acc + 1) * 256 ^ length bs
unfolding from_be
from_be-lt acc [] h = omega arith
from_be-lt acc (b ∷ bs) h =
    one_byte acc b (length bs) (from_be (acc * 256 + b) bs) h.0 (from_be-lt (acc * 256 + b) bs h.1)

pow-le : (n m : ℕ) → n ≤ m → 256 ^ n ≤ 256 ^ m
pow-le n m h = let zero_lt : 0 < 256 = omega arith in omega (arith, pow-le-pow_right (zero_lt) h)

-- At most eight bytes make a u64.
pub from_be_bytes-lt : (bs : List ℕ) → All IsByte bs → length bs ≤ 8 → from_be_bytes bs < 2 ^ 64
unfolding from_be_bytes
from_be_bytes-lt bs h short = omega (arith, from_be-lt 0 bs h, pow-le (length bs) 8 short)

to_be_bytes-zero : (n : ℕ) → to_be_bytes n 0 ≡ replicate n 0
unfolding to_be_bytes
to_be_bytes-zero zero = refl
to_be_bytes-zero (suc n) =
    ap (λ t. t ++ 0 ∷ []) (to_be_bytes-zero n) ∙ sym (replicate-add n 1 (suc n) 0 (omega arith))

leading_zeros-replicate : (n : ℕ) → leading_zeros (replicate n 0) ≡ n
unfolding leading_zeros
leading_zeros-replicate zero = refl
leading_zeros-replicate (suc n) = ap suc (leading_zeros-replicate n)

leading_zeros-append : (xs ys : List ℕ) → leading_zeros xs ≤ leading_zeros (xs ++ ys)
unfolding leading_zeros
leading_zeros-append [] ys = omega arith
leading_zeros-append (x ∷ xs) ys = ground (arith, leading_zeros-append xs ys)

leading_zeros-ge : (m n x : ℕ) → x < 256 ^ n → m ≤ leading_zeros (to_be_bytes m x) + n
unfolding to_be_bytes
leading_zeros-ge zero n x h = omega arith
leading_zeros-ge (suc m) zero x h =
    let x_zero : x ≡ 0 = omega arith in
    rw x_zero (
      let z : leading_zeros (to_be_bytes (suc m) 0) ≡ suc m =
        ap leading_zeros (to_be_bytes-zero (suc m)) ∙ leading_zeros-replicate (suc m) in
      omega (arith, z))
leading_zeros-ge (suc m) (suc n) x h = omega (
  arith,
  leading_zeros-append (to_be_bytes m (x / 256)) (x % 256 ∷ []),
  leading_zeros-ge m n (x / 256) (omega (arith, pow-suc 256 n)),
)

-- No shorter big-endian string of bytes stands for the number.
pub min_len_in_bytes-least :
    (bs : List ℕ) → All IsByte bs → 1 ≤ length bs → min_len_in_bytes (from_be_bytes bs) ≤ length bs
min_len_in_bytes-least bs h pos =
    unfold min_len_in_bytes from_be_bytes in
    ground (arith, leading_zeros-ge 8 (length bs) (from_be 0 bs), from_be-lt 0 bs h)

pub min_len_in_bytes-le : (n x : ℕ) → 1 ≤ n → x < 256 ^ n → min_len_in_bytes x ≤ n
min_len_in_bytes-le n x pos h = unfold min_len_in_bytes in ground (arith, leading_zeros-ge 8 n x h)

-- A number that `n` bytes do not hold takes more.
pub min_len_in_bytes-gt : (n x : ℕ) → 256 ^ n ≤ x → x < 2 ^ 64 → n < min_len_in_bytes x
min_len_in_bytes-gt n x large small =
    let bs : List ℕ = as_min_be_bytes x in
    let is : from_be 0 bs ≡ x = unfold from_be_bytes in from_be_bytes-as_min_be_bytes x small in
    elim (lt-or-le n (min_len_in_bytes x)) [
      | inl more ↦ more
      | inr short ↦ absurd (
          omega (
            arith,
            is,
            from_be-lt 0 bs (as_min_be_bytes-IsByte x),
            pow-le (length bs) n (omega (arith, length-as_min_be_bytes x small)),
          ))
    ]

pub min_len_in_bytes-eight : (x : ℕ) → 2 ^ 56 ≤ x → x < 2 ^ 64 → min_len_in_bytes x ≡ 8
min_len_in_bytes-eight x large small =
    omega (arith, min_len_in_bytes-gt 7 x large small, min_len_in_bytes_bounds x small)
