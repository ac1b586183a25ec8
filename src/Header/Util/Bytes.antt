-- ===== src/Header/Util/Bytes.antt =====
-- What the byte helpers of src/header/util.rs compute, over every u64.
use secure_frame_rs.Prelude.{
  ℕ, zero, suc, ◌+◌, ◌-◌, ◌*◌, ◌/◌, ◌%◌, ◌^◌, ◌≤◌, ◌<◌, ◌≡◌, ◌≢◌, refl, arith,
}
use secure_frame_rs.Prelude.{
  List, [], ◌∷◌, ◌++◌, length, drop, All, length-append, length-drop, All-append, All-drop,
}
use secure_frame_rs.Prelude.{replicate, Bool-cases, ◌==◌, ==_iff, inl, inr, ◌∙◌}
use native.Mathlib.Nat.{pow-suc}
use secure_frame_rs.Header.Util.{
  IsByte, to_be_bytes, from_be, from_be_bytes, leading_zeros, min_len_in_bytes, as_min_be_bytes,
}

from_be-append :
    (acc : ℕ) (xs : List ℕ) (b : ℕ) → from_be acc (xs ++ b ∷ []) ≡ from_be acc xs * 256 + b
unfolding from_be
from_be-append acc [] b = refl
from_be-append acc (x ∷ xs) b = from_be-append (acc * 256 + x) xs b

pub length-to_be_bytes : (n x : ℕ) → length (to_be_bytes n x) ≡ n
unfolding to_be_bytes
length-to_be_bytes zero x = refl
length-to_be_bytes (suc n) x =
    omega (
      arith,
      length-append (to_be_bytes n (x / 256)) (x % 256 ∷ []),
      length-to_be_bytes n (x / 256),
    )

pub to_be_bytes-IsByte : (n x : ℕ) → All IsByte (to_be_bytes n x)
unfolding to_be_bytes
to_be_bytes-IsByte zero x = tt
to_be_bytes-IsByte (suc n) x =
    All-append IsByte (to_be_bytes n (x / 256)) _ (to_be_bytes-IsByte n (x / 256)) (omega arith, tt)

-- The bytes of a number that fits give the number back.
pub from_be_bytes-to_be_bytes : (n x : ℕ) → x < 256 ^ n → from_be_bytes (to_be_bytes n x) ≡ x
unfolding from_be_bytes to_be_bytes
from_be_bytes-to_be_bytes zero x h = omega arith
from_be_bytes-to_be_bytes (suc n) x h = omega (
  arith,
  from_be-append 0 (to_be_bytes n (x / 256)) (x % 256),
  from_be_bytes-to_be_bytes n (x / 256) (omega (arith, pow-suc 256 n)),
)

-- Leading zeros do not count.
pub from_be_bytes-zeros :
    (k : ℕ) (bs : List ℕ) → from_be_bytes (replicate k 0 ++ bs) ≡ from_be_bytes bs
unfolding from_be_bytes
from_be_bytes-zeros zero bs = refl
from_be_bytes-zeros (suc k) bs = from_be_bytes-zeros k bs

from_be_bytes-drop_zeros :
    (z : ℕ) (bs : List ℕ) → z ≤ leading_zeros bs → from_be_bytes (drop z bs) ≡ from_be_bytes bs
unfolding from_be_bytes leading_zeros
from_be_bytes-drop_zeros zero bs h = refl
from_be_bytes-drop_zeros (suc z) [] h = absurd (omega arith)
from_be_bytes-drop_zeros (suc z) (b ∷ bs) h = elim (Bool-cases (b == 0)) [
  | inl e ↦ rw ((==_iff b 0).0 e) (from_be_bytes-drop_zeros z bs (ground arith))
  | inr e ↦ absurd (ground arith)
]

leading_zeros-le-length : (bs : List ℕ) → leading_zeros bs ≤ length bs
unfolding leading_zeros
leading_zeros-le-length [] = omega arith
leading_zeros-le-length (b ∷ bs) = ground (arith, leading_zeros-le-length bs)

drop-length : (bs : List ℕ) (n : ℕ) → length bs ≤ n → from_be_bytes (drop n bs) ≡ 0
unfolding from_be_bytes
drop-length [] zero h = refl
drop-length [] (suc n) h = refl
drop-length (b ∷ bs) zero h = absurd (omega arith)
drop-length (b ∷ bs) (suc n) h = drop-length bs n (omega arith)

-- A number that is not 0 has a byte that is not 0.
leading_zeros-lt : (x : ℕ) → x < 2 ^ 64 → x ≢ 0 → leading_zeros (to_be_bytes 8 x) < 8
leading_zeros-lt x h ne = grind (
  arith,
  leading_zeros-le-length (to_be_bytes 8 x),
  length-to_be_bytes 8 x,
  from_be_bytes-drop_zeros 8 (to_be_bytes 8 x),
  drop-length (to_be_bytes 8 x) 8,
  from_be_bytes-to_be_bytes 8 x,
)

-- The length is that of one to eight bytes.
pub min_len_in_bytes_bounds :
    (x : ℕ) → x < 2 ^ 64 → (1 ≤ min_len_in_bytes x) × (min_len_in_bytes x ≤ 8)
min_len_in_bytes_bounds x h = unfold min_len_in_bytes in ground (arith, leading_zeros-lt x h)

skipped-le : (x : ℕ) → x < 2 ^ 64 → 8 - min_len_in_bytes x ≤ leading_zeros (to_be_bytes 8 x)
skipped-le x h = elim (Bool-cases (x == 0)) [
  | inl e ↦ rw ((==_iff x 0).0 e) (unfold min_len_in_bytes in omega arith)
  | inr e ↦
      unfold min_len_in_bytes in
      ground (arith, leading_zeros-le-length (to_be_bytes 8 x), length-to_be_bytes 8 x)
]

pub length-as_min_be_bytes : (x : ℕ) → x < 2 ^ 64 → length (as_min_be_bytes x) ≡ min_len_in_bytes x
length-as_min_be_bytes x h =
    unfold as_min_be_bytes in
    omega (
      arith,
      min_len_in_bytes_bounds x h,
      length-to_be_bytes 8 x,
      length-drop (length (to_be_bytes 8 x) - min_len_in_bytes x) (to_be_bytes 8 x),
    )

pub as_min_be_bytes-IsByte : (x : ℕ) → All IsByte (as_min_be_bytes x)
unfolding as_min_be_bytes
as_min_be_bytes-IsByte x = All-drop IsByte _ (to_be_bytes 8 x) (to_be_bytes-IsByte 8 x)

-- The shortest big-endian bytes of a u64 stand for that u64.
pub from_be_bytes-as_min_be_bytes : (x : ℕ) → x < 2 ^ 64 → from_be_bytes (as_min_be_bytes x) ≡ x
from_be_bytes-as_min_be_bytes x h =
    unfold as_min_be_bytes in
    rw (length-to_be_bytes 8 x) (
      from_be_bytes-drop_zeros _ (to_be_bytes 8 x) (skipped-le x h)
      ∙ from_be_bytes-to_be_bytes 8 x (omega arith))
