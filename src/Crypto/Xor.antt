-- ===== src/Crypto/Xor.antt =====
-- Laws of `^` on unsigned integers, from the digit recursion that the native operation stands for.
use Prim.Native.Nat.{digits, bit_xor-bitwise, differ}
use secure_frame_rs.Prelude.{
  ℕ, zero, suc, ◌+◌, ◌*◌, ◌/◌, ◌%◌, ◌≤◌, ◌<◌, ◌≡◌, refl, sym, ap, ◌∙◌, arith, bit_xor,
}

abbrev xor_with : ℕ → ℕ → ℕ → ℕ
xor_with fuel = digits (λ y. y) differ fuel

xor_with-zero : (fuel b : ℕ) → xor_with fuel 0 b ≡ b
xor_with-zero zero b = refl
xor_with-zero (suc fuel) b = refl

-- Any fuel from the first operand on gives the same digits.
xor_with_enough :
    (a b more fewer : ℕ) → a ≤ fewer → a ≤ more → xor_with more a b ≡ xor_with fewer a b
xor_with_enough zero b more fewer low high = xor_with-zero more b ∙ sym (xor_with-zero fewer b)
xor_with_enough (suc a) b (suc more) (suc fewer) low high =
    let halves : xor_with more (suc a / 2) (b / 2) ≡ xor_with fewer (suc a / 2) (b / 2) =
      xor_with_enough (suc a / 2) (b / 2) more fewer (omega arith) (omega arith) in
    rw halves
xor_with_enough (suc a) b zero fewer low high = absurd (omega arith)
xor_with_enough (suc a) b (suc more) zero low high = absurd (omega arith)

zero-xor : (b : ℕ) → bit_xor 0 b ≡ b
zero-xor b = bit_xor-bitwise 0 b

xor_step :
    (a b : ℕ) → bit_xor (suc a) b ≡ bit_xor (suc a / 2) (b / 2) * 2 + differ (suc a % 2) (b % 2)
xor_step a b = omega (
  arith,
  bit_xor-bitwise (suc a) b,
  bit_xor-bitwise (suc a / 2) (b / 2),
  xor_with_enough (suc a / 2) (b / 2) a (suc a / 2) (omega arith) (omega arith),
)

differ_digit : (x y : ℕ) → x < 2 → y < 2 → differ x y < 2
differ_digit zero y hx hy = hy
differ_digit (suc zero) zero hx hy = omega arith
differ_digit (suc zero) (suc y) hx hy = omega arith
differ_digit (suc (suc x)) y hx hy = absurd (omega arith)

differ-differ : (x y : ℕ) → x < 2 → y < 2 → differ x (differ x y) ≡ y
differ-differ zero y hx hy = refl
differ-differ (suc zero) zero hx hy = refl
differ-differ (suc zero) (suc zero) hx hy = refl
differ-differ (suc zero) (suc (suc y)) hx hy = absurd (omega arith)
differ-differ (suc (suc x)) y hx hy = absurd (omega arith)

differ-zero : (x : ℕ) → differ x 0 ≡ x
differ-zero zero = refl
differ-zero (suc x) = refl

-- Recursion on a bound of the first operand.
xor-zero_below : (n a : ℕ) → a ≤ n → bit_xor a 0 ≡ a
xor-zero_below n zero h = zero-xor 0
xor-zero_below zero (suc a) h = absurd (omega arith)
xor-zero_below (suc n) (suc a) h =
    omega (arith, xor_step a 0, xor-zero_below n (suc a / 2) (omega arith), differ-zero (suc a % 2))

pub xor-zero : (a : ℕ) → bit_xor a 0 ≡ a
xor-zero a = xor-zero_below a a (omega arith)

xor-xor_below : (n a b : ℕ) → a ≤ n → bit_xor a (bit_xor a b) ≡ b
xor-xor_below n zero b h = zero-xor (bit_xor 0 b) ∙ zero-xor b
xor-xor_below zero (suc a) b h = absurd (omega arith)
xor-xor_below (suc n) (suc a) b h =
    let x : ℕ = bit_xor (suc a) b in
    let d : ℕ = differ (suc a % 2) (b % 2) in
    let small : d < 2 = differ_digit (suc a % 2) (b % 2) (omega arith) (omega arith) in
    let half : x / 2 ≡ bit_xor (suc a / 2) (b / 2) = omega (arith, xor_step a b) in
    let low : x % 2 ≡ d = omega (arith, xor_step a b) in
    xor_step a x
    ∙ rw (half, low)
        (rw (xor-xor_below n (suc a / 2) (b / 2) (omega arith))
          (rw (differ-differ (suc a % 2) (b % 2) (omega arith) (omega arith)) (omega arith)))

-- The same mask twice is no mask, so a mask loses nothing.
pub xor-xor : (a b : ℕ) → bit_xor a (bit_xor a b) ≡ b
xor-xor a b = xor-xor_below a a b (omega arith)

pub xor_cancel : (a b c : ℕ) → bit_xor a b ≡ bit_xor a c → b ≡ c
xor_cancel a b c e = sym (xor-xor a b) ∙ ap (bit_xor a) e ∙ xor-xor a c
