-- ===== src/UnitTests/Util.antt =====
-- src/util.rs: how the tests compare bytes. A string is the list of its characters' codes.
use secure_frame_rs.Prelude.{
  ℕ, zero, suc, ◌+◌, ◌/◌, ◌%◌, ◌^◌, ◌≡◌, ◌↔◌, ap, ap₂, refl, arith, List, [], ◌∷◌, ◌++◌, All, drop,
  length,
}
use secure_frame_rs.Outcome.{Outcome, ok}
use secure_frame_rs.Header.Util.{IsByte}
use secure_frame_rs.UnitTests.{assert, assert_iff, bytes_eq, bytes_eq_iff}

-- One bit as the character 0 or 1.
abbrev binary_digit : ℕ → ℕ → ℕ
binary_digit x i = 48 + x / 2 ^ i % 2

-- `{x:08b} ` of a byte: eight binary digits and a space.
abbrev pub binary : ℕ → List ℕ
binary x =
    binary_digit x 7
    ∷ binary_digit x 6
    ∷ binary_digit x 5
    ∷ binary_digit x 4
    ∷ binary_digit x 3
    ∷ binary_digit x 2
    ∷ binary_digit x 1
    ∷ binary_digit x 0
    ∷ 32
    ∷ []

unfoldable pub bin2string : List ℕ → List ℕ
bin2string [] = []
bin2string (x ∷ bin) = binary x ++ bin2string bin

unfoldable pub assert_bytes_eq : List ℕ → List ℕ → Outcome (Unit {0})
assert_bytes_eq l r = assert (bytes_eq (bin2string l) (bin2string r))

abbrev at : ℕ → List ℕ → ℕ
at i [] = 0
at zero (x ∷ l) = x
at (suc i) (x ∷ l) = at i l

-- A byte is the sum of its binary digits.
binary-injective :
    (x y : ℕ) (l r : List ℕ)
    → IsByte x
    → IsByte y
    → binary x ++ l ≡ binary y ++ r
    → (x ≡ y) × (l ≡ r)
binary-injective x y l r hx hy e =
    let d : (i : ℕ) → at i (binary x ++ l) ≡ at i (binary y ++ r) = λ i. ap (at i) e in
    (omega (arith, d 0, d 1, d 2, d 3, d 4, d 5, d 6, d 7), ap (drop 9) e)

bin2string-injective :
    (l r : List ℕ) → All IsByte l → All IsByte r → bin2string l ≡ bin2string r → l ≡ r
unfolding bin2string
bin2string-injective [] [] hl hr e = refl
bin2string-injective [] (y ∷ r) hl hr e = absurd (omega (arith, ap length e))
bin2string-injective (x ∷ l) [] hl hr e = absurd (omega (arith, ap length e))
bin2string-injective (x ∷ l) (y ∷ r) (hx, hl) (hy, hr) e =
    let (same, rest) = binary-injective x y (bin2string l) (bin2string r) hx hy e in
    ap₂ (λ a b. a ∷ b) same (bin2string-injective l r hl hr rest)

-- The comparison of two buffers of bytes passes exactly if they are the same, and panics otherwise.
pub assert_bytes_eq_iff :
    (l r : List ℕ) → All IsByte l → All IsByte r → (assert_bytes_eq l r ≡ ok tt) ↔ (l ≡ r)
unfolding assert_bytes_eq
assert_bytes_eq_iff l r hl hr = (
  λ e. bin2string-injective l r hl hr (
      (bytes_eq_iff (bin2string l) (bin2string r)).0
        ((assert_iff (bytes_eq (bin2string l) (bin2string r))).0 e)),
  λ e.
      (assert_iff (bytes_eq (bin2string l) (bin2string r))).1
        ((bytes_eq_iff (bin2string l) (bin2string r)).1 (ap bin2string e)),
)
