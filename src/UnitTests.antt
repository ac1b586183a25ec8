-- ===== src/UnitTests.antt =====
-- The unit tests of src, as functions that succeed or panic.
pub mod Util
pub mod Ids
pub mod Counts
pub mod BasicHeader
pub mod ExtendedHeader
pub mod Headers
pub mod Validation
pub mod Senders
pub mod Wire
pub mod Receivers
pub mod Encryption
pub mod Vectors
pub mod Derivation
use secure_frame_rs.Prelude.{
  refl, ◌≡◌, ◌↔◌, arith, ℕ, List, [], ◌∷◌, Bool, true, false, ◌==◌, ◌&&◌, ltb, ltb→lt, All,
}
use secure_frame_rs.Header.Util.{IsByte}
use secure_frame_rs.Outcome.{Outcome, ok, err, panic, ◌>>=◌}

-- `assert!`
abbrev pub assert : Bool → Outcome (Unit {0})
assert true = ok tt
assert false = panic

abbrev pub is_ok {ℓ} : {A : Type ℓ} → Outcome A → Outcome Bool
is_ok (ok a) = ok true
is_ok (err e) = ok false
is_ok panic = panic

abbrev pub is_err {ℓ} : {A : Type ℓ} → Outcome A → Outcome Bool
is_err (ok a) = ok false
is_err (err e) = ok true
is_err panic = panic

-- `==` of byte slices.
abbrev pub bytes_eq : List ℕ → List ℕ → Bool
bytes_eq [] [] = true
bytes_eq [] (b ∷ r) = false
bytes_eq (a ∷ l) [] = false
bytes_eq (a ∷ l) (b ∷ r) = (a == b) && bytes_eq l r

pub bytes_eq_iff : (l r : List ℕ) → (bytes_eq l r ≡ true) ↔ (l ≡ r)
bytes_eq_iff [] [] = ground arith
bytes_eq_iff [] (b ∷ r) = ground arith
bytes_eq_iff (a ∷ l) [] = ground arith
bytes_eq_iff (a ∷ l) (b ∷ r) = ground (arith, bytes_eq_iff l r)

pub assert_iff : (b : Bool) → (assert b ≡ ok tt) ↔ (b ≡ true)
assert_iff true = ground arith
assert_iff false = ground arith

abbrev pub are_bytes : List ℕ → Bool
are_bytes [] = true
are_bytes (b ∷ l) = ltb b 256 && are_bytes l

pub are_bytes-IsByte : (l : List ℕ) → are_bytes l ≡ true → All IsByte l
are_bytes-IsByte [] e = tt
are_bytes-IsByte (b ∷ l) e = (ground arith, are_bytes-IsByte l (ground arith))

-- Two steps that both pass.
pub ok-before :
    (first rest : Outcome (Unit {0}))
    → (first >>= λ _. rest) ≡ ok tt
    → (first ≡ ok tt) × (rest ≡ ok tt)
ok-before (ok t) rest e = (refl, e)
ok-before (err x) rest e = absurd cc
ok-before panic rest e = absurd cc
