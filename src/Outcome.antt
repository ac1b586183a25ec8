-- ===== src/Outcome.antt =====
-- src/error.rs: the errors of the library, and what a call comes to.
-- `panic` stands for a Rust panic: an index out of range, an unwrap, or an overflow that a build
-- with overflow checks traps. The texts of the errors are kept as their format's arguments.
use secure_frame_rs.Prelude.{◌≡◌, ℕ, zero, suc, ◌+◌, ◌-◌, ◌^◌, List, [], ◌∷◌, ltb, if◌then◌else◌}
use secure_frame_rs.Prelude.{take, drop, length, leb}
pub mod Slices
use secure_frame_rs.KeyId.{KeyId}

pub data Message : Type 0 where
  buffer_too_small : ℕ → ℕ → Message
  frame_counter_too_old : Message

pub data SframeError : Type 0 where
  missing_encryption_key : SframeError
  missing_decryption_key : KeyId → SframeError
  decryption_failure : SframeError
  encryption_failure : SframeError
  key_expansion : SframeError
  frame_validation_failed : Message → SframeError
  other : Message → SframeError

pub data Outcome {ℓ} (A : Type ℓ) : Type ℓ where
  ok : A → Outcome A
  err : SframeError → Outcome A
  panic : Outcome A

infixl 10 ◌>>=◌ ◌>>◌
abbrev pub ◌>>=◌ {ℓ κ} : {A : Type ℓ} {B : Type κ} → Outcome A → (A → Outcome B) → Outcome B
ok a >>= f = f a
err e >>= f = err e
panic >>= f = panic

abbrev pub ◌>>◌ {ℓ κ} : {A : Type ℓ} {B : Type κ} → Outcome A → Outcome B → Outcome B
m >> n = m >>= λ _. n

abbrev pub map_ok {ℓ κ} : {A : Type ℓ} {B : Type κ} → (A → B) → Outcome A → Outcome B
map_ok f r = r >>= λ a. ok (f a)

-- `a - b` on an unsigned type.
abbrev pub sub_checked : ℕ → ℕ → Outcome ℕ
sub_checked a b = if ltb a b then panic else ok (a - b)

-- `a + b` on a type of `w` bits.
abbrev pub add_checked : ℕ → ℕ → ℕ → Outcome ℕ
add_checked w a b = if ltb (a + b) (2 ^ w) then ok (a + b) else panic

module _ {ℓ} {A : Type ℓ} where
  -- `xs[i]`
  abbrev pub index : List A → ℕ → Outcome A
  index [] i = panic
  index (x ∷ xs) zero = ok x
  index (x ∷ xs) (suc i) = index xs i

  -- `xs[i] = v`
  abbrev pub store : List A → ℕ → A → Outcome (List A)
  store [] i v = panic
  store (x ∷ xs) zero v = ok (v ∷ xs)
  store (x ∷ xs) (suc i) v = map_ok (λ ys. x ∷ ys) (store xs i v)

  -- `&xs[..n]`
  unfoldable pub slice_to : List A → ℕ → Outcome (List A)
  slice_to xs n = if leb n (length xs) then ok (take n xs) else panic

  -- `&xs[n..]`
  unfoldable pub slice_from : List A → ℕ → Outcome (List A)
  slice_from xs n = if leb n (length xs) then ok (drop n xs) else panic

pub ok-injective {ℓ} : {A : Type ℓ} {a b : A} → ok a ≡ ok b → a ≡ b
ok-injective e = cc
