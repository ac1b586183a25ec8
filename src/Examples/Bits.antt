-- ===== src/Examples/Bits.antt =====
-- The crate `bitfield`, by division.
use secure_frame_rs.Prelude.{
  ℕ, ◌+◌, ◌-◌, ◌*◌, ◌/◌, ◌%◌, ◌<◌, ◌≡◌, refl, arith, List, ltb, ◌==◌, if◌then◌else◌,
}
use secure_frame_rs.Outcome.{Outcome, panic, map_ok, index, store, ◌>>=◌}
use secure_frame_rs.Bitfield.{Msb0, field, set_field, bit_of}

abbrev pub bit_range : List ℕ → ℕ → ℕ → Outcome ℕ
bit_range xs msb lsb = map_ok (λ b. field b (lsb % 8) (msb % 8)) (index xs (lsb / 8))

abbrev pub set_bit_range : List ℕ → ℕ → ℕ → ℕ → Outcome (List ℕ)
set_bit_range xs msb lsb v =
    index xs (lsb / 8) >>= λ b. store xs (lsb / 8) (set_field b (lsb % 8) (msb % 8) v)

abbrev pub element : List ℕ → ℕ → ℕ → ℕ → ℕ → Outcome ℕ
element xs msb lsb count i =
    if ltb i count
    then bit_range xs (msb + i * (msb + 1 - lsb)) (lsb + i * (msb + 1 - lsb))
    else panic

abbrev pub set_element : List ℕ → ℕ → ℕ → ℕ → ℕ → ℕ → Outcome (List ℕ)
set_element xs msb lsb count i v =
    if ltb i count
    then set_bit_range xs (msb + i * (msb + 1 - lsb)) (lsb + i * (msb + 1 - lsb)) v
    else panic

pub quotient : (byte place : ℕ) → place < 8 → (8 * byte + place) / 8 ≡ byte
quotient byte place h = omega arith

pub remainder : (byte place : ℕ) → place < 8 → (8 * byte + place) % 8 ≡ place
remainder byte place h = omega arith

abbrev pub example_bits : Msb0
example_bits = record {
  bit_range = bit_range;
  set_bit_range = set_bit_range;
  bit = λ xs place. map_ok (λ b. field b (place % 8) (place % 8) == 1) (index xs (place / 8));
  set_bit = λ xs place v. set_bit_range xs place place (bit_of v);
  element = element;
  set_element = set_element;
  bit_range_lem = λ xs byte first last order small. rw (
    quotient byte first (omega arith),
    remainder byte first (omega arith),
    remainder byte last small,
  );
  set_bit_range_lem = λ xs byte first last v order small. rw (
    quotient byte first (omega arith),
    remainder byte first (omega arith),
    remainder byte last small,
  );
  bit_lem = λ xs byte place small. rw (quotient byte place small, remainder byte place small);
  set_bit_lem = λ xs byte place v small. rw (quotient byte place small, remainder byte place small);
  element_lem = λ xs msb lsb count i order. refl;
  set_element_lem = λ xs msb lsb count i v order. refl;
}
