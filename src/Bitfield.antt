-- ===== src/Bitfield.antt =====
-- The crate `bitfield`, whose macro generates the accessors of both headers: an interface.
-- `bit_range xs msb lsb` is the crate's access to a `MSB0 [u8]`, where bit 0 is the most significant
-- bit of the first byte; a field of one byte reads and writes those bits of that byte, and an access
-- outside the slice panics. A field that is declared with a count is an array of fields side by side.
use secure_frame_rs.Prelude.{ℕ, ◌+◌, ◌-◌, ◌*◌, ◌/◌, ◌%◌, ◌^◌, ◌≤◌, ◌<◌, ◌≡◌, Bool, List, ltb, ◌==◌}
use secure_frame_rs.Prelude.{if◌then◌else◌}
use secure_frame_rs.Outcome.{Outcome, panic, ◌>>=◌, map_ok, index, store}

-- The bits `first` to `last` of a byte, counted from its most significant bit.
abbrev pub field : ℕ → ℕ → ℕ → ℕ
field b first last = b / 2 ^ (7 - last) % 2 ^ (last + 1 - first)

abbrev pub set_field : ℕ → ℕ → ℕ → ℕ → ℕ
set_field b first last v =
    b % 2 ^ 8 / 2 ^ (8 - first) * 2 ^ (8 - first)
    + v % 2 ^ (last + 1 - first) * 2 ^ (7 - last)
    + b % 2 ^ (7 - last)

abbrev pub bit_of : Bool → ℕ
bit_of b = if b then 1 else 0

pub record Msb0 : Type 0 where
  pub bit_range : List ℕ → ℕ → ℕ → Outcome ℕ
  pub set_bit_range : List ℕ → ℕ → ℕ → ℕ → Outcome (List ℕ)
  pub bit : List ℕ → ℕ → Outcome Bool
  pub set_bit : List ℕ → ℕ → Bool → Outcome (List ℕ)
  pub element : List ℕ → ℕ → ℕ → ℕ → ℕ → Outcome ℕ
  pub set_element : List ℕ → ℕ → ℕ → ℕ → ℕ → ℕ → Outcome (List ℕ)
  pub bit_range_lem :
      (xs : List ℕ) (byte first last : ℕ)
      → first ≤ last
      → last < 8
      → bit_range xs (8 * byte + last) (8 * byte + first)
        ≡ map_ok (λ b. field b first last) (index xs byte)
  pub set_bit_range_lem :
      (xs : List ℕ) (byte first last v : ℕ)
      → first ≤ last
      → last < 8
      → set_bit_range xs (8 * byte + last) (8 * byte + first) v
        ≡ (index xs byte >>= λ b. store xs byte (set_field b first last v))
  pub bit_lem :
      (xs : List ℕ) (byte place : ℕ)
      → place < 8
      → bit xs (8 * byte + place) ≡ map_ok (λ b. field b place place == 1) (index xs byte)
  pub set_bit_lem :
      (xs : List ℕ) (byte place : ℕ) (v : Bool)
      → place < 8
      → set_bit xs (8 * byte + place) v
        ≡ (index xs byte >>= λ b. store xs byte (set_field b place place (bit_of v)))
  -- The macro asserts that the index is below the declared count.
  pub element_lem :
      (xs : List ℕ) (msb lsb count i : ℕ)
      → lsb ≤ msb
      → element xs msb lsb count i ≡ (
          if ltb i count
          then bit_range xs (msb + i * (msb + 1 - lsb)) (lsb + i * (msb + 1 - lsb))
          else panic)
  pub set_element_lem :
      (xs : List ℕ) (msb lsb count i v : ℕ)
      → lsb ≤ msb
      → set_element xs msb lsb count i v ≡ (
          if ltb i count
          then set_bit_range xs (msb + i * (msb + 1 - lsb)) (lsb + i * (msb + 1 - lsb)) v
          else panic)
