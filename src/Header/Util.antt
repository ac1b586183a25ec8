-- ===== src/Header/Util.antt =====
-- src/header/util.rs: big-endian bytes without leading zeros.
-- `to_be_bytes`, `from_be_bytes`, `skip` and `take_while` are Rust's; `to_be_bytes 8` is that of u64.
pub mod Bytes
pub mod Minimal
pub mod Padding
use secure_frame_rs.Prelude.{ℕ, zero, suc, ◌+◌, ◌-◌, ◌*◌, ◌/◌, ◌%◌, ◌<◌, List, [], ◌∷◌, ◌++◌}
use secure_frame_rs.Prelude.{◌==◌, if◌then◌else◌, drop, length}

abbrev pub IsByte : ℕ → Type 0
IsByte b = b < 256

unfoldable pub to_be_bytes : ℕ → ℕ → List ℕ
to_be_bytes zero x = []
to_be_bytes (suc n) x = to_be_bytes n (x / 256) ++ (x % 256) ∷ []

pub from_be : ℕ → List ℕ → ℕ
from_be acc [] = acc
from_be acc (b ∷ bs) = from_be (acc * 256 + b) bs

unfoldable pub from_be_bytes : List ℕ → ℕ
unfolding from_be
from_be_bytes bs = from_be 0 bs

-- `iter().take_while(|v| v == 0).count()`
unfoldable pub leading_zeros : List ℕ → ℕ
leading_zeros [] = 0
leading_zeros (b ∷ bs) = if b == 0 then suc (leading_zeros bs) else 0

-- The count is at most 8, so neither its cast to u8 nor the subtraction from 8 loses anything.
unfoldable pub min_len_in_bytes : ℕ → ℕ
unfolding to_be_bytes leading_zeros
min_len_in_bytes value = if value == 0 then 1 else 8 - leading_zeros (to_be_bytes 8 value)

unfoldable pub as_min_be_bytes : ℕ → List ℕ
unfolding to_be_bytes min_len_in_bytes
as_min_be_bytes x =
    let be_bytes = to_be_bytes 8 x in drop (length be_bytes - min_len_in_bytes x) be_bytes
