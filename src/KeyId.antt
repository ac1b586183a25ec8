-- ===== src/KeyId.antt =====
-- src/header/keyid.rs: the key id of a frame, and the bound of header/mod.rs that tells its forms apart.
-- A u8 or u64 is a natural number; `as u8` keeps the low eight bits.
use secure_frame_rs.Prelude.{ℕ, ◌-◌, ◌%◌, ◌^◌, ◌<◌, ◌≡◌, arith, leb, if◌then◌else◌}
use native.Mathlib.Decide.{ℕ_discrete}

abbrev pub basic_max_key_id_len_bit : ℕ
basic_max_key_id_len_bit = 3

abbrev pub basic_max_key_id : ℕ
basic_max_key_id = 2 ^ basic_max_key_id_len_bit - 1

pub data KeyId : Type 0 where
  basic : ℕ → KeyId
  extended : ℕ → KeyId

-- What the machine types allow: a u8 or a u64.
abbrev pub InRange : KeyId → Type 0
InRange (basic k) = k < 2 ^ 8
InRange (extended k) = k < 2 ^ 64

-- A basic key id that fits the three bits of its header.
abbrev pub FitsHeader : KeyId → Type 0
FitsHeader (basic k) = k < 2 ^ 3
FitsHeader (extended k) = k < 2 ^ 64

abbrev pub default : KeyId
default = basic 0

abbrev pub from_u8 : ℕ → KeyId
from_u8 value = basic value

unfoldable pub from_u64 : ℕ → KeyId
from_u64 id = if leb id basic_max_key_id then basic (id % 2 ^ 8) else extended id

unfoldable pub to_u64 : KeyId → ℕ
to_u64 (basic key_id) = key_id
to_u64 (extended key_id) = key_id

pub KeyId-discrete : (a b : KeyId) → Dec (a ≡ b)
KeyId-discrete = hlevel ℕ_discrete

-- Every u64 becomes a key id that fits its header and turns back into the same u64.
pub from_u64_roundtrip :
    (id : ℕ) → id < 2 ^ 64 → FitsHeader (from_u64 id) × (to_u64 (from_u64 id) ≡ id)
unfolding from_u64 to_u64
from_u64_roundtrip id h = ground arith
