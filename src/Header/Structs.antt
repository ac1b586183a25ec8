-- ===== src/Header/Structs.antt =====
-- src/header/mod.rs: the structs of both headers, their constants, and the sum of both.
use secure_frame_rs.Prelude.{ℕ, ◌^◌, ◌<◌}
use secure_frame_rs.Header.FrameCount.{FrameCount, IsCount}

pub record BasicHeader : Type 0 where
  pub key_id : ℕ
  pub frame_count : FrameCount

pub record ExtendedHeader : Type 0 where
  pub key_id : ℕ
  pub frame_count : FrameCount

pub data Header : Type 0 where
  basic : BasicHeader → Header
  extended : ExtendedHeader → Header

-- `BasicHeader::new` and `ExtendedHeader::new`
abbrev pub new_basic : ℕ → FrameCount → BasicHeader
new_basic key_id frame_count = record { key_id = key_id; frame_count = frame_count }

abbrev pub new_extended : ℕ → FrameCount → ExtendedHeader
new_extended key_id frame_count = record { key_id = key_id; frame_count = frame_count }

abbrev pub static_header_length_byte : ℕ
static_header_length_byte = 1

-- `LEN_OFFSET` of the default build, and with the feature `verify-test-vectors`.
abbrev pub len_offset : ℕ
len_offset = 1

abbrev pub len_offset_of_vectors : ℕ
len_offset_of_vectors = 0

-- What the types of the fields allow: a u8 and a u64 key id, a u64 count.
abbrev pub IsHeader : Header → Type 0
IsHeader (basic h) = (h.key_id < 2 ^ 8) × IsCount h.frame_count
IsHeader (extended h) = (h.key_id < 2 ^ 64) × IsCount h.frame_count
