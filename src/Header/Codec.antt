-- ===== src/Header/Codec.antt =====
-- src/header/mod.rs: the sum of both headers, and its encoding and decoding.
pub mod Fields
pub mod Parse
pub mod Written
pub mod RoundTrip
pub mod Valid
pub mod Builds
pub mod Bounds
pub mod Padded
use secure_frame_rs.Prelude.{ℕ, List, Bool, true, false, if◌then◌else◌, replicate}
use secure_frame_rs.KeyId
use secure_frame_rs.KeyId.{KeyId}
use secure_frame_rs.Outcome.{Outcome, ok, err, panic, ◌>>=◌, map_ok}
use secure_frame_rs.Bitfield.{Msb0}
use secure_frame_rs.Header.FrameCount
use secure_frame_rs.Header.FrameCount.{FrameCount}
use secure_frame_rs.Header.Structs.{len_offset, Header, basic, extended, new_basic, new_extended}
use secure_frame_rs.Header.Basic
use secure_frame_rs.Header.Extended

unfoldable pub with_frame_count : KeyId → FrameCount → Header
with_frame_count (KeyId.basic k) c = basic (new_basic k c)
with_frame_count (KeyId.extended k) c = extended (new_extended k c)

unfoldable pub new : KeyId → Header
unfolding with_frame_count
new k = with_frame_count k FrameCount.default

unfoldable pub default : Header
unfolding with_frame_count
default = with_frame_count KeyId.default FrameCount.default

unfoldable pub is_extended : Header → Bool
is_extended (basic h) = false
is_extended (extended h) = true

unfoldable pub frame_count : Header → FrameCount
frame_count (basic h) = h.frame_count
frame_count (extended h) = h.frame_count

unfoldable pub key_id : Header → KeyId
key_id (basic h) = KeyId.basic h.key_id
key_id (extended h) = KeyId.extended h.key_id

unfoldable pub size : Header → ℕ
size (basic h) = Basic.size h
size (extended h) = Extended.size h

-- `Result::unwrap`
abbrev pub unwrap {ℓ} : {A : Type ℓ} → Outcome A → Outcome A
unwrap (ok a) = ok a
unwrap (err e) = panic
unwrap panic = panic

module _ (bits : Msb0) where
  -- The first argument is the constant `LEN_OFFSET` of the build.
  unfoldable pub deserialize_with : ℕ → List ℕ → Outcome Header
  deserialize_with offset xs = do
    valid ← Basic.is_valid bits xs
    if valid
        then map_ok basic (Basic.deserialize_with bits offset xs)
        else map_ok extended (Extended.deserialize_with bits offset xs)

  abbrev pub deserialize : List ℕ → Outcome Header
  deserialize = deserialize_with len_offset

  -- `Header::try_from`
  unfoldable pub try_from : List ℕ → Outcome Header
  try_from value = deserialize value

  unfoldable pub is_valid : List ℕ → Outcome Bool
  is_valid xs = do
    valid ← Basic.is_valid bits xs
    if valid then ok true else Extended.is_valid bits xs

  unfoldable pub serialize_with : ℕ → Header → List ℕ → Outcome (List ℕ)
  serialize_with offset (basic h) buffer = Basic.serialize_with bits offset h buffer
  serialize_with offset (extended h) buffer = Extended.serialize_with bits offset h buffer

  abbrev pub serialize : Header → List ℕ → Outcome (List ℕ)
  serialize = serialize_with len_offset

  -- `Vec::from(&header)`
  unfoldable pub to_vec_with : ℕ → Header → Outcome (List ℕ)
  to_vec_with offset h = unwrap (serialize_with offset h (replicate (size h) 0))

  abbrev pub to_vec : Header → Outcome (List ℕ)
  to_vec = to_vec_with len_offset
