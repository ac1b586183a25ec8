-- ===== src/Header/Basic.antt =====
-- src/header/basic_header.rs: the header with a key id of three bits.
-- The accessors are what the `bitfield!` declaration names; the rest is the code's.
pub mod Write
pub mod Read
use secure_frame_rs.Prelude.{
  ℕ, zero, suc, ◌+◌, ◌-◌, List, [], ◌∷◌, Bool, true, false, ltb, leb, not, ◌&&◌,
}
use secure_frame_rs.Prelude.{if◌then◌else◌, length, take, replicate}
use secure_frame_rs.Outcome.{
  Outcome, ok, err, ◌>>=◌, sub_checked, add_checked, store, other, buffer_too_small,
}
use secure_frame_rs.Bitfield.{Msb0}
use secure_frame_rs.Header.Util.{from_be_bytes}
use secure_frame_rs.Header.FrameCount.{from_u64, length_in_bytes, as_be_bytes}
use secure_frame_rs.Header.Structs.{BasicHeader, static_header_length_byte, len_offset}
use secure_frame_rs.Header.Loops.{for_enumerate}

unfoldable pub size : BasicHeader → ℕ
size h = static_header_length_byte + length_in_bytes h.frame_count

abbrev pub min_length_in_bytes : ℕ
min_length_in_bytes = 2

module _ (bits : Msb0) where
  open bits use {bit_range, set_bit_range, bit, set_bit, element, set_element}

  abbrev pub get_frame_count_length : List ℕ → Outcome ℕ
  get_frame_count_length xs = bit_range xs 3 1

  abbrev pub set_frame_count_length : List ℕ → ℕ → Outcome (List ℕ)
  set_frame_count_length xs v = set_bit_range xs 3 1 v

  abbrev pub get_extend_key_id_flag : List ℕ → Outcome Bool
  get_extend_key_id_flag xs = bit xs 4

  abbrev pub set_extended_key_flag : List ℕ → Bool → Outcome (List ℕ)
  set_extended_key_flag xs v = set_bit xs 4 v

  abbrev pub get_key_id : List ℕ → Outcome ℕ
  get_key_id xs = bit_range xs 7 5

  abbrev pub set_key_id : List ℕ → ℕ → Outcome (List ℕ)
  set_key_id xs v = set_bit_range xs 7 5 v

  abbrev pub frame_count : List ℕ → ℕ → Outcome ℕ
  frame_count xs i = element xs 15 8 8 i

  abbrev pub set_frame_count : List ℕ → ℕ → ℕ → Outcome (List ℕ)
  set_frame_count xs i v = set_element xs 15 8 8 i v

  -- Gives the buffer that was written to; an error leaves the buffer as it was. The first argument is
  -- the constant `LEN_OFFSET` of the build.
  unfoldable pub serialize_with : ℕ → BasicHeader → List ℕ → Outcome (List ℕ)
  serialize_with build_offset h buffer =
      if ltb (length buffer) (size h)
      then err (other (buffer_too_small (length buffer) (size h)))
      else do
        flagged ← set_extended_key_flag buffer false
        keyed ← set_key_id flagged h.key_id
        let frame_count_length = length_in_bytes h.frame_count
        coded ← sub_checked frame_count_length build_offset
        sized ← set_frame_count_length keyed coded
        for_enumerate set_frame_count 0 sized (take frame_count_length (as_be_bytes h.frame_count))

  -- `for index in 0..frame_count_length { numeric_value[offset + index] = .. }`, by the rounds left.
  unfoldable pub read_frame_count : List ℕ → ℕ → ℕ → ℕ → List ℕ → Outcome (List ℕ)
  read_frame_count xs offset zero i numeric_value = ok numeric_value
  read_frame_count xs offset (suc rounds) i numeric_value = do
    v ← frame_count xs i
    written ← store numeric_value (offset + i) v
    read_frame_count xs offset rounds (i + 1) written

  unfoldable pub deserialize_with : ℕ → List ℕ → Outcome BasicHeader
  deserialize_with build_offset xs = do
    key_id ← get_key_id xs
    coded ← get_frame_count_length xs
    frame_count_length ← add_checked 8 coded build_offset
    let numeric_value : List ℕ = replicate 8 0
    offset ← sub_checked (length numeric_value) frame_count_length
    filled ← read_frame_count xs offset frame_count_length 0 numeric_value
    ok (record { key_id = key_id; frame_count = from_u64 (from_be_bytes filled) })

  -- The default build.
  abbrev pub serialize : BasicHeader → List ℕ → Outcome (List ℕ)
  serialize = serialize_with len_offset

  abbrev pub deserialize : List ℕ → Outcome BasicHeader
  deserialize = deserialize_with len_offset

  unfoldable pub is_valid : List ℕ → Outcome Bool
  is_valid xs = if ltb (length xs) min_length_in_bytes then ok false else do
    flag ← get_extend_key_id_flag xs
    coded ← get_frame_count_length xs
    ok (not flag && leb (static_header_length_byte + coded) (length xs))
