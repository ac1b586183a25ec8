-- ===== src/Header/Extended.antt =====
-- src/header/extended_header.rs: the header with a key id of one to eight bytes.
-- The accessors are what the `bitfield!` declaration names; the rest is the code's.
pub mod Write
pub mod Remainder
pub mod Read
mod Fill
use secure_frame_rs.Prelude.{
  ℕ, zero, suc, ◌+◌, ◌-◌, List, [], ◌∷◌, ◌++◌, Bool, true, false, ltb, leb, ◌&&◌,
}
use secure_frame_rs.Prelude.{if◌then◌else◌, length, drop, replicate}
use secure_frame_rs.Outcome.{
  Outcome, ok, err, ◌>>=◌, sub_checked, add_checked, store, other, buffer_too_small,
}
use secure_frame_rs.Bitfield.{Msb0}
use secure_frame_rs.Header.Util.{from_be_bytes, min_len_in_bytes, as_min_be_bytes}
use secure_frame_rs.Header.FrameCount.{to_u64, from_u64, length_in_bytes}
use secure_frame_rs.Header.Structs.{ExtendedHeader, static_header_length_byte, len_offset}
use secure_frame_rs.Header.Loops.{for_enumerate}

unfoldable pub size : ExtendedHeader → ℕ
size h = static_header_length_byte + min_len_in_bytes h.key_id + length_in_bytes h.frame_count

abbrev pub min_length_in_bytes : ℕ
min_length_in_bytes = 3

-- `array[8 - (i + 1)] = v`
abbrev pub set_from_end : List ℕ → ℕ → ℕ → Outcome (List ℕ)
set_from_end array i v = sub_checked 8 (i + 1) >>= λ at. store array at v

module _ (bits : Msb0) where
  open bits use {bit_range, set_bit_range, bit, set_bit, element, set_element}

  abbrev pub get_frame_count_len : List ℕ → Outcome ℕ
  get_frame_count_len xs = bit_range xs 3 1

  abbrev pub set_frame_count_len : List ℕ → ℕ → Outcome (List ℕ)
  set_frame_count_len xs v = set_bit_range xs 3 1 v

  abbrev pub extend_key_id_flag : List ℕ → Outcome Bool
  extend_key_id_flag xs = bit xs 4

  abbrev pub set_extended_key_flag : List ℕ → Bool → Outcome (List ℕ)
  set_extended_key_flag xs v = set_bit xs 4 v

  abbrev pub key_id_len : List ℕ → Outcome ℕ
  key_id_len xs = bit_range xs 7 5

  abbrev pub set_key_len : List ℕ → ℕ → Outcome (List ℕ)
  set_key_len xs v = set_bit_range xs 7 5 v

  abbrev pub key_id_and_ctr : List ℕ → ℕ → Outcome ℕ
  key_id_and_ctr xs i = element xs 15 8 16 i

  abbrev pub set_key_id_and_ctr : List ℕ → ℕ → ℕ → Outcome (List ℕ)
  set_key_id_and_ctr xs i v = set_element xs 15 8 16 i v

  -- Gives the buffer that was written to; an error leaves the buffer as it was. The first argument is
  -- the constant `LEN_OFFSET` of the build.
  unfoldable pub serialize_with : ℕ → ExtendedHeader → List ℕ → Outcome (List ℕ)
  serialize_with offset h buffer =
      if ltb (length buffer) (size h)
      then err (other (buffer_too_small (length buffer) (size h)))
      else do
        coded_len ← sub_checked (length_in_bytes h.frame_count) offset
        sized ← set_frame_count_len buffer coded_len
        flagged ← set_extended_key_flag sized true
        coded_key_len ← sub_checked (min_len_in_bytes h.key_id) offset
        keyed ← set_key_len flagged coded_key_len
        for_enumerate set_key_id_and_ctr 0 keyed
            (as_min_be_bytes h.key_id ++ as_min_be_bytes (to_u64 h.frame_count))

  -- The next `n` values of the iterator `remainder()`, which walks back from the last byte; `i` is
  -- its counter.
  unfoldable pub remainder : List ℕ → ℕ → ℕ → ℕ → Outcome (List ℕ)
  remainder xs remainder_len zero i = ok []
  remainder xs remainder_len (suc n) i = do
    at ← sub_checked remainder_len (i + 1)
    v ← key_id_and_ctr xs at
    vs ← remainder xs remainder_len n (i + 1)
    ok (v ∷ vs)

  -- `skip` takes and drops the values before those of the key id.
  unfoldable pub deserialize_with : ℕ → List ℕ → Outcome ExtendedHeader
  deserialize_with offset xs = do
    coded_key_len ← key_id_len xs
    key_len ← add_checked 8 coded_key_len offset
    coded_len ← get_frame_count_len xs
    ctr_len ← add_checked 8 coded_len offset
    let remainder_len = key_len + ctr_len
    ctr_values ← remainder xs remainder_len ctr_len 0
    ctr ← for_enumerate set_from_end 0 (replicate 8 0) ctr_values
    values ← remainder xs remainder_len (ctr_len + key_len) 0
    kid ← for_enumerate set_from_end 0 (replicate 8 0) (drop ctr_len values)
    ok (record { key_id = from_be_bytes kid; frame_count = from_u64 (from_be_bytes ctr) })

  -- The default build.
  abbrev pub serialize : ExtendedHeader → List ℕ → Outcome (List ℕ)
  serialize = serialize_with len_offset

  abbrev pub deserialize : List ℕ → Outcome ExtendedHeader
  deserialize = deserialize_with len_offset

  unfoldable pub is_valid : List ℕ → Outcome Bool
  is_valid xs = if ltb (length xs) min_length_in_bytes then ok false else do
    flag ← extend_key_id_flag xs
    coded_len ← get_frame_count_len xs
    coded_key_len ← key_id_len xs
    ok (flag && leb (static_header_length_byte + coded_len + coded_key_len) (length xs))
