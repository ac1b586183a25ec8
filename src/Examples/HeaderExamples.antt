-- ===== src/Examples/HeaderExamples.antt =====
-- The headers of the tests in src/header.
use secure_frame_rs.Prelude.{
  ℕ, ◌+◌, ◌-◌, ◌^◌, ◌≤◌, ◌<◌, ◌⊎◌, ◌≡◌, ◌↔◌, ◌∙◌, ap, refl, arith, List, [], ◌∷◌, length, All, true,
  some,
}
use secure_frame_rs.Outcome.{ok, err, panic, other, buffer_too_small}
use secure_frame_rs.Header.Util.{
  IsByte, from_be_bytes, min_len_in_bytes, to_be_bytes, leading_zeros,
}
use secure_frame_rs.Header.FrameCount.{from_u64, length_in_bytes, max_frame_count}
use secure_frame_rs.Header.FrameCount.Wheel.{advance}
use secure_frame_rs.Header.FrameCount.Runs.{take_counts, consecutive, take_counts_lem}
use secure_frame_rs.Header.Structs.{Header, basic, extended, IsHeader}
use secure_frame_rs.Header.Basic
use secure_frame_rs.Header.Codec.{deserialize_with, serialize, deserialize, is_valid, size}
use secure_frame_rs.Header.Codec.Parse.{parse, deserialize-parse, or_panic}
use secure_frame_rs.Header.Codec.Valid.{is_valid-one_short, deserialize-reserved, needed}
use secure_frame_rs.Header.Codec.Padded.{HasMinimalFields, size-deserialize}
use secure_frame_rs.Header.Codec.Written.{masked}
use secure_frame_rs.Header.Traits.Implementors.{serialize-cases}
use secure_frame_rs.Examples.Bits.{example_bits}

-- `[0b0001_0110, 0b0000_0010, 0b1001_1010]`: key id 6, count 666.
abbrev basic_bytes : List ℕ
basic_bytes = 22 ∷ 2 ∷ 154 ∷ []

abbrev basic_header : Header
basic_header = basic (record { key_id = 6; frame_count = from_u64 666 })

-- `[0b0000_1000, 0b0000_0010, 0b1001_1010]`: key id 2, count 154.
abbrev extended_bytes : List ℕ
extended_bytes = 8 ∷ 2 ∷ 154 ∷ []

abbrev extended_header : Header
extended_header = extended (record { key_id = 2; frame_count = from_u64 154 })

extended_bytes-IsByte : All IsByte extended_bytes
extended_bytes-IsByte = (omega arith, (omega arith, (omega arith, tt)))

parse_extended : parse extended_bytes ≡ some extended_header
unfolding parse from_be_bytes
parse_extended = refl

basic_header-IsHeader : IsHeader basic_header
basic_header-IsHeader = (omega arith, omega arith)

size_basic : size basic_header ≡ 3
unfolding size Basic.size length_in_bytes min_len_in_bytes to_be_bytes leading_zeros
size_basic = refl

size_fits : size basic_header ≤ 4
size_fits = omega (arith, size_basic)

deserialize_extended : deserialize example_bits extended_bytes ≡ ok extended_header
unfolding deserialize_with
deserialize_extended =
    deserialize-parse example_bits extended_bytes extended_bytes-IsByte ∙ ap or_panic parse_extended

deserialize-parse_example :
    deserialize example_bits extended_bytes ≡ or_panic (parse extended_bytes)
deserialize-parse_example = deserialize-parse example_bits extended_bytes extended_bytes-IsByte

-- A basic header with a count of two bytes, and an extended one with two for its key id, without
-- their last bytes.
is_valid-one_short_example :
    (is_valid example_bits (16 ∷ 1 ∷ []) ≡ ok true)
    × (deserialize example_bits (16 ∷ 1 ∷ []) ≡ panic)
is_valid-one_short_example =
    is_valid-one_short example_bits 16 (1 ∷ []) (omega arith, (omega arith, tt)) refl (omega arith)

deserialize-reserved_example :
    (deserialize example_bits ((2 ^ 7 + 8) ∷ 2 ∷ 154 ∷ [])
      ≡ deserialize example_bits extended_bytes)
    × (is_valid example_bits ((2 ^ 7 + 8) ∷ 2 ∷ 154 ∷ []) ≡ is_valid example_bits extended_bytes)
deserialize-reserved_example =
    deserialize-reserved example_bits 8 (2 ∷ 154 ∷ []) (omega arith)
      (omega arith, (omega arith, tt))

-- Three counts from the last place of the wheel, from which the generator starts again at 0.
take_counts_example :
    take_counts 3 (record { current_frame_count = max_frame_count - 1 })
    ≡ ok (
      consecutive (max_frame_count - 1) 0 3,
      advance 3 (record { current_frame_count = max_frame_count - 1 }),
    )
take_counts_example =
    take_counts_lem 3 (record { current_frame_count = max_frame_count - 1 }) (omega arith)

-- The count 200 with a zero byte in front.
abbrev padded_header : Header
padded_header = extended (record { key_id = 40; frame_count = from_u64 200 })

parse_padded : parse (24 ∷ 40 ∷ 0 ∷ 200 ∷ []) ≡ some padded_header
unfolding parse from_be_bytes
parse_padded = refl

padded-IsByte : All IsByte (24 ∷ 40 ∷ 0 ∷ 200 ∷ [])
padded-IsByte = (omega arith, (omega arith, (omega arith, (omega arith, tt))))

size-deserialize_example :
    (size padded_header ≤ needed 24 + 1)
    × ((size padded_header ≡ needed 24 + 1) ↔ HasMinimalFields 24 (40 ∷ 0 ∷ 200 ∷ []))
size-deserialize_example =
    size-deserialize example_bits 24 (40 ∷ 0 ∷ 200 ∷ []) padded_header padded-IsByte (
      deserialize-parse example_bits (24 ∷ 40 ∷ 0 ∷ 200 ∷ []) padded-IsByte
      ∙ ap or_panic parse_padded)

serialize-cases_example :
    ((4 < size basic_header)
      × (serialize example_bits basic_header (0 ∷ 0 ∷ 0 ∷ 9 ∷ [])
          ≡ err (other (buffer_too_small 4 (size basic_header)))))
    ⊎ ((size basic_header ≤ 4)
        × (out : List ℕ) × (serialize example_bits basic_header (0 ∷ 0 ∷ 0 ∷ 9 ∷ []) ≡ ok out)
        × (length out ≡ 4)
        × (is_valid example_bits out ≡ ok true)
        × (deserialize example_bits out ≡ ok (masked basic_header)))
serialize-cases_example =
    serialize-cases example_bits basic_header (0 ∷ 0 ∷ 0 ∷ 9 ∷ []) basic_header-IsHeader
      (omega arith, (omega arith, (omega arith, (omega arith, tt))))
