-- ===== src/Header/Codec/Parse.antt =====
-- Decoding against an independent description of the format.
use secure_frame_rs.Prelude.{ℕ, ◌+◌, ◌/◌, ◌%◌, ◌<◌, ◌≡◌, refl, arith}
use secure_frame_rs.Prelude.{
  List, [], ◌∷◌, length, take, drop, le→leb, lt→leb, lt-or-le, leb, ◌==◌, Bool, true, false, inl,
  inr, Bool-cases, if◌then◌else◌, All, Option, some, none,
}
use secure_frame_rs.Outcome.{Outcome, ok, panic, map_ok}
use secure_frame_rs.Bitfield.{Msb0}
use secure_frame_rs.Header.Util.{IsByte, from_be_bytes}
use secure_frame_rs.Header.FrameCount.{from_u64}
use secure_frame_rs.Header.Structs.{Header, basic, extended}
use secure_frame_rs.Header.Basic
use secure_frame_rs.Header.Extended
use secure_frame_rs.Header.Basic.Read as BasicRead
use secure_frame_rs.Header.Extended.Read as ExtendedRead
use secure_frame_rs.Header.Codec.{deserialize_with, deserialize}

-- The fields of the first byte, |R|LEN|X|K|: the lengths are coded as one less.
abbrev pub has_extended_flag : ℕ → Bool
has_extended_flag b = b / 8 % 2 == 1

abbrev pub counter_length : ℕ → ℕ
counter_length b = b / 16 % 8 + 1

abbrev pub key_length : ℕ → ℕ
key_length b = b % 8 + 1

-- What the format says of a buffer; `none` if the buffer ends before the header does.
unfoldable pub parse : List ℕ → Option Header
parse [] = none
parse (b ∷ rest) =
    if has_extended_flag b
    then (if leb (key_length b + counter_length b) (length rest)
        then some (
            extended (record {
              key_id = from_be_bytes (take (key_length b) rest);
              frame_count =
                  from_u64 (from_be_bytes (take (counter_length b) (drop (key_length b) rest)));
            }))
        else none)
    else (if leb (counter_length b) (length rest)
        then some (
            basic (record {
              key_id = b % 8;
              frame_count = from_u64 (from_be_bytes (take (counter_length b) rest));
            }))
        else none)

-- A buffer that ends too early is an index out of range.
abbrev pub or_panic {ℓ} : {A : Type ℓ} → Option A → Outcome A
or_panic (some a) = ok a
or_panic none = panic

module _ (bits : Msb0) where
  as_extended :
      (b : ℕ) (rest : List ℕ)
      → All IsByte rest
      → has_extended_flag b ≡ true
      → map_ok extended (Extended.deserialize bits (b ∷ rest)) ≡ or_panic (parse (b ∷ rest))
  unfolding parse
  as_extended b rest bytes flag = elim (lt-or-le (length rest) (key_length b + counter_length b)) [
    | inl short ↦
        rw (ExtendedRead.deserialize_too_short bits b rest short)
          (rw (flag, lt→leb (key_length b + counter_length b) (length rest) short))
    | inr fits ↦
        rw (ExtendedRead.deserialize_lem bits b rest bytes fits)
          (rw (flag, le→leb (key_length b + counter_length b) (length rest) fits))
  ]

  basic_valid_short : (b : ℕ) → Basic.is_valid bits (b ∷ []) ≡ ok false
  basic_valid_short b = BasicRead.is_valid_short bits (b ∷ []) (omega arith)

  -- A buffer whose flag is clear and that the check refuses is too short for either header.
  refused :
      (b : ℕ) (rest : List ℕ)
      → has_extended_flag b ≡ false
      → length rest < counter_length b
      → map_ok extended (Extended.deserialize bits (b ∷ rest)) ≡ or_panic (parse (b ∷ rest))
  unfolding parse
  refused b rest flag short =
      rw (ExtendedRead.deserialize_too_short bits b rest (omega arith))
        (rw (flag, lt→leb (counter_length b) (length rest) short))

  as_basic :
      (b : ℕ) (rest : List ℕ)
      → All IsByte rest
      → has_extended_flag b ≡ false
      → map_ok basic (Basic.deserialize bits (b ∷ rest)) ≡ or_panic (parse (b ∷ rest))
  unfolding parse
  as_basic b rest bytes flag = elim (lt-or-le (length rest) (counter_length b)) [
    | inl short ↦
        rw (BasicRead.deserialize_too_short bits b rest short)
          (rw (flag, lt→leb (counter_length b) (length rest) short))
    | inr fits ↦
        rw (BasicRead.deserialize_lem bits b rest bytes fits)
          (rw (flag, le→leb (counter_length b) (length rest) fits))
  ]

  -- For every buffer of bytes, `Header::deserialize` returns the header that the format's description
  -- finds in it, and panics exactly when the buffer ends before that header does: it never returns
  -- an error.
  pub deserialize-parse : (xs : List ℕ) → All IsByte xs → deserialize bits xs ≡ or_panic (parse xs)
  unfolding deserialize_with
  deserialize-parse [] bytes =
      rw (BasicRead.is_valid_short bits [] (omega arith))
        (rw (ExtendedRead.deserialize-nil bits) (unfold parse in refl))
  deserialize-parse (b ∷ []) bytes = elim (Bool-cases (has_extended_flag b)) [
    | inl flag ↦ rw (basic_valid_short b) (as_extended b [] tt flag)
    | inr flag ↦ rw (basic_valid_short b) (refused b [] flag (omega arith))
  ]
  deserialize-parse (b ∷ c ∷ rest) bytes = elim (Bool-cases (has_extended_flag b)) [
    | inl flag ↦
        rw (BasicRead.is_valid_lem bits b c rest) (rw flag (as_extended b (c ∷ rest) bytes.1 flag))
    | inr flag ↦ elim (lt-or-le (length (b ∷ c ∷ rest)) (counter_length b)) [
      | inl short ↦ rw (BasicRead.is_valid_lem bits b c rest) (
          rw (flag, lt→leb (1 + b / 16 % 8) (length (b ∷ c ∷ rest)) (omega arith))
            (refused b (c ∷ rest) flag (omega arith)))
      | inr fits ↦ rw (BasicRead.is_valid_lem bits b c rest) (
          rw (flag, le→leb (1 + b / 16 % 8) (length (b ∷ c ∷ rest)) (omega arith))
            (as_basic b (c ∷ rest) bytes.1 flag))
    ]
  ]
