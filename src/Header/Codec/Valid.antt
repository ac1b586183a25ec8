-- ===== src/Header/Codec/Valid.antt =====
-- The check of a buffer against what decoding finds in it.
use secure_frame_rs.Outcome.{ok-injective}
use secure_frame_rs.Prelude.{ℕ, ◌+◌, ◌/◌, ◌%◌, ◌^◌, ◌≤◌, ◌<◌, ◌≡◌, ◌∙◌, sym, ap, arith}
use secure_frame_rs.Prelude.{
  List, [], ◌∷◌, length, leb, ◌&&◌, Bool, true, false, if◌then◌else◌, All, some, none,
}
use secure_frame_rs.Outcome.{ok, panic}
use secure_frame_rs.Bitfield.{Msb0}
use secure_frame_rs.Header.Util.{IsByte}
use secure_frame_rs.Header.Structs.{Header}
use secure_frame_rs.Header.Basic.Read as BasicRead
use secure_frame_rs.Header.Extended.Read as ExtendedRead
use secure_frame_rs.Header.Codec.{is_valid, deserialize}
use secure_frame_rs.Header.Codec.Parse.{
  parse, deserialize-parse, has_extended_flag, counter_length, key_length, or_panic,
}

-- What the check looks at: at least two or three bytes, and the coded lengths, which are one less
-- than the lengths.
unfoldable pub looks_valid : List ℕ → Bool
looks_valid [] = false
looks_valid (b ∷ rest) =
    if has_extended_flag b
    then leb 2 (length rest) && leb (key_length b + counter_length b) (length rest + 2)
    else leb 1 (length rest) && leb (counter_length b) (length rest + 1)

-- The bytes that the header takes after its first byte.
abbrev pub needed : ℕ → ℕ
needed b = if has_extended_flag b then key_length b + counter_length b else counter_length b

parse_short : (b : ℕ) (rest : List ℕ) → length rest < needed b → parse (b ∷ rest) ≡ none
unfolding parse
parse_short b rest short = ground arith

looks_valid_short :
    (b : ℕ) (rest : List ℕ)
    → needed b ≡ length rest + 1
    → (if has_extended_flag b then 2 else 1) ≤ length rest
    → looks_valid (b ∷ rest) ≡ true
unfolding looks_valid
looks_valid_short b rest short long = ground arith

looks_valid-bound :
    (b : ℕ) (rest : List ℕ)
    → looks_valid (b ∷ rest) ≡ true
    → (1 ≤ length rest) × (needed b ≤ length rest + 2)
unfolding looks_valid
looks_valid-bound b rest valid = ground arith

parse-reserved : (b : ℕ) (rest : List ℕ) → b < 2 ^ 7 → parse ((2 ^ 7 + b) ∷ rest) ≡ parse (b ∷ rest)
unfolding parse
parse-reserved b rest small =
    let flag : (2 ^ 7 + b) / 8 % 2 ≡ b / 8 % 2 = omega arith in
    let ctr : (2 ^ 7 + b) / 16 % 8 ≡ b / 16 % 8 = omega arith in
    let key : (2 ^ 7 + b) % 8 ≡ b % 8 = omega arith in rw (flag, ctr, key)

looks_valid-reserved :
    (b : ℕ) (rest : List ℕ) → b < 2 ^ 7 → looks_valid ((2 ^ 7 + b) ∷ rest) ≡ looks_valid (b ∷ rest)
unfolding looks_valid
looks_valid-reserved b rest small =
    let flag : (2 ^ 7 + b) / 8 % 2 ≡ b / 8 % 2 = omega arith in
    let ctr : (2 ^ 7 + b) / 16 % 8 ≡ b / 16 % 8 = omega arith in
    let key : (2 ^ 7 + b) % 8 ≡ b % 8 = omega arith in rw (flag, ctr, key)

module _ (bits : Msb0) where
  -- The check never panics.
  pub is_valid_lem : (xs : List ℕ) → is_valid bits xs ≡ ok (looks_valid xs)
  unfolding is_valid looks_valid
  is_valid_lem [] =
      rw (BasicRead.is_valid_short bits [] (omega arith))
        (ExtendedRead.is_valid_short bits [] (omega arith))
  is_valid_lem (b ∷ []) =
      rw (BasicRead.is_valid_short bits (b ∷ []) (omega arith))
        (rw (ExtendedRead.is_valid_short bits (b ∷ []) (omega arith)) (ground arith))
  is_valid_lem (b ∷ c ∷ []) =
      rw (BasicRead.is_valid_lem bits b c [])
        (rw (ExtendedRead.is_valid_short bits (b ∷ c ∷ []) (omega arith)) (ground arith))
  is_valid_lem (b ∷ c ∷ d ∷ rest) =
      rw (BasicRead.is_valid_lem bits b c (d ∷ rest))
        (rw (ExtendedRead.is_valid_lem bits b c d rest) (ground arith))

  parse-looks_valid : (xs : List ℕ) (h : Header) → parse xs ≡ some h → looks_valid xs ≡ true
  unfolding parse looks_valid
  parse-looks_valid [] h parsed = cc
  parse-looks_valid (b ∷ rest) h parsed = ground arith

  -- A buffer that decodes to a header is accepted by the check.
  pub is_valid-parse : (xs : List ℕ) (h : Header) → parse xs ≡ some h → is_valid bits xs ≡ ok true
  is_valid-parse xs h parsed = is_valid_lem xs ∙ ap ok (parse-looks_valid xs h parsed)

  -- An accepted buffer has a byte behind its first one, and lacks at most two of the bytes that its
  -- header takes.
  pub is_valid-bound :
      (b : ℕ) (rest : List ℕ)
      → is_valid bits (b ∷ rest) ≡ ok true
      → (1 ≤ length rest) × (needed b ≤ length rest + 2)
  is_valid-bound b rest valid =
      looks_valid-bound b rest (ok-injective (sym (is_valid_lem (b ∷ rest)) ∙ valid))

  -- The check accepts a buffer that lacks the last byte of its header, which decoding then panics on:
  -- an extended header of four bytes or more, a basic one of three or more.
  pub is_valid-one_short :
      (b : ℕ) (rest : List ℕ)
      → All IsByte (b ∷ rest)
      → needed b ≡ length rest + 1
      → (if has_extended_flag b then 2 else 1) ≤ length rest
      → (is_valid bits (b ∷ rest) ≡ ok true) × (deserialize bits (b ∷ rest) ≡ panic)
  is_valid-one_short b rest bytes short long = (
    is_valid_lem (b ∷ rest) ∙ ap ok (looks_valid_short b rest short long),
    deserialize-parse bits (b ∷ rest) bytes
        ∙ ap or_panic (parse_short b rest (omega (arith, short))),
  )

-- The reserved bit, the first of the header, makes no difference to decoding or to the check.
pub deserialize-reserved :
    (bits : Msb0) (b : ℕ) (rest : List ℕ)
    → b < 2 ^ 7
    → All IsByte rest
    → (deserialize bits ((2 ^ 7 + b) ∷ rest) ≡ deserialize bits (b ∷ rest))
      × (is_valid bits ((2 ^ 7 + b) ∷ rest) ≡ is_valid bits (b ∷ rest))
deserialize-reserved bits b rest small bytes = (
  deserialize-parse bits ((2 ^ 7 + b) ∷ rest) (omega arith, bytes)
      ∙ ap or_panic (parse-reserved b rest small)
      ∙ sym (deserialize-parse bits (b ∷ rest) (omega arith, bytes)),
  is_valid_lem bits ((2 ^ 7 + b) ∷ rest)
      ∙ ap ok (looks_valid-reserved b rest small)
      ∙ sym (is_valid_lem bits (b ∷ rest)),
)
