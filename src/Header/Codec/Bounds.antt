-- ===== src/Header/Codec/Bounds.antt =====
-- What holds of every header that decoding finds.
use secure_frame_rs.Prelude.{
  ℕ, ◌+◌, ◌%◌, ◌^◌, ◌≤◌, ◌<◌, ◌≡◌, ◌∙◌, sym, arith, inl, inr, Bool-cases, true, false,
}
use secure_frame_rs.Prelude.{
  List, [], ◌∷◌, length, take, drop, if◌then◌else◌, All, All-take, All-drop, Option, some, none,
  length-take, length-drop,
}
use mathlib.Core.Path.{subst}
use secure_frame_rs.Outcome.{ok}
use secure_frame_rs.Bitfield.{Msb0}
use secure_frame_rs.Header.Util.{IsByte, from_be_bytes, min_len_in_bytes}
use secure_frame_rs.Header.Util.Minimal.{from_be_bytes-lt, min_len_in_bytes-least}
use secure_frame_rs.Header.FrameCount.{from_u64, length_in_bytes}
use secure_frame_rs.Header.Structs.{Header, basic, extended, IsHeader}
use secure_frame_rs.Header.Basic
use secure_frame_rs.Header.Extended
use secure_frame_rs.Header.Codec.{size, deserialize}
use secure_frame_rs.Header.Codec.Parse.{
  parse, deserialize-parse, or_panic, has_extended_flag, counter_length, key_length,
}
use secure_frame_rs.Header.Codec.Valid.{needed}

abbrev pub Fits : List ℕ → Header → Type 0
Fits xs h = IsHeader h × (size h ≤ length xs)

-- The bytes of a number, and what they come to.
field_bounds :
    (n : ℕ) (xs : List ℕ)
    → All IsByte xs
    → 1 ≤ n
    → n ≤ 8
    → n ≤ length xs
    → (from_be_bytes (take n xs) < 2 ^ 64) × (min_len_in_bytes (from_be_bytes (take n xs)) ≤ n)
field_bounds n xs bytes pos small fits =
    let len : length (take n xs) ≡ n = omega (arith, length-take n xs) in
    let taken : All IsByte (take n xs) = All-take IsByte n xs bytes in
    (
      from_be_bytes-lt (take n xs) taken (omega (arith, len)),
      omega (arith, min_len_in_bytes-least (take n xs) taken (omega (arith, len))),
    )

abbrev pub extended_of : ℕ → List ℕ → Header
extended_of b rest = extended (record {
  key_id = from_be_bytes (take (key_length b) rest);
  frame_count = from_u64 (from_be_bytes (take (counter_length b) (drop (key_length b) rest)));
})

abbrev pub basic_of : ℕ → List ℕ → Header
basic_of b rest = basic (record {
  key_id = b % 8;
  frame_count = from_u64 (from_be_bytes (take (counter_length b) rest));
})

-- What `parse` finds, with the bytes that it needs.
parse_found :
    (b : ℕ) (rest : List ℕ) (h : Header)
    → parse (b ∷ rest) ≡ some h
    → (needed b ≤ length rest)
      × ((if has_extended_flag b then extended_of b rest else basic_of b rest) ≡ h)
unfolding parse
parse_found b rest h parsed = elim (Bool-cases (has_extended_flag b)) [
  | inl flag ↦ ground arith
  | inr flag ↦ ground arith
]

-- What holds of both headers that the first byte may announce holds of the one that `parse` finds.
pub parse_elim :
    (P : Header → Type 0) (b : ℕ) (rest : List ℕ) (h : Header)
    → parse (b ∷ rest) ≡ some h
    → (has_extended_flag b ≡ true
        → key_length b + counter_length b ≤ length rest
        → P (extended_of b rest))
    → (has_extended_flag b ≡ false → counter_length b ≤ length rest → P (basic_of b rest))
    → P h
parse_elim P b rest h parsed as_extended as_basic =
    let (fits, is) = parse_found b rest h parsed in
    elim (Bool-cases (has_extended_flag b)) [
      | inl flag ↦
          let pick : extended_of b rest
              ≡ (if has_extended_flag b then extended_of b rest else basic_of b rest) =
            rw flag in
          let enough : key_length b + counter_length b ≡ needed b = rw flag in
          subst P (pick ∙ is) (as_extended flag (omega (arith, fits, enough)))
      | inr flag ↦
          let pick : basic_of b rest
              ≡ (if has_extended_flag b then extended_of b rest else basic_of b rest) =
            rw flag in
          let enough : counter_length b ≡ needed b = rw flag in
          subst P (pick ∙ is) (as_basic flag (omega (arith, fits, enough)))
    ]

extended_of-Fits :
    (b : ℕ) (rest : List ℕ)
    → All IsByte rest
    → key_length b + counter_length b ≤ length rest
    → Fits (b ∷ rest) (extended_of b rest)
unfolding size Extended.size length_in_bytes
extended_of-Fits b rest bytes fits =
    let kid = field_bounds (key_length b) rest bytes (omega arith) (omega arith) (omega arith) in
    let ctr =
      field_bounds (counter_length b) (drop (key_length b) rest)
        (All-drop IsByte (key_length b) rest bytes) (omega arith) (omega arith)
        (omega (arith, length-drop (key_length b) rest)) in
    ((kid.0, ctr.0), omega (arith, kid.1, ctr.1))

basic_of-Fits :
    (b : ℕ) (rest : List ℕ)
    → All IsByte rest
    → counter_length b ≤ length rest
    → Fits (b ∷ rest) (basic_of b rest)
unfolding size Basic.size length_in_bytes
basic_of-Fits b rest bytes fits =
    let ctr = field_bounds (counter_length b) rest bytes (omega arith) (omega arith) fits in
    ((omega arith, ctr.0), omega (arith, ctr.1))

-- The fields of a header that decoding finds are in range, and its size, which may be less than what
-- it takes in the buffer, is at most the buffer's.
pub parse_bounds :
    (xs : List ℕ) (h : Header)
    → All IsByte xs
    → parse xs ≡ some h
    → IsHeader h × (size h ≤ length xs)
parse_bounds [] h bytes parsed = unfold parse in cc
parse_bounds (b ∷ rest) h bytes parsed =
    parse_elim (Fits (b ∷ rest)) b rest h parsed (λ flag fits. extended_of-Fits b rest bytes.1 fits)
      (λ flag fits. basic_of-Fits b rest bytes.1 fits)

pub found_by : (o : Option Header) (h : Header) → or_panic o ≡ ok h → o ≡ some h
found_by none h e = absurd cc
found_by (some g) h e = cc

-- The header that decoding returns has fields in range, and its size, which may be less than what it
-- takes in the buffer, is at most the buffer's.
pub deserialize-bounds :
    (bits : Msb0) (xs : List ℕ) (h : Header)
    → All IsByte xs
    → deserialize bits xs ≡ ok h
    → IsHeader h × (size h ≤ length xs)
deserialize-bounds bits xs h bytes decoded =
    parse_bounds xs h bytes
      (found_by (parse xs) h (sym (deserialize-parse bits xs bytes) ∙ decoded))
