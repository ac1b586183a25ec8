-- ===== src/Header/Codec/Padded.antt =====
-- Headers whose fields have leading zero bytes, which another program may write: `size` is less than
-- what they take.
use secure_frame_rs.Prelude.{
  ℕ, ◌+◌, ◌≤◌, ◌≡◌, ◌↔◌, ◌∙◌, sym, arith, Bool, true, false, List, ◌∷◌, ◌++◌, length, take, drop,
  All, All-take, All-drop, some, length-take, length-drop, length-append, take-append_le,
  drop-append_le, le→leb, Bool-cases, inl, inr,
}
use secure_frame_rs.Outcome.{ok}
use secure_frame_rs.Bitfield.{Msb0}
use secure_frame_rs.Header.Util.{IsByte, from_be_bytes, min_len_in_bytes}
use secure_frame_rs.Header.Util.Minimal.{min_len_in_bytes-least}
use secure_frame_rs.Header.Util.Padding.{IsMinimal, min_len_in_bytes-IsMinimal}
use secure_frame_rs.Header.FrameCount.{length_in_bytes}
use secure_frame_rs.Header.Structs.{Header}
use secure_frame_rs.Header.Basic
use secure_frame_rs.Header.Extended
use secure_frame_rs.Header.Codec.{size, deserialize}
use secure_frame_rs.Header.Codec.Parse.{
  parse, deserialize-parse, has_extended_flag, counter_length, key_length,
}
use secure_frame_rs.Header.Codec.Valid.{needed}
use secure_frame_rs.Header.Codec.Bounds.{extended_of, basic_of, parse_elim, found_by}

-- No field of the header with this first byte has a zero in front.
abbrev FieldsMinimal : Bool → ℕ → List ℕ → Type 0
FieldsMinimal true b rest =
    IsMinimal (take (key_length b) rest)
    × IsMinimal (take (counter_length b) (drop (key_length b) rest))
FieldsMinimal false b rest = IsMinimal (take (counter_length b) rest)

abbrev pub HasMinimalFields : ℕ → List ℕ → Type 0
HasMinimalFields b rest = FieldsMinimal (has_extended_flag b) b rest

field-IsMinimal :
    (n : ℕ) (xs : List ℕ)
    → All IsByte xs
    → 1 ≤ n
    → n ≤ 8
    → n ≤ length xs
    → (min_len_in_bytes (from_be_bytes (take n xs)) ≤ n)
      × ((min_len_in_bytes (from_be_bytes (take n xs)) ≡ n) ↔ IsMinimal (take n xs))
field-IsMinimal n xs bytes pos small fits =
    let len : length (take n xs) ≡ n = omega (arith, length-take n xs) in
    let taken : All IsByte (take n xs) = All-take IsByte n xs bytes in
    let exact =
      min_len_in_bytes-IsMinimal (take n xs) taken (omega (arith, len)) (omega (arith, len)) in
    (
      omega (arith, len, min_len_in_bytes-least (take n xs) taken (omega (arith, len))),
      ((λ e. exact.0 (e ∙ sym len)), (λ m. exact.1 m ∙ len)),
    )

-- What a header takes in the buffer is at least its size, and is its size exactly if no field has a
-- leading zero.
abbrev pub SizeOf : ℕ → List ℕ → Header → Type 0
SizeOf b rest h = (size h ≤ needed b + 1) × ((size h ≡ needed b + 1) ↔ HasMinimalFields b rest)

extended_of-SizeOf :
    (b : ℕ) (rest : List ℕ)
    → All IsByte rest
    → has_extended_flag b ≡ true
    → key_length b + counter_length b ≤ length rest
    → SizeOf b rest (extended_of b rest)
unfolding size Extended.size length_in_bytes
extended_of-SizeOf b rest bytes flag fits =
    let kl : ℕ = key_length b in
    let (kid, kid_iff) = field-IsMinimal kl rest bytes (omega arith) (omega arith) (omega arith) in
    let (ctr, ctr_iff) =
      field-IsMinimal (counter_length b) (drop kl rest) (All-drop IsByte kl rest bytes)
        (omega arith) (omega arith) (omega (arith, length-drop kl rest)) in
    rw flag (
      omega arith,
      (
        (λ e. (kid_iff.0 (omega arith), ctr_iff.0 (omega arith))),
        (λ m. omega (arith, kid_iff.1 m.0, ctr_iff.1 m.1)),
      ),
    )

basic_of-SizeOf :
    (b : ℕ) (rest : List ℕ)
    → All IsByte rest
    → has_extended_flag b ≡ false
    → counter_length b ≤ length rest
    → SizeOf b rest (basic_of b rest)
unfolding size Basic.size length_in_bytes
basic_of-SizeOf b rest bytes flag fits =
    let (ctr, ctr_iff) =
      field-IsMinimal (counter_length b) rest bytes (omega arith) (omega arith) fits in
    rw flag (omega arith, ((λ e. ctr_iff.0 (omega arith)), (λ m. omega (arith, ctr_iff.1 m))))

pub parse-SizeOf :
    (b : ℕ) (rest : List ℕ) (h : Header)
    → All IsByte rest
    → parse (b ∷ rest) ≡ some h
    → SizeOf b rest h
parse-SizeOf b rest h bytes parsed =
    parse_elim (SizeOf b rest) b rest h parsed
      (λ flag fits. extended_of-SizeOf b rest bytes flag fits)
      (λ flag fits. basic_of-SizeOf b rest bytes flag fits)

-- The header that decoding bytes returns takes at least its size in the buffer, and exactly its size
-- just if neither its count nor the key id of an extended header has a zero byte in front of others.
pub size-deserialize :
    (bits : Msb0) (b : ℕ) (rest : List ℕ) (h : Header)
    → All IsByte (b ∷ rest)
    → deserialize bits (b ∷ rest) ≡ ok h
    → (size h ≤ needed b + 1) × ((size h ≡ needed b + 1) ↔ HasMinimalFields b rest)
size-deserialize bits b rest h bytes decoded =
    parse-SizeOf b rest h bytes.1
      (found_by (parse (b ∷ rest)) h (sym (deserialize-parse bits (b ∷ rest) bytes) ∙ decoded))

-- What stands behind a header does not change what is found.
pub parse-append :
    (b : ℕ) (rest more : List ℕ)
    → needed b ≤ length rest
    → parse (b ∷ (rest ++ more)) ≡ parse (b ∷ rest)
unfolding parse
parse-append b rest more fits =
    let kl : ℕ = key_length b in
    let cl : ℕ = counter_length b in
    let longer : length (rest ++ more) ≡ length rest + length more = length-append rest more in
    elim (Bool-cases (has_extended_flag b)) [
      | inl flag ↦
          let room : kl + cl ≤ length rest =
            (let e : needed b ≡ kl + cl = rw flag in omega arith) in
          rw
            (
              flag,
              le→leb (kl + cl) (length rest) room,
              le→leb (kl + cl) (length (rest ++ more)) (omega (arith, longer)),
            )
            (rw (
              take-append_le kl rest more (omega arith),
              drop-append_le kl rest more (omega arith),
              take-append_le cl (drop kl rest) more (omega (arith, length-drop kl rest)),
            ))
      | inr flag ↦
          let room : cl ≤ length rest = (let e : needed b ≡ cl = rw flag in omega arith) in
          rw
            (
              flag,
              le→leb cl (length rest) room,
              le→leb cl (length (rest ++ more)) (omega (arith, longer)),
            )
            (rw (take-append_le cl rest more room))
    ]
