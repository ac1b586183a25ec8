-- ===== src/Header/Codec/Builds/Checked.antt =====
-- The check of a buffer in the build with the feature `verify-test-vectors`, where LEN_OFFSET is 0.
use secure_frame_rs.Prelude.{
  ℕ, ◌+◌, ◌/◌, ◌%◌, ◌≤◌, ◌≡◌, arith, ◌∙◌, sym, List, ◌∷◌, length, Bool-cases, inl, inr, true, false,
  All,
}
use secure_frame_rs.Outcome.{ok, ok-injective}
use secure_frame_rs.Bitfield.{Msb0}
use secure_frame_rs.Header.Util.{IsByte}
use secure_frame_rs.Header.Structs.{Header, len_offset_of_vectors}
use secure_frame_rs.Header.Codec.{is_valid, deserialize_with}
use secure_frame_rs.Header.Codec.Parse.{has_extended_flag}
use secure_frame_rs.Header.Codec.Valid.{looks_valid, is_valid_lem}
use secure_frame_rs.Header.Codec.Builds.{as_basic, as_extended}

room_basic :
    (b : ℕ) (rest : List ℕ)
    → has_extended_flag b ≡ false
    → looks_valid (b ∷ rest) ≡ true
    → (1 ≤ length rest) × (b / 16 % 8 + 0 ≤ length rest)
unfolding looks_valid
room_basic b rest flag valid = ground arith

room_extended :
    (b : ℕ) (rest : List ℕ)
    → has_extended_flag b ≡ true
    → looks_valid (b ∷ rest) ≡ true
    → (1 ≤ length rest) × (b % 8 + 0 + (b / 16 % 8 + 0) ≤ length rest)
unfolding looks_valid
room_extended b rest flag valid = ground arith

-- With the feature `verify-test-vectors`, every buffer of bytes that Header::is_valid accepts decodes to
-- a header.
pub is_valid-decodes :
    (bits : Msb0) (b : ℕ) (rest : List ℕ)
    → All IsByte rest
    → is_valid bits (b ∷ rest) ≡ ok true
    → (h : Header) × (deserialize_with bits len_offset_of_vectors (b ∷ rest) ≡ ok h)
is_valid-decodes bits b rest bytes accepted =
    let valid : looks_valid (b ∷ rest) ≡ true =
      ok-injective (sym (is_valid_lem bits (b ∷ rest)) ∙ accepted) in
    elim (Bool-cases (has_extended_flag b)) [
      | inl flag ↦
          let (long, room) = room_extended b rest flag valid in
          (_, as_extended bits 0 (omega arith) b rest bytes (ground arith) long room)
      | inr flag ↦
          let (long, room) = room_basic b rest flag valid in
          (_, as_basic bits 0 (omega arith) b rest bytes (ground arith) long room)
    ]
