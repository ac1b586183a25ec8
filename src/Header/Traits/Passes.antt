-- ===== src/Header/Traits/Passes.antt =====
-- A serialized header passes the check of its kind and no other.
use secure_frame_rs.Prelude.{
  ℕ, ◌+◌, ◌-◌, ◌/◌, ◌%◌, ◌^◌, ◌≤◌, ◌<◌, ◌≡◌, ◌∙◌, refl, arith, List, [], ◌∷◌, ◌++◌, length, drop,
  le→leb, true, false, length-append,
}
use secure_frame_rs.Outcome.{ok}
use secure_frame_rs.Bitfield.{Msb0}
use secure_frame_rs.Header.Util.{min_len_in_bytes, as_min_be_bytes}
use secure_frame_rs.Header.Util.Bytes.{min_len_in_bytes_bounds, length-as_min_be_bytes}
use secure_frame_rs.Header.FrameCount.{IsCount, length_in_bytes, as_be_bytes}
use secure_frame_rs.Header.Structs.{BasicHeader, ExtendedHeader, basic, extended}
use secure_frame_rs.Header.Basic
use secure_frame_rs.Header.Basic.Write as BasicWrite
use secure_frame_rs.Header.Basic.Read as BasicRead
use secure_frame_rs.Header.Extended
use secure_frame_rs.Header.Extended.Write as ExtendedWrite
use secure_frame_rs.Header.Extended.Read as ExtendedRead
use secure_frame_rs.Header.Codec.Written.{written, written_with}

module _ (bits : Msb0) where
  basic_valid :
      (b : ℕ) (t : List ℕ)
      → b / 8 % 2 ≡ 0
      → b / 16 % 8 + 1 ≤ length t
      → Basic.is_valid bits (b ∷ t) ≡ ok true
  basic_valid b [] flag fits = absurd (omega arith)
  basic_valid b (c ∷ t) flag fits =
      BasicRead.is_valid_lem bits b c t
      ∙ rw (flag, le→leb (1 + b / 16 % 8) (length (b ∷ c ∷ t)) (omega arith)) refl

  extended_valid :
      (b : ℕ) (t : List ℕ)
      → b / 8 % 2 ≡ 1
      → b % 8 + 1 + (b / 16 % 8 + 1) ≤ length t
      → (Basic.is_valid bits (b ∷ t) ≡ ok false) × (Extended.is_valid bits (b ∷ t) ≡ ok true)
  extended_valid b [] flag fits = absurd (omega arith)
  extended_valid b (c ∷ []) flag fits = absurd (omega arith)
  extended_valid b (c ∷ d ∷ t) flag fits = (
    BasicRead.is_valid_lem bits b c (d ∷ t) ∙ rw flag refl,
    ExtendedRead.is_valid_lem bits b c d t
        ∙ rw (flag, le→leb (1 + b / 16 % 8 + b % 8) (length (b ∷ c ∷ d ∷ t)) (omega arith)) refl,
  )

  pub written-basic_valid :
      (h : BasicHeader) (b : ℕ) (rest : List ℕ)
      → IsCount h.frame_count
      → Basic.is_valid bits (written (basic h) b rest) ≡ ok true
  unfolding written_with as_be_bytes length_in_bytes
  written-basic_valid h b rest c =
      let count : ℕ = h.frame_count.numeric_value in
      let n : ℕ = min_len_in_bytes count in
      let bounds : (1 ≤ n) × (n ≤ 8) = min_len_in_bytes_bounds count c in
      basic_valid (BasicWrite.first_byte b (n - 1) h.key_id) (as_min_be_bytes count ++ drop n rest)
        (omega arith)
        (omega (
          arith,
          length-append (as_min_be_bytes count) (drop n rest),
          length-as_min_be_bytes count c,
        ))

  pub written-extended_valid :
      (h : ExtendedHeader) (b : ℕ) (rest : List ℕ)
      → h.key_id < 2 ^ 64
      → IsCount h.frame_count
      → (Basic.is_valid bits (written (extended h) b rest) ≡ ok false)
        × (Extended.is_valid bits (written (extended h) b rest) ≡ ok true)
  unfolding written_with as_be_bytes length_in_bytes
  written-extended_valid h b rest u c =
      let count : ℕ = h.frame_count.numeric_value in
      let n : ℕ = min_len_in_bytes count in
      let k : ℕ = min_len_in_bytes h.key_id in
      let hn : (1 ≤ n) × (n ≤ 8) = min_len_in_bytes_bounds count c in
      let hk : (1 ≤ k) × (k ≤ 8) = min_len_in_bytes_bounds h.key_id u in
      let kid : List ℕ = as_min_be_bytes h.key_id in
      let ctr : List ℕ = as_min_be_bytes count in
      extended_valid (ExtendedWrite.first_byte b (n - 1) (k - 1))
        ((kid ++ ctr) ++ drop (k + n) rest) (omega arith)
        (omega (
          arith,
          length-append (kid ++ ctr) (drop (k + n) rest),
          length-append kid ctr,
          length-as_min_be_bytes h.key_id u,
          length-as_min_be_bytes count c,
        ))
