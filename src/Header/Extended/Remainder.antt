-- ===== src/Header/Extended/Remainder.antt =====
-- The bytes behind the first one of an extended header, as the iterator gives them.
use secure_frame_rs.Prelude.{
  ℕ, zero, suc, ◌+◌, ◌-◌, ◌*◌, ◌%◌, ◌≤◌, ◌<◌, ◌≡◌, refl, arith, ◌∙◌, sym, ap,
}
use secure_frame_rs.Prelude.{
  List, [], ◌∷◌, ◌++◌, length, le→ltb, lt→ltb, All, append_assoc, length-append, reverse,
  length-reverse,
}
use mathlib.Core.List.{reverse-cons}
use secure_frame_rs.Outcome.{Outcome, ok, err, panic, index, map_ok}
use secure_frame_rs.Bitfield.{Msb0, field}
use secure_frame_rs.Header.Util.{IsByte}
use secure_frame_rs.Header.Loops.{index-append, index_panics}
use secure_frame_rs.Header.Extended.{key_id_and_ctr, remainder}

module _ (bits : Msb0) where
  open bits use {bit_range_lem, bit_lem, element_lem}

  key_id_and_ctr_lem :
      (xs : List ℕ) (i : ℕ)
      → i < 16
      → key_id_and_ctr bits xs i ≡ map_ok (λ b. b % 256) (index xs (i + 1))
  key_id_and_ctr_lem xs i h =
      element_lem xs 15 8 16 i (omega arith)
      ∙ rw (lt→ltb i 16 h) (
          let hi_bit : 15 + i * 8 ≡ 8 * (i + 1) + 7 = omega arith in
          let lo_bit : 8 + i * 8 ≡ 8 * (i + 1) + 0 = omega arith in
          rw (hi_bit, lo_bit)
            (bit_range_lem xs (i + 1) 0 7 (omega arith) (omega arith) ∙ whole (index xs (i + 1))))
    where
      whole : (r : Outcome ℕ) → map_ok (λ b. field b 0 7) r ≡ map_ok (λ b. b % 256) r
      whole (ok b) = let e : field b 0 7 ≡ b % 256 = omega arith in ap ok e
      whole (err e) = refl
      whole panic = refl

  remainder_step :
      (xs : List ℕ) (len n i w : ℕ) (ws : List ℕ)
      → i + 1 ≤ len
      → len ≤ 16
      → index xs (len - (i + 1) + 1) ≡ ok w
      → w < 256
      → remainder bits xs len n (i + 1) ≡ ok ws
      → remainder bits xs len (suc n) i ≡ ok (w ∷ ws)
  unfolding remainder
  remainder_step xs len n i w ws hi hl at hw rest =
      let byte : w % 256 ≡ w = omega arith in
      rw (le→ltb len (i + 1) hi)
        (rw (key_id_and_ctr_lem xs (len - (i + 1)) (omega arith)) (rw (at, rest, byte)))

  -- From its counter `i` on, the iterator gives the bytes before that place, the last one first.
  pub remainder_lem :
      (ws pre post : List ℕ) (len i n : ℕ)
      → length ws ≡ n
      → length pre + n + i ≡ len + 1
      → 1 ≤ length pre
      → len ≤ 16
      → All IsByte ws
      → remainder bits (pre ++ (reverse ws ++ post)) len n i ≡ ok ws
  unfolding remainder
  remainder_lem [] pre post len i zero hw e hp hl bytes = refl
  remainder_lem [] pre post len i (suc n) hw e hp hl bytes = absurd (omega arith)
  remainder_lem (w ∷ ws) pre post len i zero hw e hp hl bytes = absurd (omega arith)
  remainder_lem (w ∷ ws) pre post len i (suc n) hw e hp hl bytes =
      let whole : pre ++ (reverse (w ∷ ws) ++ post) ≡ pre ++ (reverse ws ++ (w ∷ post)) =
        ap (λ t. pre ++ t)
          (ap (λ t. t ++ post) (reverse-cons w ws) ∙ append_assoc (reverse ws) (w ∷ []) post) in
      let place : ℕ = len - (i + 1) + 1 in
      let at : index (pre ++ (reverse ws ++ (w ∷ post))) place ≡ ok w =
        ap (λ t. index t place) (sym (append_assoc pre (reverse ws) (w ∷ post)))
        ∙ index-append (pre ++ reverse ws) w post place
            (omega (arith, length-append pre (reverse ws), length-reverse ws)) in
      ap (λ t. remainder bits t len (suc n) i) whole
      ∙ remainder_step (pre ++ (reverse ws ++ (w ∷ post))) len n i w ws (omega arith) hl at bytes.0
          (remainder_lem ws pre (w ∷ post) len (i + 1) n (omega arith) (omega arith) hp hl bytes.1)

  pub remainder_out_of_range :
      (xs : List ℕ) (len n i : ℕ)
      → length xs + i < len + 1
      → len ≤ 16
      → i < len
      → 0 < n
      → remainder bits xs len n i ≡ panic
  unfolding remainder
  remainder_out_of_range xs len zero i short hl hi pos = absurd (omega arith)
  remainder_out_of_range xs len (suc n) i short hl hi pos = rw (le→ltb len (i + 1) (omega arith)) (
      rw (key_id_and_ctr_lem xs (len - (i + 1)) (omega arith))
        (rw (index_panics xs (len - (i + 1) + 1) (omega arith))))
