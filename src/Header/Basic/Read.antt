-- ===== src/Header/Basic/Read.antt =====
-- What the deserialization of a basic header reads, on every buffer.
use secure_frame_rs.Prelude.{
  ℕ, zero, suc, ◌+◌, ◌-◌, ◌*◌, ◌/◌, ◌%◌, ◌^◌, ◌≤◌, ◌<◌, ◌≡◌, refl, arith, ◌∙◌, sym, ap, ap₂,
}
use secure_frame_rs.Prelude.{
  List, [], ◌∷◌, ◌++◌, length, take, drop, replicate, le→ltb, lt→ltb, take-append-drop, length-take,
  length-replicate, replicate-add, All, All-take, append_assoc, length-append, ltb, leb, lt-or-le,
  inl, inr, false, not, ◌&&◌, ◌==◌,
}
use secure_frame_rs.Outcome.{Outcome, ok, err, panic, ◌>>=◌, index, map_ok}
use secure_frame_rs.Bitfield.{Msb0, field}
use secure_frame_rs.Header.Util.{IsByte, from_be_bytes}
use secure_frame_rs.Header.Util.Bytes.{from_be_bytes-zeros}
use secure_frame_rs.Header.FrameCount.{from_u64}
use secure_frame_rs.Header.Structs.{BasicHeader}
use secure_frame_rs.Header.Loops.{
  index-append, store-append, index_panics, index_in_range, store_in_range,
}
use secure_frame_rs.Header.Basic.{
  deserialize_with, frame_count, read_frame_count, deserialize, is_valid,
}

-- LEN is coded as the length less the constant of the build.
abbrev pub coded_length : ℕ → ℕ → ℕ
coded_length o b = b / 16 % 8 + o

abbrev finish : ℕ → List ℕ → Outcome BasicHeader
finish b filled = ok (record { key_id = b % 8; frame_count = from_u64 (from_be_bytes filled) })

module _ (bits : Msb0) where
  open bits use {bit_range_lem, bit_lem, element_lem}

  frame_count_lem :
      (xs : List ℕ) (i : ℕ)
      → i < 8
      → frame_count bits xs i ≡ map_ok (λ b. b % 256) (index xs (i + 1))
  frame_count_lem xs i h =
      element_lem xs 15 8 8 i (omega arith)
      ∙ rw (lt→ltb i 8 h) (
          let hi_bit : 15 + i * 8 ≡ 8 * (i + 1) + 7 = omega arith in
          let lo_bit : 8 + i * 8 ≡ 8 * (i + 1) + 0 = omega arith in
          rw (hi_bit, lo_bit)
            (bit_range_lem xs (i + 1) 0 7 (omega arith) (omega arith) ∙ whole (index xs (i + 1))))
    where
      whole : (r : Outcome ℕ) → map_ok (λ b. field b 0 7) r ≡ map_ok (λ b. b % 256) r
      whole (ok b) = let e : field b 0 7 ≡ b % 256 = omega arith in ap ok e
      whole (err e) = refl
      whole panic = refl

  read_in_range :
      (vs pre post front old : List ℕ) (offset i rounds : ℕ)
      → length vs ≡ rounds
      → length pre ≡ i + 1
      → length front ≡ offset + i
      → length old ≡ rounds
      → i + rounds ≤ 8
      → All IsByte vs
      → read_frame_count bits (pre ++ (vs ++ post)) offset rounds i (front ++ old)
        ≡ ok (front ++ vs)
  unfolding read_frame_count
  read_in_range [] pre post front [] offset i zero hv hp hf ho h8 bytes = refl
  read_in_range [] pre post front (o ∷ old) offset i zero hv hp hf ho h8 bytes =
      absurd (omega arith)
  read_in_range (v ∷ vs) pre post front old offset i zero hv hp hf ho h8 bytes =
      absurd (omega arith)
  read_in_range [] pre post front old offset i (suc r) hv hp hf ho h8 bytes = absurd (omega arith)
  read_in_range (v ∷ vs) pre post front [] offset i (suc r) hv hp hf ho h8 bytes =
      absurd (omega arith)
  read_in_range (v ∷ vs) pre post front (o ∷ old) offset i (suc r) hv hp hf ho h8 bytes =
      let byte : v % 256 ≡ v = omega arith in
      rw (frame_count_lem (pre ++ v ∷ (vs ++ post)) i (omega arith)) (
        rw (index-append pre v (vs ++ post) (i + 1) hp, byte)
          (rw (store-append front o old (offset + i) v hf) (
            let next_pre : pre ++ ((v ∷ vs) ++ post) ≡ (pre ++ v ∷ []) ++ (vs ++ post) =
              sym (append_assoc pre (v ∷ []) (vs ++ post)) in
            let next_front : front ++ v ∷ old ≡ (front ++ v ∷ []) ++ old =
              sym (append_assoc front (v ∷ []) old) in
            ap₂ (λ xs nv. read_frame_count bits xs offset r (i + 1) nv) next_pre next_front
            ∙ read_in_range vs (pre ++ v ∷ []) post (front ++ v ∷ []) old offset (i + 1) r
                (omega arith) (omega (arith, length-append pre (v ∷ [])))
                (omega (arith, length-append front (v ∷ []))) (omega arith) (omega arith) bytes.1
            ∙ ap ok (append_assoc front (v ∷ []) vs))))

  read_out_of_range :
      (xs nv : List ℕ) (offset i rounds : ℕ)
      → length xs ≤ i + rounds
      → 0 < rounds
      → length nv ≡ 8
      → offset + i + rounds ≤ 8
      → read_frame_count bits xs offset rounds i nv ≡ panic
  unfolding read_frame_count
  read_out_of_range xs nv offset i zero short pos l8 fits = absurd (omega arith)
  read_out_of_range xs nv offset i (suc r) short pos l8 fits =
      rw (frame_count_lem xs i (omega arith)) (elim (lt-or-le (i + 1) (length xs)) [
        | inr out ↦ rw (index_panics xs (i + 1) out)
        | inl inside ↦
            (let (v, at) = index_in_range xs (i + 1) inside in
              let (ys, stored, l) = store_in_range nv (offset + i) (v % 256) (omega arith) in
              rw at (
                rw stored (
                  read_out_of_range xs ys offset (i + 1) r (omega arith) (omega arith) (omega arith)
                    (omega arith))))
      ])

  header_lem :
      (o b : ℕ) (rest : List ℕ) (offset : ℕ)
      → o ≤ 1
      → offset + coded_length o b ≡ 8
      → deserialize_with bits o (b ∷ rest) ≡ (
          read_frame_count bits (b ∷ rest) offset (coded_length o b) 0 (replicate 8 0) >>= finish b)
  unfolding deserialize_with
  header_lem o b rest offset build e =
      let key : field b 5 7 ≡ b % 8 = omega arith in
      let len : field b 1 3 + o ≡ coded_length o b = omega arith in
      rw (bit_range_lem (b ∷ rest) 0 5 7 (omega arith) (omega arith)) (
        rw (bit_range_lem (b ∷ rest) 0 1 3 (omega arith) (omega arith)) (
          rw (len, key)
            (rw (lt→ltb (coded_length o b) (2 ^ 8) (omega arith)) (
              rw (le→ltb 8 (coded_length o b) (omega arith))
                (let o : 8 - coded_length o b ≡ offset = omega arith in rw o)))))

  -- A buffer that holds the coded number of bytes gives the low three bits of its first byte, and
  -- the number that those bytes write.
  pub deserialize_with_lem :
      (o b : ℕ) (rest : List ℕ)
      → o ≤ 1
      → All IsByte rest
      → coded_length o b ≤ length rest
      → deserialize_with bits o (b ∷ rest)
        ≡ ok (record {
          key_id = b % 8;
          frame_count = from_u64 (from_be_bytes (take (coded_length o b) rest));
        })
  deserialize_with_lem o b rest build bytes fits =
      let n : ℕ = coded_length o b in
      let offset : ℕ = 8 - n in
      let zeros : List ℕ = replicate offset 0 in
      let split : replicate 8 0 ≡ zeros ++ replicate n 0 =
        replicate-add offset n 8 0 (omega arith) in
      header_lem o b rest offset build (omega arith)
      ∙ ap (λ t. read_frame_count bits (b ∷ rest) offset n 0 t >>= finish b) split
      ∙ ap (λ t. read_frame_count bits (b ∷ t) offset n 0 (zeros ++ replicate n 0) >>= finish b)
          (sym (take-append-drop n rest))
      ∙ ap (λ r. r >>= finish b)
          (read_in_range (take n rest) (b ∷ []) (drop n rest) zeros (replicate n 0) offset 0 n
            (omega (arith, length-take n rest)) (omega arith)
            (omega (arith, length-replicate offset (zero))) (length-replicate n 0) (omega arith)
            (All-take IsByte n rest bytes))
      ∙ ap (λ t. ok (record { key_id = b % 8; frame_count = from_u64 t }))
          (from_be_bytes-zeros offset (take n rest))

  pub deserialize_with_too_short :
      (o b : ℕ) (rest : List ℕ)
      → o ≤ 1
      → length rest < coded_length o b
      → deserialize_with bits o (b ∷ rest) ≡ panic
  deserialize_with_too_short o b rest build short =
      header_lem o b rest (8 - coded_length o b) build (omega arith)
      ∙ rw (
          read_out_of_range (b ∷ rest) (replicate 8 0) (8 - coded_length o b) 0 (coded_length o b)
            (omega arith) (omega arith) refl (omega arith))

  pub deserialize_lem :
      (b : ℕ) (rest : List ℕ)
      → All IsByte rest
      → coded_length 1 b ≤ length rest
      → deserialize bits (b ∷ rest)
        ≡ ok (record {
          key_id = b % 8;
          frame_count = from_u64 (from_be_bytes (take (coded_length 1 b) rest));
        })
  deserialize_lem b rest bytes fits = deserialize_with_lem 1 b rest (omega arith) bytes fits

  pub deserialize_too_short :
      (b : ℕ) (rest : List ℕ) → length rest < coded_length 1 b → deserialize bits (b ∷ rest) ≡ panic
  deserialize_too_short b rest short = deserialize_with_too_short 1 b rest (omega arith) short

  pub deserialize-nil : deserialize bits [] ≡ panic
  unfolding deserialize_with
  deserialize-nil = rw (bit_range_lem [] 0 5 7 (omega arith) (omega arith))

  -- The check looks at the flag, and at a length that is one less than what the header takes.
  pub is_valid_lem :
      (b c : ℕ) (rest : List ℕ)
      → is_valid bits (b ∷ c ∷ rest)
        ≡ ok (not (b / 8 % 2 == 1) && leb (1 + b / 16 % 8) (length (b ∷ c ∷ rest)))
  is_valid_lem b c rest =
      unfold is_valid in
      (let long : ltb (length (b ∷ c ∷ rest)) 2 ≡ false =
          le→ltb (length (b ∷ c ∷ rest)) 2 (omega arith) in
        let flag : field b 4 4 ≡ b / 8 % 2 = omega arith in
        let len : field b 1 3 ≡ b / 16 % 8 = omega arith in
        rw long (
          rw (bit_lem (b ∷ c ∷ rest) 0 4 (omega arith))
            (rw (bit_range_lem (b ∷ c ∷ rest) 0 1 3 (omega arith) (omega arith)) (rw (flag, len)))))

  pub is_valid_short : (xs : List ℕ) → length xs < 2 → is_valid bits xs ≡ ok false
  is_valid_short xs h = unfold is_valid in rw (lt→ltb (length xs) 2 h)
