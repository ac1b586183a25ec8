-- ===== src/Header/Basic/Write.antt =====
-- What the serialization of a basic header writes.
use secure_frame_rs.Prelude.{ℕ, ◌+◌, ◌-◌, ◌*◌, ◌/◌, ◌%◌, ◌≤◌, ◌<◌, ◌≡◌, arith, ◌∙◌, sym, ap}
use secure_frame_rs.Prelude.{
  List, [], ◌∷◌, ◌++◌, length, take, drop, le→ltb, lt→ltb, take-append-drop, length-take,
  append-nil, take-append_len, false,
}
use secure_frame_rs.Outcome.{Outcome, ok, err, ◌>>=◌, other, buffer_too_small}
use secure_frame_rs.Bitfield.{Msb0, set_field}
use secure_frame_rs.Header.Util.Bytes.{
  min_len_in_bytes_bounds, length-as_min_be_bytes, as_min_be_bytes-IsByte,
}
use secure_frame_rs.Header.FrameCount.{IsCount, length_in_bytes, as_be_bytes}
use secure_frame_rs.Header.Structs.{BasicHeader}
use secure_frame_rs.Header.Loops.{
  for_enumerate, SetsByte, for_enumerate_lem, index-append, store-append,
}
use secure_frame_rs.Header.Basic.{
  serialize_with, size, serialize, set_frame_count, set_frame_count_length, set_key_id,
  set_extended_key_flag,
}

-- The first byte of a basic header: its top bit is what was in the buffer.
abbrev pub first_byte : ℕ → ℕ → ℕ → ℕ
first_byte old coded_len key_id = old % 256 / 128 * 128 + coded_len % 8 * 16 + key_id % 8

take_all : (n : ℕ) (xs : List ℕ) → length xs ≡ n → take n xs ≡ xs
take_all n xs h = ap (take n) (sym (append-nil xs)) ∙ take-append_len n xs [] h

bytes_lem :
    (b key_id coded : ℕ)
    → set_field (set_field (set_field b 4 4 0) 5 7 key_id) 1 3 coded ≡ first_byte b coded key_id
bytes_lem b key_id coded = omega arith

module _ (bits : Msb0) where
  open bits use {set_bit_range_lem, set_bit_lem, set_element_lem}

  set_frame_count-SetsByte : SetsByte (set_frame_count bits) 1 8
  set_frame_count-SetsByte pre b post i v hp hi hv =
      set_element_lem (pre ++ b ∷ post) 15 8 8 i v (omega arith)
      ∙ rw (lt→ltb i 8 hi) (
          let hi_bit : 15 + i * 8 ≡ 8 * (i + 1) + 7 = omega arith in
          let lo_bit : 8 + i * 8 ≡ 8 * (i + 1) + 0 = omega arith in
          rw (hi_bit, lo_bit)
            (set_bit_range_lem (pre ++ b ∷ post) (i + 1) 0 7 v (omega arith) (omega arith)
              ∙ rw (index-append pre b post (i + 1) (omega arith)) (
                  store-append pre b post (i + 1) (set_field b 0 7 v) (omega arith)
                  ∙ (let whole : set_field b 0 7 v ≡ v = omega arith in rw whole))))

  fields_lem :
      (b : ℕ) (rest : List ℕ) (key_id coded : ℕ) (go : List ℕ → Outcome (List ℕ))
      → (set_extended_key_flag bits (b ∷ rest) false >>= λ flagged.
          set_key_id bits flagged key_id >>= λ keyed.
          set_frame_count_length bits keyed coded >>= go)
        ≡ go (first_byte b coded key_id ∷ rest)
  fields_lem b rest key_id coded go =
      let flagged : ℕ = set_field b 4 4 0 in
      let keyed : ℕ = set_field flagged 5 7 key_id in
      rw (set_bit_lem (b ∷ rest) 0 4 false (omega arith)) (
        rw (set_bit_range_lem (flagged ∷ rest) 0 5 7 key_id (omega arith) (omega arith)) (
          rw (set_bit_range_lem (keyed ∷ rest) 0 1 3 coded (omega arith) (omega arith))
            (ap (λ t. go (t ∷ rest)) (bytes_lem b key_id coded))))

  length_bounds :
      (h : BasicHeader)
      → IsCount h.frame_count
      → (1 ≤ length_in_bytes h.frame_count) × (length_in_bytes h.frame_count ≤ 8)
  length_bounds h c =
      unfold length_in_bytes in min_len_in_bytes_bounds h.frame_count.numeric_value c

  -- A buffer of at least `size` bytes gets the first byte and the bytes of the count; the top bit of
  -- its first byte and what lies behind the header stay as they are.
  pub serialize_with_lem :
      (o : ℕ) (h : BasicHeader) (b : ℕ) (rest : List ℕ)
      → o ≤ 1
      → IsCount h.frame_count
      → size h ≤ length (b ∷ rest)
      → serialize_with bits o h (b ∷ rest)
        ≡ ok (
            first_byte b (length_in_bytes h.frame_count - o) h.key_id
            ∷ (as_be_bytes h.frame_count ++ drop (length_in_bytes h.frame_count) rest))
  serialize_with_lem o h b rest build c fits =
      let n : ℕ = length_in_bytes h.frame_count in
      let bounds : (1 ≤ n) × (n ≤ 8) = length_bounds h c in
      let values : List ℕ = as_be_bytes h.frame_count in
      let exact : length values ≡ n =
        unfold as_be_bytes length_in_bytes in
        length-as_min_be_bytes h.frame_count.numeric_value c in
      let room : n ≤ length rest = unfold size in omega arith in
      let first : ℕ = first_byte b (n - o) h.key_id in
      unfold serialize_with in
      rw (le→ltb (length (b ∷ rest)) (size h) fits) (
        rw (le→ltb n o (omega arith)) (
          fields_lem b rest h.key_id (n - o) _
          ∙ rw (take_all n values exact) (
              ap (λ t. for_enumerate (set_frame_count bits) 0 (first ∷ t) values)
                (sym (take-append-drop n rest))
              ∙ for_enumerate_lem (set_frame_count bits) 1 8 set_frame_count-SetsByte values
                  (first ∷ []) (take n rest) (drop n rest) 0 (omega arith)
                  (omega (arith, length-take n rest)) (omega arith)
                  (unfold as_be_bytes in as_min_be_bytes-IsByte h.frame_count.numeric_value))))

  pub serialize_lem :
      (h : BasicHeader) (b : ℕ) (rest : List ℕ)
      → IsCount h.frame_count
      → size h ≤ length (b ∷ rest)
      → serialize bits h (b ∷ rest)
        ≡ ok (
            first_byte b (length_in_bytes h.frame_count - 1) h.key_id
            ∷ (as_be_bytes h.frame_count ++ drop (length_in_bytes h.frame_count) rest))
  serialize_lem h b rest c fits = serialize_with_lem 1 h b rest (omega arith) c fits

  -- A buffer that is too small is refused, and nothing is written.
  pub serialize_too_small :
      (h : BasicHeader) (buffer : List ℕ)
      → length buffer < size h
      → serialize bits h buffer ≡ err (other (buffer_too_small (length buffer) (size h)))
  serialize_too_small h buffer small =
      unfold serialize_with in rw (lt→ltb (length buffer) (size h) small)
