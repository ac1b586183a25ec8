-- ===== src/Header/Extended/Write.antt =====
-- What the serialization of an extended header writes.
use secure_frame_rs.Prelude.{ℕ, ◌+◌, ◌-◌, ◌*◌, ◌/◌, ◌%◌, ◌^◌, ◌≤◌, ◌<◌, ◌≡◌, arith, ◌∙◌, sym, ap}
use secure_frame_rs.Prelude.{
  List, [], ◌∷◌, ◌++◌, length, take, drop, le→ltb, lt→ltb, take-append-drop, length-take,
  length-append, All-append, true,
}
use secure_frame_rs.Outcome.{Outcome, ok, err, ◌>>=◌, sub_checked, other, buffer_too_small}
use secure_frame_rs.Bitfield.{Msb0, set_field}
use secure_frame_rs.Header.Util.{IsByte, min_len_in_bytes, as_min_be_bytes}
use secure_frame_rs.Header.Util.Bytes.{
  min_len_in_bytes_bounds, length-as_min_be_bytes, as_min_be_bytes-IsByte,
}
use secure_frame_rs.Header.FrameCount.{IsCount, length_in_bytes, as_be_bytes}
use secure_frame_rs.Header.Structs.{ExtendedHeader}
use secure_frame_rs.Header.Loops.{
  for_enumerate, SetsByte, for_enumerate_lem, index-append, store-append,
}
use secure_frame_rs.Header.Extended.{
  serialize_with, size, serialize, set_key_id_and_ctr, set_frame_count_len, set_key_len,
  set_extended_key_flag,
}

-- The first byte of an extended header: its top bit is what was in the buffer.
abbrev pub first_byte : ℕ → ℕ → ℕ → ℕ
first_byte old coded_len coded_key_len =
    old % 256 / 128 * 128 + coded_len % 8 * 16 + 8 + coded_key_len % 8

bytes_lem :
    (b coded_len coded_key_len : ℕ)
    → set_field (set_field (set_field b 1 3 coded_len) 4 4 1) 5 7 coded_key_len
      ≡ first_byte b coded_len coded_key_len
bytes_lem b coded_len coded_key_len = omega arith

module _ (bits : Msb0) where
  open bits use {set_bit_range_lem, set_bit_lem, set_element_lem}

  set_key_id_and_ctr-SetsByte : SetsByte (set_key_id_and_ctr bits) 1 16
  set_key_id_and_ctr-SetsByte pre b post i v hp hi hv =
      set_element_lem (pre ++ b ∷ post) 15 8 16 i v (omega arith)
      ∙ rw (lt→ltb i 16 hi) (
          let hi_bit : 15 + i * 8 ≡ 8 * (i + 1) + 7 = omega arith in
          let lo_bit : 8 + i * 8 ≡ 8 * (i + 1) + 0 = omega arith in
          rw (hi_bit, lo_bit)
            (set_bit_range_lem (pre ++ b ∷ post) (i + 1) 0 7 v (omega arith) (omega arith)
              ∙ rw (index-append pre b post (i + 1) (omega arith)) (
                  store-append pre b post (i + 1) (set_field b 0 7 v) (omega arith)
                  ∙ (let whole : set_field b 0 7 v ≡ v = omega arith in rw whole))))

  -- The first byte with what is done behind it; `n` and `k` are the lengths of count and key id.
  fields_lem :
      (b : ℕ) (rest : List ℕ) (o n k : ℕ) (go : List ℕ → Outcome (List ℕ))
      → o ≤ n
      → o ≤ k
      → (sub_checked n o >>= λ coded_len. set_frame_count_len bits (b ∷ rest) coded_len >>= λ sized.
          set_extended_key_flag bits sized true >>= λ flagged.
          sub_checked k o >>= λ coded_key_len. set_key_len bits flagged coded_key_len >>= go)
        ≡ go (first_byte b (n - o) (k - o) ∷ rest)
  fields_lem b rest o n k go hn hk =
      let sized : ℕ = set_field b 1 3 (n - o) in
      let flagged : ℕ = set_field sized 4 4 1 in
      rw (le→ltb n o hn) (
        rw (set_bit_range_lem (b ∷ rest) 0 1 3 (n - o) (omega arith) (omega arith)) (
          rw (set_bit_lem (sized ∷ rest) 0 4 true (omega arith)) (
            rw (le→ltb k o hk) (
              rw (set_bit_range_lem (flagged ∷ rest) 0 5 7 (k - o) (omega arith) (omega arith))
                (ap (λ t. go (t ∷ rest)) (bytes_lem b (n - o) (k - o)))))))

  -- A buffer of at least `size` bytes gets the first byte, the bytes of the key id and those of the
  -- count; the top bit of its first byte and what lies behind the header stay as they are.
  pub serialize_with_lem :
      (o : ℕ) (h : ExtendedHeader) (b : ℕ) (rest : List ℕ)
      → o ≤ 1
      → h.key_id < 2 ^ 64
      → IsCount h.frame_count
      → size h ≤ length (b ∷ rest)
      → serialize_with bits o h (b ∷ rest)
        ≡ ok (
            first_byte b (length_in_bytes h.frame_count - o) (min_len_in_bytes h.key_id - o)
            ∷ ((as_min_be_bytes h.key_id ++ as_be_bytes h.frame_count)
                ++ drop (min_len_in_bytes h.key_id + length_in_bytes h.frame_count) rest))
  serialize_with_lem o h b rest build u c fits =
      let n : ℕ = length_in_bytes h.frame_count in
      let k : ℕ = min_len_in_bytes h.key_id in
      let count : ℕ = h.frame_count.numeric_value in
      let hn : (1 ≤ n) × (n ≤ 8) = unfold length_in_bytes in min_len_in_bytes_bounds count c in
      let hk : (1 ≤ k) × (k ≤ 8) = min_len_in_bytes_bounds h.key_id u in
      let kid : List ℕ = as_min_be_bytes h.key_id in
      let ctr : List ℕ = as_min_be_bytes count in
      let kid_len : length kid ≡ k = length-as_min_be_bytes h.key_id u in
      let ctr_len : length ctr ≡ n = unfold length_in_bytes in length-as_min_be_bytes count c in
      let room : k + n ≤ length rest = unfold size in omega arith in
      let first : ℕ = first_byte b (n - o) (k - o) in
      unfold serialize_with as_be_bytes in
      rw (le→ltb (length (b ∷ rest)) (size h) fits) (
        fields_lem b rest o n k _ (omega arith) (omega arith)
        ∙ ap (λ t. for_enumerate (set_key_id_and_ctr bits) 0 (first ∷ t) (kid ++ ctr))
            (sym (take-append-drop (k + n) rest))
        ∙ for_enumerate_lem (set_key_id_and_ctr bits) 1 16 set_key_id_and_ctr-SetsByte (kid ++ ctr)
            (first ∷ []) (take (k + n) rest) (drop (k + n) rest) 0 (omega arith)
            (omega (arith, length-take (k + n) rest, length-append kid ctr))
            (omega (arith, length-append kid ctr))
            (All-append IsByte kid ctr (as_min_be_bytes-IsByte h.key_id)
              (as_min_be_bytes-IsByte count)))

  pub serialize_lem :
      (h : ExtendedHeader) (b : ℕ) (rest : List ℕ)
      → h.key_id < 2 ^ 64
      → IsCount h.frame_count
      → size h ≤ length (b ∷ rest)
      → serialize bits h (b ∷ rest)
        ≡ ok (
            first_byte b (length_in_bytes h.frame_count - 1) (min_len_in_bytes h.key_id - 1)
            ∷ ((as_min_be_bytes h.key_id ++ as_be_bytes h.frame_count)
                ++ drop (min_len_in_bytes h.key_id + length_in_bytes h.frame_count) rest))
  serialize_lem h b rest u c fits = serialize_with_lem 1 h b rest (omega arith) u c fits

  -- A buffer that is too small is refused, and nothing is written.
  pub serialize_too_small :
      (h : ExtendedHeader) (buffer : List ℕ)
      → length buffer < size h
      → serialize bits h buffer ≡ err (other (buffer_too_small (length buffer) (size h)))
  serialize_too_small h buffer small =
      unfold serialize_with in rw (lt→ltb (length buffer) (size h) small)
