-- ===== src/Header/Extended/Read.antt =====
-- What the deserialization of an extended header reads, on every buffer.
use secure_frame_rs.Prelude.{ℕ, ◌+◌, ◌-◌, ◌/◌, ◌%◌, ◌^◌, ◌≤◌, ◌<◌, ◌≡◌, arith, ◌∙◌, sym, ap, ap₂}
use secure_frame_rs.Prelude.{
  List, [], ◌∷◌, ◌++◌, length, take, drop, replicate, le→ltb, lt→ltb, ltb, leb, false, ◌==◌, ◌&&◌,
  take-append-drop, length-take, All, All-take, All-drop, append_assoc, length-append,
  drop-append_len, reverse, length-drop, length-reverse, All-reverse, All-append,
}
use mathlib.Core.List.{reverse-append, reverse-reverse}
use secure_frame_rs.Outcome.{Outcome, ok, panic, ◌>>=◌}
use secure_frame_rs.Bitfield.{Msb0, field}
use secure_frame_rs.Header.Util.{IsByte, from_be_bytes}
use secure_frame_rs.Header.Util.Bytes.{from_be_bytes-zeros}
use secure_frame_rs.Header.FrameCount.{from_u64}
use secure_frame_rs.Header.Structs.{ExtendedHeader}
use secure_frame_rs.Header.Loops.{for_enumerate}
use secure_frame_rs.Header.Extended.Fill.{fill_from_end}
use secure_frame_rs.Header.Extended.Remainder.{remainder_lem, remainder_out_of_range}
use secure_frame_rs.Header.Extended.{
  deserialize_with, set_from_end, remainder, deserialize, is_valid,
}

-- LEN and KLEN are coded as the lengths less the constant of the build.
abbrev pub coded_length : ℕ → ℕ → ℕ
coded_length o b = b / 16 % 8 + o

abbrev pub coded_key_length : ℕ → ℕ → ℕ
coded_key_length o b = b % 8 + o

abbrev finish : List ℕ → List ℕ → ExtendedHeader
finish kid ctr = record { key_id = from_be_bytes kid; frame_count = from_u64 (from_be_bytes ctr) }

abbrev read_fields : Msb0 → List ℕ → ℕ → ℕ → Outcome ExtendedHeader
read_fields bits xs key_len ctr_len = do
  ctr_values ← remainder bits xs (key_len + ctr_len) ctr_len 0
  ctr ← for_enumerate set_from_end 0 (replicate 8 0) ctr_values
  values ← remainder bits xs (key_len + ctr_len) (ctr_len + key_len) 0
  kid ← for_enumerate set_from_end 0 (replicate 8 0) (drop ctr_len values)
  ok (finish kid ctr)

module _ (bits : Msb0) where
  open bits use {bit_range_lem, bit_lem, element_lem}

  header_lem :
      (o b : ℕ) (rest : List ℕ)
      → o ≤ 1
      → deserialize_with bits o (b ∷ rest)
        ≡ read_fields bits (b ∷ rest) (coded_key_length o b) (coded_length o b)
  unfolding deserialize_with
  header_lem o b rest build =
      let key_len : field b 5 7 + o ≡ coded_key_length o b = omega arith in
      let len : field b 1 3 + o ≡ coded_length o b = omega arith in
      rw (bit_range_lem (b ∷ rest) 0 5 7 (omega arith) (omega arith)) (
        rw key_len (
          rw (lt→ltb (coded_key_length o b) (2 ^ 8) (omega arith)) (
            rw (bit_range_lem (b ∷ rest) 0 1 3 (omega arith) (omega arith))
              (rw len (rw (lt→ltb (coded_length o b) (2 ^ 8) (omega arith)))))))

  read_fields_lem :
      (b : ℕ) (kid ctr post : List ℕ) (key_len ctr_len : ℕ)
      → length kid ≡ key_len
      → length ctr ≡ ctr_len
      → key_len ≤ 8
      → ctr_len ≤ 8
      → All IsByte kid
      → All IsByte ctr
      → read_fields bits (b ∷ (kid ++ (ctr ++ post))) key_len ctr_len ≡ ok (finish kid ctr)
  read_fields_lem b kid ctr post key_len ctr_len hk hc k8 c8 kid_bytes ctr_bytes =
      let xs : List ℕ = b ∷ (kid ++ (ctr ++ post)) in
      let ctr_read : remainder bits xs (key_len + ctr_len) ctr_len 0 ≡ ok (reverse ctr) =
        ap (λ t. remainder bits (b ∷ (kid ++ (t ++ post))) (key_len + ctr_len) ctr_len 0)
          (sym (reverse-reverse ctr))
        ∙ remainder_lem bits (reverse ctr) (b ∷ kid) post (key_len + ctr_len) 0 ctr_len
            (omega (arith, length-reverse ctr)) (omega arith) (omega arith) (omega arith)
            (All-reverse IsByte ctr ctr_bytes) in
      let all_read : remainder bits xs (key_len + ctr_len) (ctr_len + key_len) 0
          ≡ ok (reverse (kid ++ ctr)) =
        ap (λ t. remainder bits (b ∷ t) (key_len + ctr_len) (ctr_len + key_len) 0)
          (sym (append_assoc kid ctr post)
            ∙ ap (λ t. t ++ post) (sym (reverse-reverse (kid ++ ctr))))
        ∙ remainder_lem bits (reverse (kid ++ ctr)) (b ∷ []) post (key_len + ctr_len) 0
            (ctr_len + key_len) (omega (arith, length-reverse (kid ++ ctr), length-append kid ctr))
            (omega arith) (omega arith) (omega arith)
            (All-reverse IsByte (kid ++ ctr) (All-append IsByte kid ctr kid_bytes ctr_bytes)) in
      let cut : drop ctr_len (reverse (kid ++ ctr)) ≡ reverse kid =
        ap (drop ctr_len) (reverse-append kid ctr)
        ∙ drop-append_len ctr_len (reverse ctr) (reverse kid) (omega (arith, length-reverse ctr)) in
      rw ctr_read (
        rw (fill_from_end ctr (8 - ctr_len) (omega arith)) (
          rw all_read (
            rw cut (
              rw (fill_from_end kid (8 - key_len) (omega arith)) (
                ap₂ (λ k c. ok (record { key_id = k; frame_count = from_u64 c }))
                  (from_be_bytes-zeros (8 - key_len) kid)
                  (from_be_bytes-zeros (8 - ctr_len) ctr))))))

  -- A buffer that holds both coded numbers of bytes gives the numbers that those bytes write.
  pub deserialize_with_lem :
      (o b : ℕ) (rest : List ℕ)
      → o ≤ 1
      → All IsByte rest
      → coded_key_length o b + coded_length o b ≤ length rest
      → deserialize_with bits o (b ∷ rest)
        ≡ ok (
            finish
              (take (coded_key_length o b) rest)
              (take (coded_length o b) (drop (coded_key_length o b) rest)))
  deserialize_with_lem o b rest build bytes fits =
      let kl : ℕ = coded_key_length o b in
      let cl : ℕ = coded_length o b in
      let tail : List ℕ = drop kl rest in
      let split : rest ≡ take kl rest ++ (take cl tail ++ drop cl tail) =
        sym (ap (λ t. take kl rest ++ t) (take-append-drop cl tail) ∙ take-append-drop kl rest) in
      header_lem o b rest build
      ∙ ap (λ t. read_fields bits (b ∷ t) kl cl) split
      ∙ read_fields_lem b (take kl rest) (take cl tail) (drop cl tail) kl cl
          (omega (arith, length-take kl rest))
          (omega (arith, length-take cl tail, length-drop kl rest)) (omega arith) (omega arith)
          (All-take IsByte kl rest bytes) (All-take IsByte cl tail (All-drop IsByte kl rest bytes))

  pub deserialize_lem :
      (b : ℕ) (rest : List ℕ)
      → All IsByte rest
      → coded_key_length 1 b + coded_length 1 b ≤ length rest
      → deserialize bits (b ∷ rest)
        ≡ ok (
            finish
              (take (coded_key_length 1 b) rest)
              (take (coded_length 1 b) (drop (coded_key_length 1 b) rest)))
  deserialize_lem b rest bytes fits = deserialize_with_lem 1 b rest (omega arith) bytes fits

  pub deserialize_too_short :
      (b : ℕ) (rest : List ℕ)
      → length rest < coded_key_length 1 b + coded_length 1 b
      → deserialize bits (b ∷ rest) ≡ panic
  deserialize_too_short b rest short =
      header_lem 1 b rest (omega arith)
      ∙ rw (
          remainder_out_of_range bits (b ∷ rest) (coded_key_length 1 b + coded_length 1 b)
            (coded_length 1 b) 0 (omega arith) (omega arith) (omega arith) (omega arith))

  pub deserialize-nil : deserialize bits [] ≡ panic
  unfolding deserialize_with
  deserialize-nil = rw (bit_range_lem [] 0 5 7 (omega arith) (omega arith))

  -- The check looks at the flag, and at a length that is two less than what the header takes.
  pub is_valid_lem :
      (b c d : ℕ) (rest : List ℕ)
      → is_valid bits (b ∷ c ∷ d ∷ rest)
        ≡ ok ((b / 8 % 2 == 1) && leb (1 + b / 16 % 8 + b % 8) (length (b ∷ c ∷ d ∷ rest)))
  is_valid_lem b c d rest =
      unfold is_valid in
      (let xs : List ℕ = b ∷ c ∷ d ∷ rest in
        let long : ltb (length xs) 3 ≡ false = le→ltb (length xs) 3 (omega arith) in
        let flag : field b 4 4 ≡ b / 8 % 2 = omega arith in
        let len : field b 1 3 ≡ b / 16 % 8 = omega arith in
        let key : field b 5 7 ≡ b % 8 = omega arith in
        rw long (
          rw (bit_lem xs 0 4 (omega arith)) (
            rw (bit_range_lem xs 0 1 3 (omega arith) (omega arith))
              (rw (bit_range_lem xs 0 5 7 (omega arith) (omega arith)) (rw (flag, len, key))))))

  pub is_valid_short : (xs : List ℕ) → length xs < 3 → is_valid bits xs ≡ ok false
  is_valid_short xs h = unfold is_valid in rw (lt→ltb (length xs) 3 h)
