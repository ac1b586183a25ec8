-- ===== src/Header/Codec/Written.antt =====
-- The bytes that the serialization of a header writes, and what the format's description reads there.
use secure_frame_rs.Prelude.{ℕ, ◌+◌, ◌-◌, ◌/◌, ◌%◌, ◌≤◌, ◌≡◌, refl, arith, ◌∙◌, sym, ap, ap₂}
use secure_frame_rs.Prelude.{
  List, ◌∷◌, ◌++◌, length, drop, le→leb, All, All-append, All-drop, length-append, length-drop,
  append_assoc, take-append_len, drop-append_le, drop-append_len, some,
}
use secure_frame_rs.Header.Util.{IsByte, from_be_bytes, as_min_be_bytes, min_len_in_bytes}
use secure_frame_rs.Header.Util.Bytes.{
  from_be_bytes-as_min_be_bytes, as_min_be_bytes-IsByte, min_len_in_bytes_bounds,
  length-as_min_be_bytes,
}
use secure_frame_rs.Header.FrameCount.{from_u64, length_in_bytes, as_be_bytes}
use secure_frame_rs.Header.Structs.{Header, basic, extended, IsHeader}
use secure_frame_rs.Header.Basic
use secure_frame_rs.Header.Extended
use secure_frame_rs.Header.Basic.Write as BasicWrite
use secure_frame_rs.Header.Extended.Write as ExtendedWrite
use secure_frame_rs.Header.Codec.{size}
use secure_frame_rs.Header.Codec.Parse.{parse, counter_length, key_length}

parse-basic :
    (b : ℕ) (ctr post : List ℕ)
    → b / 8 % 2 ≡ 0
    → counter_length b ≡ length ctr
    → parse (b ∷ (ctr ++ post))
      ≡ some (basic (record { key_id = b % 8; frame_count = from_u64 (from_be_bytes ctr) }))
unfolding parse
parse-basic b ctr post flag len = rw flag (
    rw (len, le→leb (length ctr) (length (ctr ++ post)) (omega (arith, length-append ctr post)))
      (rw (take-append_len (length ctr) ctr post refl)))

parse-extended :
    (b : ℕ) (kid ctr post : List ℕ)
    → b / 8 % 2 ≡ 1
    → key_length b ≡ length kid
    → counter_length b ≡ length ctr
    → parse (b ∷ (kid ++ (ctr ++ post)))
      ≡ some (
          extended
            (record { key_id = from_be_bytes kid; frame_count = from_u64 (from_be_bytes ctr) }))
unfolding parse
parse-extended b kid ctr post flag klen len = rw flag (
    rw
      (
        len,
        klen,
        le→leb (length kid + length ctr) (length (kid ++ (ctr ++ post)))
            (omega (arith, length-append kid (ctr ++ post), length-append ctr post)),
      )
      (rw (
        take-append_len (length kid) kid (ctr ++ post) refl,
        drop-append_len (length kid) kid (ctr ++ post) refl,
        take-append_len (length ctr) ctr post refl,
      )))

-- A basic header has room for three bits of its key id.
unfoldable pub masked : Header → Header
masked (basic h) = basic (record h { key_id = h.key_id % 8 })
masked (extended h) = extended h

-- What `serialize` writes over the buffer `b ∷ rest`; the first argument is the constant `LEN_OFFSET`
-- of the build.
unfoldable pub written_with : ℕ → Header → ℕ → List ℕ → List ℕ
written_with o (basic h) b rest =
    BasicWrite.first_byte b (length_in_bytes h.frame_count - o) h.key_id
    ∷ (as_be_bytes h.frame_count ++ drop (length_in_bytes h.frame_count) rest)
written_with o (extended h) b rest =
    ExtendedWrite.first_byte b (length_in_bytes h.frame_count - o) (min_len_in_bytes h.key_id - o)
    ∷ ((as_min_be_bytes h.key_id ++ as_be_bytes h.frame_count)
        ++ drop (min_len_in_bytes h.key_id + length_in_bytes h.frame_count) rest)

abbrev pub written : Header → ℕ → List ℕ → List ℕ
written = written_with 1

pub written-IsByte :
    (o : ℕ) (h : Header) (b : ℕ) (rest : List ℕ)
    → IsHeader h
    → All IsByte rest
    → All IsByte (written_with o h b rest)
unfolding written_with as_be_bytes length_in_bytes
written-IsByte o (basic h) b rest v bytes =
    let count : ℕ = h.frame_count.numeric_value in
    (
      omega (arith, min_len_in_bytes_bounds count v.1),
      All-append IsByte (as_min_be_bytes count) (drop (min_len_in_bytes count) rest)
          (as_min_be_bytes-IsByte count) (All-drop IsByte (min_len_in_bytes count) rest bytes),
    )
written-IsByte o (extended h) b rest v bytes =
    let count : ℕ = h.frame_count.numeric_value in
    let kid : List ℕ = as_min_be_bytes h.key_id in
    let ctr : List ℕ = as_min_be_bytes count in
    (
      omega (arith, min_len_in_bytes_bounds count v.1, min_len_in_bytes_bounds h.key_id v.0),
      All-append IsByte (kid ++ ctr)
          (drop (min_len_in_bytes h.key_id + min_len_in_bytes count) rest)
          (All-append IsByte kid ctr (as_min_be_bytes-IsByte h.key_id)
            (as_min_be_bytes-IsByte count))
          (All-drop IsByte (min_len_in_bytes h.key_id + min_len_in_bytes count) rest bytes),
    )

pub parse-written :
    (h : Header) (b : ℕ) (rest : List ℕ) → IsHeader h → parse (written h b rest) ≡ some (masked h)
parse-written (basic h) b rest v =
    let count : ℕ = h.frame_count.numeric_value in
    let n : ℕ = min_len_in_bytes count in
    let ctr : List ℕ = as_min_be_bytes count in
    let bounds : (1 ≤ n) × (n ≤ 8) = min_len_in_bytes_bounds count v.1 in
    let first : ℕ = BasicWrite.first_byte b (n - 1) h.key_id in
    let key : first % 8 ≡ h.key_id % 8 = omega arith in
    unfold written_with masked as_be_bytes length_in_bytes in
    (parse-basic first ctr (drop n rest) (omega arith)
        (omega (arith, length-as_min_be_bytes count v.1))
      ∙ ap₂ (λ k c. some (basic (record { key_id = k; frame_count = from_u64 c }))) key
          (from_be_bytes-as_min_be_bytes count v.1))
parse-written (extended h) b rest v =
    let count : ℕ = h.frame_count.numeric_value in
    let n : ℕ = min_len_in_bytes count in
    let k : ℕ = min_len_in_bytes h.key_id in
    let ctr : List ℕ = as_min_be_bytes count in
    let kid : List ℕ = as_min_be_bytes h.key_id in
    let hn : (1 ≤ n) × (n ≤ 8) = min_len_in_bytes_bounds count v.1 in
    let hk : (1 ≤ k) × (k ≤ 8) = min_len_in_bytes_bounds h.key_id v.0 in
    let first : ℕ = ExtendedWrite.first_byte b (n - 1) (k - 1) in
    let post : List ℕ = drop (k + n) rest in
    unfold written_with masked as_be_bytes length_in_bytes in
    (ap (λ t. parse (first ∷ t)) (append_assoc kid ctr post)
      ∙ parse-extended first kid ctr post (omega arith)
          (omega (arith, length-as_min_be_bytes h.key_id v.0))
          (omega (arith, length-as_min_be_bytes count v.1))
      ∙ ap₂ (λ k c. some (extended (record { key_id = k; frame_count = from_u64 c })))
          (from_be_bytes-as_min_be_bytes h.key_id v.0) (from_be_bytes-as_min_be_bytes count v.1))

pub length-written :
    (o : ℕ) (h : Header) (b : ℕ) (rest : List ℕ)
    → IsHeader h
    → size h ≤ length (b ∷ rest)
    → length (written_with o h b rest) ≡ length (b ∷ rest)
unfolding written_with as_be_bytes length_in_bytes size Basic.size Extended.size
length-written o (basic h) b rest v fits =
    let count : ℕ = h.frame_count.numeric_value in
    let n : ℕ = min_len_in_bytes count in
    omega (
      arith,
      length-append (as_min_be_bytes count) (drop n rest),
      length-as_min_be_bytes count v.1,
      length-drop n rest,
    )
length-written o (extended h) b rest v fits =
    let count : ℕ = h.frame_count.numeric_value in
    let n : ℕ = min_len_in_bytes h.key_id + min_len_in_bytes count in
    let kid : List ℕ = as_min_be_bytes h.key_id in
    let ctr : List ℕ = as_min_be_bytes count in
    omega (
      arith,
      length-append (kid ++ ctr) (drop n rest),
      length-append kid ctr,
      length-as_min_be_bytes count v.1,
      length-as_min_be_bytes h.key_id v.0,
      length-drop n rest,
    )

-- What is written does not depend on what stands behind the header.
pub written-append :
    (h : Header) (b : ℕ) (rest more : List ℕ)
    → size h ≤ length (b ∷ rest)
    → written h b (rest ++ more) ≡ written h b rest ++ more
unfolding written_with length_in_bytes size Basic.size Extended.size
written-append (basic h) b rest more fits =
    let n : ℕ = min_len_in_bytes h.frame_count.numeric_value in
    let first : ℕ = BasicWrite.first_byte b (n - 1) h.key_id in
    ap (λ t. first ∷ t)
      (ap (λ t. as_be_bytes h.frame_count ++ t) (drop-append_le n rest more (omega arith))
        ∙ sym (append_assoc (as_be_bytes h.frame_count) (drop n rest) more))
written-append (extended h) b rest more fits =
    let n : ℕ = min_len_in_bytes h.frame_count.numeric_value in
    let k : ℕ = min_len_in_bytes h.key_id in
    let first : ℕ = ExtendedWrite.first_byte b (n - 1) (k - 1) in
    let fields : List ℕ = as_min_be_bytes h.key_id ++ as_be_bytes h.frame_count in
    ap (λ t. first ∷ t)
      (ap (λ t. fields ++ t) (drop-append_le (k + n) rest more (omega arith))
        ∙ sym (append_assoc fields (drop (k + n) rest) more))

pub size_bounds : (h : Header) → IsHeader h → (2 ≤ size h) × (size h ≤ 17)
unfolding length_in_bytes size Basic.size Extended.size
size_bounds (basic h) v = omega (arith, min_len_in_bytes_bounds h.frame_count.numeric_value v.1)
size_bounds (extended h) v = omega (
  arith,
  min_len_in_bytes_bounds h.frame_count.numeric_value v.1,
  min_len_in_bytes_bounds h.key_id v.0,
)
