-- ===== src/Header/Generated.antt =====
-- examples/generate_headers.rs: the headers of the first key ids, written and read back.
use secure_frame_rs.Prelude.{
  ◌%◌, length, ℕ, zero, suc, ◌+◌, ◌^◌, ◌≤◌, ◌<◌, ◌≡◌, ap, ◌∙◌, refl, arith, List, [], ◌∷◌,
  All-replicate, replicate,
}
use secure_frame_rs.KeyId
use secure_frame_rs.KeyId.{KeyId, FitsHeader, from_u64_roundtrip}
use secure_frame_rs.Outcome.{Outcome, ok, ◌>>=◌}
use secure_frame_rs.Bitfield.{Msb0}
use secure_frame_rs.Header.Util.{IsByte, min_len_in_bytes}
use secure_frame_rs.Header.Util.Minimal.{min_len_in_bytes-le}
use secure_frame_rs.Header.FrameCount.{length_in_bytes}
use secure_frame_rs.Header.Basic
use secure_frame_rs.Header.Extended
use secure_frame_rs.Header.Structs.{Header, IsHeader}
use secure_frame_rs.Header.Codec.{unwrap, with_frame_count, new, serialize, deserialize, size}
use secure_frame_rs.Header.Codec.Written.{masked}
use secure_frame_rs.UnitTests.Util as Util
use secure_frame_rs.Header.Codec.RoundTrip.{deserialize-serialize}

abbrev pub bin2string : List ℕ → List ℕ
bin2string bin = Util.bin2string bin

-- What one round prints: the bytes as text, and what they are read as.
abbrev pub Line : Type 0
Line = List ℕ × Outcome Header

module _ (bits : Msb0) where
  -- `for k in k..k + rounds`
  unfoldable pub generate_headers : ℕ → ℕ → Outcome (List Line)
  generate_headers zero k = ok []
  generate_headers (suc rounds) k = do
    let header : Header = new (KeyId.from_u64 k)
    buffer ← unwrap (serialize bits header (replicate 4 0))
    rest ← generate_headers rounds (k + 1)
    ok ((bin2string buffer, deserialize bits buffer) ∷ rest)

-- Every line ends with the header of its key id.
abbrev pub AreRead : ℕ → List Line → Type 0
AreRead k [] = Unit
AreRead k (line ∷ lines) = (line.1 ≡ ok (new (KeyId.from_u64 k))) × AreRead (k + 1) lines

-- The header of a key id below 2 ^ 16 and of the count 0 takes at most four bytes.
new-fits :
    (k : KeyId)
    → FitsHeader k
    → KeyId.to_u64 k < 2 ^ 16
    → IsHeader (new k) × (size (new k) ≤ 4) × (masked (new k) ≡ new k)
unfolding new with_frame_count size Basic.size Extended.size length_in_bytes masked KeyId.to_u64
new-fits (KeyId.basic k) fits small =
    let zero_len : min_len_in_bytes 0 ≤ 1 = min_len_in_bytes-le 1 0 (omega arith) (omega arith) in
    let same : k % 8 ≡ k = omega arith in
    ((omega arith, omega arith), omega (arith, zero_len), rw same refl)
new-fits (KeyId.extended k) fits small =
    let zero_len : min_len_in_bytes 0 ≤ 1 = min_len_in_bytes-le 1 0 (omega arith) (omega arith) in
    let len : min_len_in_bytes k ≤ 2 =
      min_len_in_bytes-le 2 k (omega arith) (omega (arith, small)) in
    ((omega arith, omega arith), omega (arith, zero_len, len), refl)

module _ (bits : Msb0) where
  one_header :
      (k : ℕ)
      → k < 2 ^ 16
      → (buffer : List ℕ) × (serialize bits (new (KeyId.from_u64 k)) (replicate 4 0) ≡ ok buffer)
        × (deserialize bits buffer ≡ ok (new (KeyId.from_u64 k)))
  one_header k small =
      let (fits_header, same) = from_u64_roundtrip k (omega (arith, small)) in
      let below : KeyId.to_u64 (KeyId.from_u64 k) < 2 ^ 16 = rw same small in
      let (in_range, short, kept) = new-fits (KeyId.from_u64 k) fits_header below in
      let (buffer, written, _, read) =
        deserialize-serialize bits (new (KeyId.from_u64 k)) (replicate 4 0) in_range
          (All-replicate IsByte 4 0 (omega arith)) short in
      (buffer, written, read ∙ ap ok kept)

  -- For key ids below 2 ^ 16, which a limit of type u16 asks for, no round panics, and every header
  -- that is written is read back as it was.
  pub generate_headers-AreRead :
      (rounds k : ℕ)
      → rounds + k ≤ 2 ^ 16
      → (lines : List Line) × (generate_headers bits rounds k ≡ ok lines)
        × (length lines ≡ rounds)
        × AreRead k lines
  unfolding generate_headers
  generate_headers-AreRead zero k small = ([], refl, refl, tt)
  generate_headers-AreRead (suc rounds) k small =
      let (buffer, written, read) = one_header k (omega (arith, small)) in
      let (lines, generated, len, are_read) =
        generate_headers-AreRead rounds (k + 1) (omega (arith, small)) in
      (
        (bin2string buffer, deserialize bits buffer) ∷ lines,
        rw written (rw generated refl),
        ap suc len,
        (read, are_read),
      )
