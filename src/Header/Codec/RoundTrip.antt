-- ===== src/Header/Codec/RoundTrip.antt =====
-- Encoding a header and decoding what was written.
use secure_frame_rs.Prelude.{ℕ, zero, ◌-◌, ◌≤◌, ◌≡◌, arith, ◌∙◌, sym, ap}
use secure_frame_rs.Prelude.{
  List, [], ◌∷◌, ◌++◌, length, All, All-append, length-replicate, All-replicate, replicate-add,
  replicate,
}
use secure_frame_rs.Outcome.{ok}
use secure_frame_rs.Bitfield.{Msb0}
use secure_frame_rs.Header.Util.{IsByte}
use secure_frame_rs.Header.Structs.{Header, basic, extended, IsHeader}
use secure_frame_rs.Header.Basic.Write as BasicWrite
use secure_frame_rs.Header.Extended.Write as ExtendedWrite
use secure_frame_rs.Header.Codec.{
  to_vec_with, serialize_with, serialize, deserialize, size, to_vec, unwrap,
}
use secure_frame_rs.Header.Codec.Parse.{parse, deserialize-parse, or_panic}
use secure_frame_rs.Header.Codec.Written.{
  masked, written, written_with, written-IsByte, parse-written, length-written, written-append,
  size_bounds,
}

module _ (bits : Msb0) where
  pub serialize-written :
      (h : Header) (b : ℕ) (rest : List ℕ)
      → IsHeader h
      → size h ≤ length (b ∷ rest)
      → serialize bits h (b ∷ rest) ≡ ok (written h b rest)
  unfolding serialize_with written_with size
  serialize-written (basic h) b rest v fits = BasicWrite.serialize_lem bits h b rest v.1 fits
  serialize-written (extended h) b rest v fits =
      ExtendedWrite.serialize_lem bits h b rest v.0 v.1 fits

  -- Serializing a header with fields in range into a buffer of bytes that is long enough succeeds and keeps the buffer's
  -- length, and deserializing the buffer then gives the header back, with the low three bits of a
  -- basic key id.
  pub deserialize-serialize :
      (h : Header) (buffer : List ℕ)
      → IsHeader h
      → All IsByte buffer
      → size h ≤ length buffer
      → (out : List ℕ) × (serialize bits h buffer ≡ ok out)
        × (length out ≡ length buffer)
        × (deserialize bits out ≡ ok (masked h))
  deserialize-serialize h [] v bytes fits = absurd (omega (arith, size_bounds h v))
  deserialize-serialize h (b ∷ rest) v bytes fits = (
    written h b rest,
    serialize-written h b rest v fits,
    length-written 1 h b rest v fits,
    deserialize-parse bits (written h b rest) (written-IsByte 1 h b rest v bytes.1)
        ∙ ap or_panic (parse-written h b rest v),
  )

-- The bytes of a header.
unfoldable pub encode : Header → List ℕ
encode h = written h 0 (replicate (size h - 1) 0)

pub length-encode : (h : Header) → IsHeader h → length (encode h) ≡ size h
unfolding encode
length-encode h v = omega (
  arith,
  size_bounds h v,
  length-replicate (size h - 1) (zero),
  length-written 1 h 0 (replicate (size h - 1) 0) v,
)

pub encode-IsByte : (h : Header) → IsHeader h → All IsByte (encode h)
unfolding encode
encode-IsByte h v =
    written-IsByte 1 h 0 (replicate (size h - 1) 0) v
      (All-replicate IsByte (size h - 1) 0 (omega arith))

module _ (bits : Msb0) where
  -- `Vec::from(&header)` does not panic.
  pub to_vec_lem : (h : Header) → IsHeader h → to_vec bits h ≡ ok (encode h)
  unfolding to_vec_with encode
  to_vec_lem h v =
      let room : replicate (size h) 0 ≡ 0 ∷ replicate (size h - 1) 0 =
        replicate-add 1 (size h - 1) (size h) 0 (omega (arith, size_bounds h v)) in
      ap (λ t. unwrap (serialize bits h t)) room
      ∙ ap unwrap (
          serialize-written bits h 0 (replicate (size h - 1) 0) v
            (omega (arith, size_bounds h v, length-replicate (size h - 1) (zero))))

  -- A header with fields in range, in front of any bytes that follow it, is decoded to itself, with
  -- the low three bits of a basic key id.
  pub deserialize-encode :
      (h : Header) (rest : List ℕ)
      → IsHeader h
      → All IsByte rest
      → deserialize bits (encode h ++ rest) ≡ ok (masked h)
  deserialize-encode h rest v bytes =
      let zeros : List ℕ = replicate (size h - 1) 0 in
      let fits : size h ≤ length (0 ∷ zeros) =
        omega (arith, size_bounds h v, length-replicate (size h - 1) (zero)) in
      let joined : encode h ++ rest ≡ written h 0 (zeros ++ rest) =
        unfold encode in sym (written-append h 0 zeros rest fits) in
      deserialize-parse bits (encode h ++ rest)
        (All-append IsByte (encode h) rest (encode-IsByte h v) bytes)
      ∙ ap or_panic (ap parse joined ∙ parse-written h 0 (zeros ++ rest) v)
