-- ===== src/Header/Traits/Checked.antt =====
-- What the check makes of a serialized header, and what it is deserialized to.
use secure_frame_rs.Prelude.{
  ℕ, ◌%◌, ◌≤◌, ◌<◌, ◌≡◌, ◌∙◌, sym, ap, refl, arith, List, [], ◌∷◌, length, true, false, All,
}
use secure_frame_rs.Outcome.{Outcome, ok, err, panic, map_ok, other, buffer_too_small}
use secure_frame_rs.Bitfield.{Msb0}
use secure_frame_rs.Header.Util.{IsByte}
use secure_frame_rs.Header.Structs.{BasicHeader, ExtendedHeader, Header, basic, extended, IsHeader}
use secure_frame_rs.Header.Basic
use secure_frame_rs.Header.Basic.Write as BasicWrite
use secure_frame_rs.Header.Extended
use secure_frame_rs.Header.Extended.Write as ExtendedWrite
use secure_frame_rs.Header.Codec
use secure_frame_rs.Header.Codec.Parse.{deserialize-parse, or_panic}
use secure_frame_rs.Header.Codec.Written.{
  masked, written, written-IsByte, parse-written, length-written, size_bounds,
}
use secure_frame_rs.Header.Traits.Passes.{written-basic_valid, written-extended_valid}
use secure_frame_rs.Header.Codec.RoundTrip.{serialize-written}

-- A basic header has room for three bits of its key id.
abbrev pub masked_basic : BasicHeader → BasicHeader
masked_basic h = record h { key_id = h.key_id % 8 }

basic_of : (r : Outcome BasicHeader) (h : BasicHeader) → map_ok basic r ≡ ok (basic h) → r ≡ ok h
basic_of (ok g) h e = cc
basic_of (err x) h e = cc
basic_of panic h e = cc

extended_of :
    (r : Outcome ExtendedHeader) (h : ExtendedHeader)
    → map_ok extended r ≡ ok (extended h)
    → r ≡ ok h
extended_of (ok g) h e = cc
extended_of (err x) h e = cc
extended_of panic h e = cc

module _ (bits : Msb0) where
  decodes :
      (h : Header) (b : ℕ) (rest : List ℕ)
      → IsHeader h
      → All IsByte rest
      → Codec.deserialize bits (written h b rest) ≡ ok (masked h)
  decodes h b rest v bytes =
      deserialize-parse bits (written h b rest) (written-IsByte 1 h b rest v bytes)
      ∙ ap or_panic (parse-written h b rest v)

  as_basic :
      (xs : List ℕ) (h : BasicHeader)
      → Basic.is_valid bits xs ≡ ok true
      → Codec.deserialize bits xs ≡ ok (basic h)
      → Basic.deserialize bits xs ≡ ok h
  unfolding Codec.deserialize_with
  as_basic xs h valid decoded =
      basic_of (Basic.deserialize bits xs) h (sym (rw valid refl) ∙ decoded)

  as_extended :
      (xs : List ℕ) (h : ExtendedHeader)
      → Basic.is_valid bits xs ≡ ok false
      → Codec.deserialize bits xs ≡ ok (extended h)
      → Extended.deserialize bits xs ≡ ok h
  unfolding Codec.deserialize_with
  as_extended xs h valid decoded =
      extended_of (Extended.deserialize bits xs) h (sym (rw valid refl) ∙ decoded)

  checks_basic : (xs : List ℕ) → Basic.is_valid bits xs ≡ ok true → Codec.is_valid bits xs ≡ ok true
  unfolding Codec.is_valid
  checks_basic xs valid = rw valid refl

  checks_extended :
      (xs : List ℕ)
      → Basic.is_valid bits xs ≡ ok false
      → Extended.is_valid bits xs ≡ ok true
      → Codec.is_valid bits xs ≡ ok true
  unfolding Codec.is_valid
  checks_extended xs not_basic valid = rw not_basic valid

  pub reads_basic :
      (h : BasicHeader) (buffer : List ℕ)
      → IsHeader (basic h)
      → All IsByte buffer
      → Basic.size h ≤ length buffer
      → (out : List ℕ) × (Basic.serialize bits h buffer ≡ ok out)
        × (length out ≡ length buffer)
        × (Basic.is_valid bits out ≡ ok true)
        × (Basic.deserialize bits out ≡ ok (masked_basic h))
  unfolding masked Codec.size Codec.serialize_with
  reads_basic h [] v bytes fits = absurd (omega (arith, size_bounds (basic h) v))
  reads_basic h (b ∷ rest) v bytes fits =
      let valid : Basic.is_valid bits (written (basic h) b rest) ≡ ok true =
        written-basic_valid bits h b rest v.1 in
      (
        written (basic h) b rest,
        serialize-written bits (basic h) b rest v fits,
        length-written 1 (basic h) b rest v fits,
        valid,
        as_basic (written (basic h) b rest) (masked_basic h) valid
            (decodes (basic h) b rest v bytes.1),
      )

  pub reads_extended :
      (h : ExtendedHeader) (buffer : List ℕ)
      → IsHeader (extended h)
      → All IsByte buffer
      → Extended.size h ≤ length buffer
      → (out : List ℕ) × (Extended.serialize bits h buffer ≡ ok out)
        × (length out ≡ length buffer)
        × (Extended.is_valid bits out ≡ ok true)
        × (Extended.deserialize bits out ≡ ok h)
  unfolding masked Codec.size Codec.serialize_with
  reads_extended h [] v bytes fits = absurd (omega (arith, size_bounds (extended h) v))
  reads_extended h (b ∷ rest) v bytes fits =
      let (not_basic, valid) = written-extended_valid bits h b rest v.0 v.1 in
      (
        written (extended h) b rest,
        serialize-written bits (extended h) b rest v fits,
        length-written 1 (extended h) b rest v fits,
        valid,
        as_extended (written (extended h) b rest) h not_basic
            (decodes (extended h) b rest v bytes.1),
      )

  written-valid :
      (h : Header) (b : ℕ) (rest : List ℕ)
      → IsHeader h
      → Codec.is_valid bits (written h b rest) ≡ ok true
  written-valid (basic h) b rest v =
      checks_basic (written (basic h) b rest) (written-basic_valid bits h b rest v.1)
  written-valid (extended h) b rest v =
      let (not_basic, valid) = written-extended_valid bits h b rest v.0 v.1 in
      checks_extended (written (extended h) b rest) not_basic valid

  pub reads_header :
      (h : Header) (buffer : List ℕ)
      → IsHeader h
      → All IsByte buffer
      → Codec.size h ≤ length buffer
      → (out : List ℕ) × (Codec.serialize bits h buffer ≡ ok out)
        × (length out ≡ length buffer)
        × (Codec.is_valid bits out ≡ ok true)
        × (Codec.deserialize bits out ≡ ok (masked h))
  reads_header h [] v bytes fits = absurd (omega (arith, size_bounds h v))
  reads_header h (b ∷ rest) v bytes fits = (
    written h b rest,
    serialize-written bits h b rest v fits,
    length-written 1 h b rest v fits,
    written-valid h b rest v,
    decodes h b rest v bytes.1,
  )

  pub refuses_header :
      (h : Header) (buffer : List ℕ)
      → length buffer < Codec.size h
      → Codec.serialize bits h buffer
        ≡ err (other (buffer_too_small (length buffer) (Codec.size h)))
  unfolding Codec.size Codec.serialize_with
  refuses_header (basic h) buffer small = BasicWrite.serialize_too_small bits h buffer small
  refuses_header (extended h) buffer small = ExtendedWrite.serialize_too_small bits h buffer small
