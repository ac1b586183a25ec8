-- ===== src/Header/Traits/Implementors.antt =====
-- The implementations keep the contract of the traits.
use secure_frame_rs.Prelude.{ℕ, ◌≤◌, ◌<◌, ◌≡◌, ◌⊎◌, List, length, true, All}
use secure_frame_rs.Outcome.{ok, err, other, buffer_too_small}
use secure_frame_rs.Bitfield.{Msb0}
use secure_frame_rs.Header.Util.{IsByte}
use secure_frame_rs.Header.Structs.{ExtendedHeader, Header, basic, extended, IsHeader}
use secure_frame_rs.Header.Basic.Write as BasicWrite
use secure_frame_rs.Header.Extended.Write as ExtendedWrite
use secure_frame_rs.Header.Codec
use secure_frame_rs.Header.Codec.Written.{masked}
use secure_frame_rs.Header.Traits.{
  basic_fields, basic_serialization, basic_deserialization, extended_fields, extended_serialization,
  extended_deserialization, header_fields, header_serialization, header_deserialization,
}
use secure_frame_rs.Header.Traits.Contract.{IsCodec, serialize-Serialized}
use secure_frame_rs.Header.Traits.Checked.{
  masked_basic, reads_basic, reads_extended, reads_header, refuses_header,
}

abbrev pub same : ExtendedHeader → ExtendedHeader
same h = h

module _ (bits : Msb0) where
  pub BasicHeader-IsCodec :
      IsCodec basic_fields
        (basic_serialization bits)
        (basic_deserialization bits)
        (λ h. IsHeader (basic h))
        masked_basic
  BasicHeader-IsCodec = record {
    refuses = BasicWrite.serialize_too_small bits;
    reads = reads_basic bits;
  }

  pub ExtendedHeader-IsCodec :
      IsCodec extended_fields
        (extended_serialization bits)
        (extended_deserialization bits)
        (λ h. IsHeader (extended h))
        same
  ExtendedHeader-IsCodec = record {
    refuses = ExtendedWrite.serialize_too_small bits;
    reads = reads_extended bits;
  }

  pub Header-IsCodec :
      IsCodec header_fields
        (header_serialization bits)
        (header_deserialization bits)
        IsHeader
        masked
  Header-IsCodec = record { refuses = refuses_header bits; reads = reads_header bits }

  -- Serializing a header with fields in range into a buffer of bytes: a buffer that is shorter than
  -- size() is refused with both lengths; any other is written to and keeps its length, is accepted by
  -- is_valid, and is deserialized to the header, with the low three bits of a basic key id.
  pub serialize-cases :
      (h : Header) (buffer : List ℕ)
      → IsHeader h
      → All IsByte buffer
      → ((length buffer < Codec.size h)
          × (Codec.serialize bits h buffer
              ≡ err (other (buffer_too_small (length buffer) (Codec.size h)))))
        ⊎ ((Codec.size h ≤ length buffer)
            × (out : List ℕ) × (Codec.serialize bits h buffer ≡ ok out)
            × (length out ≡ length buffer)
            × (Codec.is_valid bits out ≡ ok true)
            × (Codec.deserialize bits out ≡ ok (masked h)))
  serialize-cases h buffer range bytes = serialize-Serialized Header-IsCodec h buffer range bytes
