-- ===== src/Header/Traits.antt =====
-- src/header/mod.rs: the traits of headers, and their implementations.
pub mod Contract
pub mod Passes
pub mod Checked
pub mod Implementors
use secure_frame_rs.Prelude.{ℕ, List, Bool}
use secure_frame_rs.KeyId.{KeyId}
use secure_frame_rs.Outcome.{Outcome}
use secure_frame_rs.Bitfield.{Msb0}
use secure_frame_rs.Header.FrameCount.{FrameCount}
use secure_frame_rs.Header.Structs.{BasicHeader, ExtendedHeader, Header}
use secure_frame_rs.Header.Basic
use secure_frame_rs.Header.Extended
use secure_frame_rs.Header.Codec

pub record HeaderFields (Self KeyIdType : Type 0) : Type 0 where
  pub frame_count : Self → FrameCount
  pub key_id : Self → KeyIdType
  pub size : Self → ℕ

-- The buffer that was written to is the result.
pub record Serialization (Self : Type 0) : Type 0 where
  pub serialize : Self → List ℕ → Outcome (List ℕ)

pub record Deserialization (DeserializedOutput : Type 0) : Type 0 where
  pub deserialize : List ℕ → Outcome DeserializedOutput
  pub is_valid : List ℕ → Outcome Bool

abbrev pub basic_fields : HeaderFields BasicHeader ℕ
basic_fields = record {
  frame_count = λ h. h.frame_count;
  key_id = λ h. h.key_id;
  size = Basic.size;
}

abbrev pub extended_fields : HeaderFields ExtendedHeader ℕ
extended_fields = record {
  frame_count = λ h. h.frame_count;
  key_id = λ h. h.key_id;
  size = Extended.size;
}

abbrev pub header_fields : HeaderFields Header KeyId
header_fields = record { frame_count = Codec.frame_count; key_id = Codec.key_id; size = Codec.size }

module _ (bits : Msb0) where
  abbrev pub basic_serialization : Serialization BasicHeader
  basic_serialization = record { serialize = Basic.serialize bits }

  abbrev pub extended_serialization : Serialization ExtendedHeader
  extended_serialization = record { serialize = Extended.serialize bits }

  abbrev pub header_serialization : Serialization Header
  header_serialization = record { serialize = Codec.serialize bits }

  abbrev pub basic_deserialization : Deserialization BasicHeader
  basic_deserialization = record {
    deserialize = Basic.deserialize bits;
    is_valid = Basic.is_valid bits;
  }

  abbrev pub extended_deserialization : Deserialization ExtendedHeader
  extended_deserialization = record {
    deserialize = Extended.deserialize bits;
    is_valid = Extended.is_valid bits;
  }

  abbrev pub header_deserialization : Deserialization Header
  header_deserialization = record {
    deserialize = Codec.deserialize bits;
    is_valid = Codec.is_valid bits;
  }
