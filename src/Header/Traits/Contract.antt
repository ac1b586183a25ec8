-- ===== src/Header/Traits/Contract.antt =====
-- What the traits of headers promise together.
use secure_frame_rs.Prelude.{ℕ, ◌≤◌, ◌<◌, ◌≡◌, List, length, true, All, ◌⊎◌, inl, inr, lt-or-le}
use secure_frame_rs.Outcome.{ok, err, other, buffer_too_small}
use secure_frame_rs.Header.Util.{IsByte}
use secure_frame_rs.Header.Traits.{HeaderFields, Serialization, Deserialization}

-- `kept` is what comes back of a header whose fields are in range.
pub record IsCodec {Self KeyIdType : Type 0} (fields : HeaderFields Self KeyIdType)
    (writer : Serialization Self) (reader : Deserialization Self) (InRange : Self → Type 0)
    (kept : Self → Self) : Type 0 where
  -- A buffer that is shorter than `size` is refused with both lengths.
  pub refuses :
      (h : Self) (buffer : List ℕ)
      → length buffer < fields.size h
      → writer.serialize h buffer ≡ err (other (buffer_too_small (length buffer) (fields.size h)))
  -- Any other is written to and keeps its length, passes the check, and is read.
  pub reads :
      (h : Self) (buffer : List ℕ)
      → InRange h
      → All IsByte buffer
      → fields.size h ≤ length buffer
      → (out : List ℕ) × (writer.serialize h buffer ≡ ok out)
        × (length out ≡ length buffer)
        × (reader.is_valid out ≡ ok true)
        × (reader.deserialize out ≡ ok (kept h))

module _ {Self KeyIdType : Type 0} {fields : HeaderFields Self KeyIdType}
    {writer : Serialization Self} {reader : Deserialization Self} {InRange : Self → Type 0}
    {kept : Self → Self} (codec : IsCodec fields writer reader InRange kept) where
  -- What serializing into a buffer of any length comes to.
  abbrev pub Serialized : Self → List ℕ → Type 0
  Serialized h buffer =
      ((length buffer < fields.size h)
        × (writer.serialize h buffer
            ≡ err (other (buffer_too_small (length buffer) (fields.size h)))))
      ⊎ ((fields.size h ≤ length buffer)
          × (out : List ℕ) × (writer.serialize h buffer ≡ ok out)
          × (length out ≡ length buffer)
          × (reader.is_valid out ≡ ok true)
          × (reader.deserialize out ≡ ok (kept h)))

  pub serialize-Serialized :
      (h : Self) (buffer : List ℕ) → InRange h → All IsByte buffer → Serialized h buffer
  serialize-Serialized h buffer range bytes = elim (lt-or-le (length buffer) (fields.size h)) [
    | inl small ↦ inl (small, codec.refuses h buffer small)
    | inr fits ↦
        let (out, written, long, valid, read) = codec.reads h buffer range bytes fits in
        inr (fits, out, written, long, valid, read)
  ]
