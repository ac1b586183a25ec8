-- ===== src/UnitTests/Senders.antt =====
-- The tests of src/sender.rs. The bytes that they give in hexadecimal are lists.
use secure_frame_rs.Prelude.{
  length, ℕ, ◌≡◌, ◌≤◌, refl, arith, List, [], ◌∷◌, ◌++◌, Bool, true, false,
}
use secure_frame_rs.KeyId
use secure_frame_rs.KeyId.{KeyId, from_u64_roundtrip}
use secure_frame_rs.Outcome.{Outcome, ok, err, ◌>>=◌, missing_encryption_key}
use secure_frame_rs.Bitfield.{Msb0}
use secure_frame_rs.Header.Codec.{unwrap}
use secure_frame_rs.Crypto.CipherSuite.{aes_gcm256_sha512}
use secure_frame_rs.Crypto.Ring
use secure_frame_rs.Sender
use secure_frame_rs.Receiver
use secure_frame_rs.Receiver.{Receiver}
use secure_frame_rs.Session.{IsSendable}
use secure_frame_rs.Session.Linked.{carried_whole}
use secure_frame_rs.Session.Setup.{Linked-new}
use secure_frame_rs.UnitTests.{are_bytes, are_bytes-IsByte, assert, bytes_eq}

-- 12345678901234567890123456789012, twice.
abbrev sixteen : List ℕ
sixteen = 18 ∷ 52 ∷ 86 ∷ 120 ∷ 144 ∷ 18 ∷ 52 ∷ 86 ∷ 120 ∷ 144 ∷ 18 ∷ 52 ∷ 86 ∷ 120 ∷ 144 ∷ 18 ∷ []

abbrev pub material : List ℕ
material = sixteen ++ sixteen

-- deadbeafcacadebaca00
abbrev pub payload : List ℕ
payload = 222 ∷ 173 ∷ 190 ∷ 175 ∷ 202 ∷ 202 ∷ 222 ∷ 186 ∷ 202 ∷ 0 ∷ []

abbrev pub key_id : KeyId
key_id = KeyId.from_u8 0

-- deadbeafcacadebacacacadebacacacadebaca00
abbrev pub long_payload : List ℕ
long_payload =
    222 ∷ 173 ∷ 190 ∷ 175 ∷ 202 ∷ 202 ∷ 222 ∷ 186 ∷ 202 ∷ 202 ∷ 202 ∷ 222 ∷ 186 ∷ 202 ∷ 202 ∷ 202
    ∷ 222 ∷ 186 ∷ 202 ∷ 0 ∷ []

-- deadbeaf0000a160a9176ba4ce7ca128df74907d422e5064d1c23529
abbrev pub wire : List ℕ
wire =
    222 ∷ 173 ∷ 190 ∷ 175 ∷ 0 ∷ 0 ∷ 161 ∷ 96 ∷ 169 ∷ 23 ∷ 107 ∷ 164 ∷ 206 ∷ 124 ∷ 161 ∷ 40 ∷ 223
    ∷ 116 ∷ 144 ∷ 125 ∷ 66 ∷ 46 ∷ 80 ∷ 100 ∷ 209 ∷ 194 ∷ 53 ∷ 41 ∷ []

-- deadbeaf0000a160a9176b6ebe53f594a64faa1f48a5246b202d13416bf671b3edae7704a862
abbrev pub long_wire : List ℕ
long_wire =
    222 ∷ 173 ∷ 190 ∷ 175 ∷ 0 ∷ 0 ∷ 161 ∷ 96 ∷ 169 ∷ 23 ∷ 107 ∷ 110 ∷ 190 ∷ 83 ∷ 245 ∷ 148 ∷ 166
    ∷ 79 ∷ 170 ∷ 31 ∷ 72 ∷ 165 ∷ 36 ∷ 107 ∷ 32 ∷ 45 ∷ 19 ∷ 65 ∷ 107 ∷ 246 ∷ 113 ∷ 179 ∷ 237 ∷ 174
    ∷ 119 ∷ 4 ∷ 168 ∷ 98 ∷ []

-- foobar is unsafe
abbrev pub foobar : List ℕ
foobar =
    102 ∷ 111 ∷ 111 ∷ 98 ∷ 97 ∷ 114 ∷ 32 ∷ 105 ∷ 115 ∷ 32 ∷ 117 ∷ 110 ∷ 115 ∷ 97 ∷ 102 ∷ 101 ∷ []

module _ (bits : Msb0) (ring : Ring.Ring) where
  unfoldable pub deadbeef_decrypt : Outcome (Unit {0})
  deadbeef_decrypt = do
    let sender = Sender.set_encryption_key ring material (Sender.new key_id)
    _ ← unwrap sender.0
    let receiver = Receiver.set_encryption_key ring key_id material Receiver.default
    _ ← unwrap receiver.0
    let sent = Sender.encrypt bits ring payload 4 sender.1
    encrypted ← unwrap sent.0
    let received = Receiver.decrypt bits ring encrypted 4 receiver.1
    decrypted ← unwrap received.0
    assert (bytes_eq decrypted payload)

  -- What the tests of the format on the wire encrypt.
  abbrev pub encrypt_on_wire : List ℕ → Outcome (List ℕ)
  encrypt_on_wire text = do
    let sender = Sender.set_encryption_key ring material (Sender.new key_id)
    _ ← unwrap sender.0
    let receiver = Receiver.set_encryption_key ring key_id material Receiver.default
    _ ← unwrap receiver.0
    unwrap (Sender.encrypt bits ring text 4 sender.1).0

  unfoldable pub deadbeef_on_wire : Outcome (Unit {0})
  deadbeef_on_wire = do encrypted ← encrypt_on_wire payload; assert (bytes_eq encrypted wire)

  unfoldable pub deadbeef_on_wire_long : Outcome (Unit {0})
  deadbeef_on_wire_long = do
    encrypted ← encrypt_on_wire long_payload
    assert (bytes_eq encrypted long_wire)

  -- `assert_eq!(encrypted, Err(SframeError::MissingEncryptionKey))`
  abbrev lacks_encryption_key : Outcome (List ℕ) → Bool
  lacks_encryption_key (err missing_encryption_key) = true
  lacks_encryption_key _ = false

  unfoldable pub fail_on_missing_secret : Outcome (Unit {0})
  fail_on_missing_secret =
      assert
        (lacks_encryption_key (Sender.encrypt bits ring foobar 0 (Sender.new (KeyId.from_u8 1))).0)

  IsSendable-skip_4 :
      (text : List ℕ)
      → length text ≤ Ring.Ring.max_plaintext_len ring
      → 4 ≤ length text
      → are_bytes text ≡ true
      → IsSendable ring (record { payload = text; skip = 4 })
  IsSendable-skip_4 text short room bytes = record {
    skipped = room;
    short = short;
    bytes = are_bytes-IsByte text bytes;
  }

  -- The test `deadbeef_decrypt` passes with every crate `ring` that can seal ten bytes.
  pub deadbeef_decrypt_passes : 10 ≤ Ring.Ring.max_plaintext_len ring → deadbeef_decrypt ≡ ok tt
  unfolding deadbeef_decrypt
  deadbeef_decrypt_passes short =
      let (secret, s, r, keyed, stored, linked, _) =
        Linked-new ring aes_gcm256_sha512 key_id material (omega arith) in
      let (frame, left, sent, received) =
        carried_whole bits ring secret 0 (record { payload = payload; skip = 4 }) s r linked
          (omega arith) (IsSendable-skip_4 payload short (omega arith) refl) in
      rw keyed (rw stored (rw sent (rw received refl)))

  missing_secret_passes : fail_on_missing_secret ≡ ok tt
  unfolding fail_on_missing_secret Sender.encrypt
  missing_secret_passes = refl
