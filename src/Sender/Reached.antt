-- ===== src/Sender/Reached.antt =====
-- The senders of a running program: what any sequence of calls makes of a new one.
use secure_frame_rs.Prelude.{
  ℕ, ◌≡◌, List, length, take, drop, inl, inr, Option-cases, lt-or-le, ◌++◌,
}
use mathlib.Core.Path.{subst}
use secure_frame_rs.KeyId.{KeyId, InRange}
use secure_frame_rs.Outcome.{Outcome, ok, err, panic}
use secure_frame_rs.Bitfield.{Msb0}
use secure_frame_rs.Header.FrameCount.{from_u64}
use secure_frame_rs.Header.FrameCount.Wheel.{advance, increment-IsOnWheel}
use secure_frame_rs.Header.Codec.RoundTrip.{encode}
use secure_frame_rs.Crypto.CipherSuite.{CipherSuiteVariant}
use secure_frame_rs.Crypto.Ring
use secure_frame_rs.Crypto.Aead
use secure_frame_rs.Sender.{Sender, with_cipher_suite, encrypt, set_encryption_key}
use secure_frame_rs.Sender.Frames.{next_header, sent_with}
use secure_frame_rs.Sender.Refusals.{encrypt_no_key, encrypt_past_end}
use secure_frame_rs.Sender.WellFormed.{
  IsWellFormed, with_cipher_suite-IsWellFormed, set_encryption_key-IsWellFormed,
}
use secure_frame_rs.Sender.Described.{encrypt_fits}

-- One call with any arguments, whatever it returns.
pub data Step (bits : Msb0) (ring : Ring.Ring) (s : Sender) : Sender → Type 1 where
  sets :
      {s' : Sender} (material : List ℕ) (out : Outcome (Unit {0}))
      → set_encryption_key ring material s ≡ (out, s')
      → Step bits ring s s'
  encrypts :
      {s' : Sender} (payload : List ℕ) (skip : ℕ) (out : Outcome (List ℕ))
      → encrypt bits ring payload skip s ≡ (out, s')
      → Step bits ring s s'

pub data Reached (bits : Msb0) (ring : Ring.Ring) (k : KeyId) (v : CipherSuiteVariant)
    : Sender → Type 1 where
  start : Reached bits ring k v (with_cipher_suite k v)
  later : {s s' : Sender} → Reached bits ring k v s → Step bits ring s s' → Reached bits ring k v s'

advanced :
    (v : CipherSuiteVariant) (s : Sender)
    → IsWellFormed v s
    → IsWellFormed v (record s { frame_count = advance 1 s.frame_count })
advanced v s formed = record {
  suite = formed.suite;
  keyed = formed.keyed;
  key_in_range = formed.key_in_range;
  on_wheel = (increment-IsOnWheel s.frame_count formed.on_wheel).1;
}

sent_with-IsWellFormed :
    (v : CipherSuiteVariant) (front : List ℕ) (s : Sender) (out : Outcome (List ℕ) × List ℕ)
    → IsWellFormed v s
    → IsWellFormed v (sent_with front s out).1
sent_with-IsWellFormed v front s (ok tag, io) f = record {
  suite = f.suite;
  keyed = f.keyed;
  key_in_range = f.key_in_range;
  on_wheel = f.on_wheel;
}
sent_with-IsWellFormed v front s (err e, io) f = record {
  suite = f.suite;
  keyed = f.keyed;
  key_in_range = f.key_in_range;
  on_wheel = f.on_wheel;
}
sent_with-IsWellFormed v front s (panic, io) f = record {
  suite = f.suite;
  keyed = f.keyed;
  key_in_range = f.key_in_range;
  on_wheel = f.on_wheel;
}

-- Encrypting any payload, with whatever result, keeps a sender well formed.
pub encrypt-IsWellFormed :
    (bits : Msb0) (ring : Ring.Ring) (v : CipherSuiteVariant) (payload : List ℕ) (skip : ℕ)
    (s : Sender)
    → IsWellFormed v s
    → IsWellFormed v (encrypt bits ring payload skip s).1
encrypt-IsWellFormed bits ring v payload skip s formed = elim (Option-cases s.secret) [
  | inl missing ↦ rw (encrypt_no_key bits ring payload skip s missing) formed
  | inr (secret, found) ↦ elim (lt-or-le (length payload) skip) [
    | inl short ↦
        rw (encrypt_past_end bits ring secret payload skip s found formed.on_wheel short)
          (advanced v s formed)
    | inr fits ↦ rw (encrypt_fits bits ring v secret payload skip s formed found fits) (
        sent_with-IsWellFormed v (take skip payload ++ encode (next_header s))
          (record s { frame_count = advance 1 s.frame_count })
          (Aead.encrypt ring s.cipher_suite secret (encode (next_header s))
            (from_u64 s.frame_count.current_frame_count) (drop skip payload))
          (advanced v s formed))
  ]
]

Step-IsWellFormed :
    {bits : Msb0} {ring : Ring.Ring} {v : CipherSuiteVariant} {s s' : Sender}
    → Step bits ring s s'
    → IsWellFormed v s
    → IsWellFormed v s'
Step-IsWellFormed {ring = ring} {v = v} {s = s} (sets material out e) formed =
    subst (λ (t : Outcome (Unit {0}) × Sender). IsWellFormed v t.1) e
      (set_encryption_key-IsWellFormed ring v material s formed)
Step-IsWellFormed {bits = bits} {ring = ring} {v = v} {s = s} (encrypts payload skip out e) formed =
    subst (λ (t : Outcome (List ℕ) × Sender). IsWellFormed v t.1) e
      (encrypt-IsWellFormed bits ring v payload skip s formed)

-- Every sender that a new one whose key id is a u8 or a u64 becomes by any sequence of calls that set
-- keys and encrypt, errors and panics among them, is well formed.
pub Reached-IsWellFormed :
    (bits : Msb0) (ring : Ring.Ring) (k : KeyId) (v : CipherSuiteVariant) (s : Sender)
    → InRange k
    → Reached bits ring k v s
    → IsWellFormed v s
Reached-IsWellFormed bits ring k v _ fits start = with_cipher_suite-IsWellFormed v k fits
Reached-IsWellFormed bits ring k v _ fits (later {s = s} earlier step) =
    Step-IsWellFormed step (Reached-IsWellFormed bits ring k v s fits earlier)
