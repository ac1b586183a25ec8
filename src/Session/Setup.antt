-- ===== src/Session/Setup.antt =====
-- Both ends from their constructors on.
use secure_frame_rs.Outcome.{ok-injective}
use secure_frame_rs.Prelude.{ℕ, ◌≡◌, ◌≤◌, ◌<◌, ◌^◌, ap, ◌∙◌, sym, refl, arith, List, some, All}
use secure_frame_rs.KeyId
use secure_frame_rs.KeyId.{KeyId, InRange, FitsHeader, from_u64_roundtrip}
use secure_frame_rs.Outcome.{ok}
use secure_frame_rs.Bitfield.{Msb0}
use secure_frame_rs.Header.FrameCount.{max_frame_count}
use secure_frame_rs.Crypto.CipherSuite.{CipherSuiteVariant, aes_gcm256_sha512}
use secure_frame_rs.Crypto.Ring
use secure_frame_rs.Crypto.Secret.{Secret}
use secure_frame_rs.Sender
use secure_frame_rs.Sender.{Sender}
use secure_frame_rs.Sender.Keys as SenderKeys
use secure_frame_rs.Receiver
use secure_frame_rs.Receiver.{Receiver}
use secure_frame_rs.Receiver.Keys as ReceiverKeys
use secure_frame_rs.Receiver.Secrets
use secure_frame_rs.Receiver.Secrets.{key_eq, key_eq_iff}
use secure_frame_rs.Session.{MediaFrame, encrypt_decrypt_frames, IsSendable}
use secure_frame_rs.Session.Linked.{Linked, payloads, exchange-payloads}

pub FitsHeader-InRange : (k : KeyId) → FitsHeader k → InRange k
FitsHeader-InRange (KeyId.basic k) h = omega arith
FitsHeader-InRange (KeyId.extended k) h = h

-- A new sender and a new receiver of the same suite that set the same material for the sender's key
-- id, which fits its header, both succeed and are linked, the window at the first count and with a
-- tolerance of at least 1.
pub Linked-new :
    (ring : Ring.Ring) (v : CipherSuiteVariant) (k : KeyId) (material : List ℕ)
    → FitsHeader k
    → (secret : Secret) × (s : Sender) × (r : Receiver) × (Sender.set_encryption_key ring material
          (Sender.with_cipher_suite k v)
        ≡ (ok tt, s))
      × (Receiver.set_encryption_key ring k material (Receiver.with_cipher_suite v) ≡ (ok tt, r))
      × Linked v secret 0 s r
      × (1 ≤ r.options.frame_validation.tolerance)
Linked-new ring v k material fits =
    let s : Sender = Sender.with_cipher_suite k v in
    let r : Receiver = Receiver.with_cipher_suite v in
    let (secret, key_fits, expanded, keyed) =
      SenderKeys.set_encryption_key_lem ring v material s refl in
    let (secret', key_fits', expanded', done, options, secrets) =
      ReceiverKeys.set_encryption_key-get ring v k material r refl in
    let r' : Receiver = (Receiver.set_encryption_key ring k material r).1 in
    let same : secret' ≡ secret = ok-injective (sym expanded' ∙ expanded) in
    let found : Secrets.get k r'.secrets ≡ some secret =
      secrets k ∙ rw ((key_eq_iff k k).1 refl) (ap some same) in
    let window : r'.options.frame_validation ≡ r.options.frame_validation =
      ap (λ (t : Receiver.ReceiverOptions). t.frame_validation) options in
    let tolerant : 1 ≤ r.options.frame_validation.tolerance = omega arith in
    let zero_on : 0 < max_frame_count = omega arith in
    (
      secret,
      record s { secret = some secret },
      r',
      keyed,
      ap (λ t. (t, r')) done,
      record {
        ready = record {
          suite = refl;
          has_key = refl;
          key_fits = key_fits;
          key_in_range = FitsHeader-InRange k fits;
          on_wheel = omega arith;
        };
        fits = fits;
        suite = ap (λ (t : Receiver.ReceiverOptions). t.cipher_suite) options;
        has_key = found;
        last_on_wheel = rw window zero_on;
        follows = rw window refl;
      },
      rw window tolerant,
    )

-- For every 64-bit id, every key material and every sequence of frames whose payloads are bytes, have
-- the bytes to skip and are short enough to seal, a default sender and a default receiver that set
-- that material for that id return every payload as it went in.
pub encrypt_decrypt_frames-payloads :
    (bits : Msb0) (ring : Ring.Ring) (id : ℕ) (material : List ℕ) (fs : List MediaFrame)
    → id < 2 ^ 64
    → All (IsSendable ring) fs
    → encrypt_decrypt_frames bits ring id material fs ≡ ok (payloads fs)
unfolding encrypt_decrypt_frames
encrypt_decrypt_frames-payloads bits ring id material fs small sendable =
    let (secret, s, r, keyed, stored, linked, tolerant) =
      Linked-new ring aes_gcm256_sha512 (KeyId.from_u64 id) material
        (from_u64_roundtrip id small).0 in
    rw keyed (
      rw stored
        (exchange-payloads bits ring secret 0 fs s r linked (omega arith) tolerant sendable))
