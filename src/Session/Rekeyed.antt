-- ===== src/Session/Rekeyed.antt =====
-- New key material in the middle of a session.
use secure_frame_rs.Prelude.{ℕ, ◌≡◌, ap, ◌∙◌, sym, refl, List, some}
use secure_frame_rs.Outcome.{ok, ok-injective}
use secure_frame_rs.Crypto.CipherSuite.{CipherSuiteVariant, from_variant}
use secure_frame_rs.Crypto.KeyExpansion.{expand_secret_from}
use secure_frame_rs.Crypto.Ring
use secure_frame_rs.Crypto.Secret.{Secret}
use secure_frame_rs.Sender
use secure_frame_rs.Sender.{Sender}
use secure_frame_rs.Sender.Keys as SenderKeys
use secure_frame_rs.Receiver
use secure_frame_rs.Receiver.{Receiver}
use secure_frame_rs.Receiver.Keys as ReceiverKeys
use secure_frame_rs.Receiver.Secrets
use secure_frame_rs.Receiver.Secrets.{key_eq_iff}
use secure_frame_rs.Session.Linked.{Linked}

-- When a sender and a receiver that share a key both set the same new material for the sender's key
-- id, both succeed, and both then hold the secret that the suite expands from that material and stay
-- linked under it, at the same distance of the window: neither the count nor the window starts again.
pub Linked-set_encryption_key :
    (ring : Ring.Ring) (v : CipherSuiteVariant) (secret : Secret) (gap : ℕ) (material : List ℕ)
    (s : Sender) (r : Receiver)
    → Linked v secret gap s r
    → ((Sender.set_encryption_key ring material s).0 ≡ ok tt)
      × ((Receiver.set_encryption_key ring s.key_id material r).0 ≡ ok tt)
      × (secret' : Secret) × (expand_secret_from ring material (from_variant v) ≡ ok secret')
      × Linked v secret' gap
          (Sender.set_encryption_key ring material s).1
          (Receiver.set_encryption_key ring s.key_id material r).1
Linked-set_encryption_key ring v secret gap material s r linked =
    let (secret', key_fits, expanded, keyed) =
      SenderKeys.set_encryption_key_lem ring v material s linked.ready.suite in
    let (secret'', _, expanded', done, options, secrets) =
      ReceiverKeys.set_encryption_key-get ring v s.key_id material r linked.suite in
    let same : secret'' ≡ secret' = ok-injective (sym expanded' ∙ expanded) in
    let r' : Receiver = (Receiver.set_encryption_key ring s.key_id material r).1 in
    let found : Secrets.get s.key_id r'.secrets ≡ some secret' =
      secrets s.key_id ∙ rw ((key_eq_iff s.key_id s.key_id).1 refl) (ap some same) in
    (
      ap (λ t. t.0) keyed,
      done,
      secret',
      expanded,
      rw keyed (record {
        ready = record {
          suite = linked.ready.suite;
          has_key = refl;
          key_fits = key_fits;
          key_in_range = linked.ready.key_in_range;
          on_wheel = linked.ready.on_wheel;
        };
        fits = linked.fits;
        suite = ap (λ (t : Receiver.ReceiverOptions). t.cipher_suite) options ∙ linked.suite;
        has_key = found;
        last_on_wheel = rw options linked.last_on_wheel;
        follows = rw options linked.follows;
      }),
    )
