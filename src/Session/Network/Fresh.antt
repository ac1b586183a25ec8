-- ===== src/Session/Network/Fresh.antt =====
-- The network of a new sender and a new receiver.
use secure_frame_rs.Prelude.{ℕ, ◌≡◌, ap, ◌∙◌, sym, refl, arith, List, [], All}
use secure_frame_rs.KeyId.{KeyId, FitsHeader}
use secure_frame_rs.Outcome.{Outcome, ok}
use secure_frame_rs.Bitfield.{Msb0}
use secure_frame_rs.Crypto.CipherSuite.{aes_gcm256_sha512}
use secure_frame_rs.Crypto.Ring
use secure_frame_rs.Sender
use secure_frame_rs.Sender.{Sender}
use secure_frame_rs.Sender.Keys as SenderKeys
use secure_frame_rs.Receiver
use secure_frame_rs.Receiver.{Receiver}
use secure_frame_rs.Receiver.Keys as ReceiverKeys
use secure_frame_rs.Session.Setup.{Linked-new}
use secure_frame_rs.Session.Network.{Event, run}
use secure_frame_rs.Session.Network.Channel
use secure_frame_rs.Session.Network.Channel.{Channel}
use secure_frame_rs.Session.Network.Refines.{CanSend, run-run}

abbrev pub new_channel : Channel
new_channel = record { next = 0; sent = []; tolerance = 128; last = 0 }

-- A default sender for any key id that fits its header and a default receiver that set the same key
-- material both succeed, and return for every sequence of frames that are sent and arrive what a new
-- channel with the tolerance 128 says.
pub run-new_channel :
    (bits : Msb0) (ring : Ring.Ring) (k : KeyId) (material : List ℕ) (es : List Event)
    → FitsHeader k
    → All (CanSend ring) es
    → (s : Sender) × (r : Receiver) × (Sender.set_encryption_key ring material (Sender.new k)
        ≡ (ok tt, s))
      × (Receiver.set_encryption_key ring k material Receiver.default ≡ (ok tt, r))
      × (run bits ring es (record { sender = s; wire = []; receiver = r })
          ≡ Channel.run es new_channel)
run-new_channel bits ring k material es fits can =
    let (secret, s, r, keyed, stored, linked, _) =
      Linked-new ring aes_gcm256_sha512 k material fits in
    let (_, _, _, sender_done) =
      SenderKeys.set_encryption_key_lem ring aes_gcm256_sha512 material (Sender.new k) refl in
    let (_, _, _, _, options, _) =
      ReceiverKeys.set_encryption_key-get ring aes_gcm256_sha512 k material Receiver.default refl in
    let same_options : r.options ≡ Receiver.default.options =
      ap (λ (t : Outcome (Unit {0}) × Receiver). t.1.options) (sym stored) ∙ options in
    let same_id : s.key_id ≡ k =
      ap (λ (t : Outcome (Unit {0}) × Sender). t.1.key_id) (sym keyed ∙ sender_done) in
    (
      s,
      r,
      keyed,
      stored,
      run-run bits ring secret k fits es _ new_channel
          (record {
            ready = linked.ready;
            id = same_id;
            opens = record {
              suite = linked.suite;
              has_key = rw (← same_id) linked.has_key;
              last_fits = omega (arith, linked.last_on_wheel);
            };
            next =
                ap (λ (t : Outcome (Unit {0}) × Sender). t.1.frame_count.current_frame_count)
                  (sym keyed ∙ sender_done);
            tolerance =
                ap (λ (t : Receiver.ReceiverOptions). t.frame_validation.tolerance) same_options;
            last =
                ap
                  (λ (t : Receiver.ReceiverOptions).
                    t.frame_validation.last_frame_count.numeric_value)
                  same_options;
            sealed = tt;
          })
          can,
    )
