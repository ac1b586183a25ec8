-- ===== src/Session/Shortened.antt =====
-- The suite whose tag is shorter than that of `ring`.
use secure_frame_rs.Prelude.{ℕ, ◌≤◌, ◌≡◌, List, [], ◌∷◌, ◌++◌, length, refl}
use secure_frame_rs.Outcome.{ok}
use secure_frame_rs.Bitfield.{Msb0}
use secure_frame_rs.Crypto.CipherSuite.{aes_gcm128_sha256}
use secure_frame_rs.Crypto.Ring
use secure_frame_rs.Crypto.Secret.{Secret}
use secure_frame_rs.Sender.{Sender}
use secure_frame_rs.Receiver.{Receiver}
use secure_frame_rs.Session.{MediaFrame, exchange, IsSendable}
use secure_frame_rs.Session.Linked.{Linked, Carries-next, exchange_cons}

-- With the suite AES-GCM-128/SHA-256 and a frame that can be sent, a receiver linked to the sender
-- within its tolerance returns the payload with eight bytes too many at its end.
pub exchange-aes_gcm128 :
    (bits : Msb0) (ring : Ring.Ring) (secret : Secret) (gap : ℕ) (f : MediaFrame) (s : Sender)
    (r : Receiver)
    → Linked aes_gcm128_sha256 secret gap s r
    → gap ≤ r.options.frame_validation.tolerance
    → IsSendable ring f
    → (extra : List ℕ) × (length extra ≡ 8)
      × (exchange bits ring (f ∷ []) s r ≡ ok ((f.payload ++ extra) ∷ []))
exchange-aes_gcm128 bits ring secret gap f s r linked near sendable =
    let carried = Carries-next bits ring aes_gcm128_sha256 secret gap f s r linked near sendable in
    (
      carried.extra,
      carried.length_extra,
      exchange_cons bits ring f [] s _ r _ carried.frame (f.payload ++ carried.extra) []
          carried.sent carried.received (unfold exchange in refl),
    )
