-- ===== src/Session/Shared.antt =====
-- Two senders with one receiver, which has a single window for all key ids.
use secure_frame_rs.Prelude.{ℕ, ◌≡◌, ◌<◌, ◌^◌, refl, arith, List, true, false}
use secure_frame_rs.KeyId.{KeyId, FitsHeader}
use secure_frame_rs.Outcome.{ok, err, frame_validation_failed, frame_counter_too_old}
use secure_frame_rs.Bitfield.{Msb0}
use secure_frame_rs.FrameValidation.Window.{accepts}
use secure_frame_rs.Crypto.Ring
use secure_frame_rs.Crypto.Secret.{Secret}
use secure_frame_rs.Receiver
use secure_frame_rs.Receiver.{Receiver, set_validation}
use secure_frame_rs.Session.{MediaFrame}
use secure_frame_rs.Session.Delivery.{IsSealed, CanOpen, decrypt_sealed, window_at, accepts_count}

-- With AES-GCM-256/SHA-512, two frames of two senders that the receiver would each decrypt, where the
-- second one's count is outside the window around the first one's: once the first is decrypted, the
-- second is refused with the replay error. The window is one for all key ids.
pub decrypt-shared_window :
    (bits : Msb0) (ring : Ring.Ring) (secret secret' : Secret) (k k' : KeyId) (c c' : ℕ)
    (f f' : MediaFrame) (frame frame' : List ℕ) (r : Receiver)
    → FitsHeader k
    → FitsHeader k'
    → IsSealed bits ring secret k c f frame
    → IsSealed bits ring secret' k' c' f' frame'
    → CanOpen secret k r
    → CanOpen secret' k' r
    → accepts_count c r ≡ true
    → accepts_count c' r ≡ true
    → accepts r.options.frame_validation.tolerance c c' ≡ false
    → ((Receiver.decrypt bits ring frame' f'.skip r).0 ≡ ok f'.payload)
      × ((Receiver.decrypt bits ring frame f.skip r).0 ≡ ok f.payload)
      × ((Receiver.decrypt bits ring frame' f'.skip (Receiver.decrypt bits ring frame f.skip r).1).0
          ≡ err (frame_validation_failed frame_counter_too_old))
decrypt-shared_window bits ring secret secret' k k' c c' f f' frame frame' r fits fits' sealed
      sealed' opens opens' in1 in2 out =
    let (left, first) = decrypt_sealed bits ring secret k fits c f frame r sealed opens in
    let (left', alone) = decrypt_sealed bits ring secret' k' fits' c' f' frame' r sealed' opens' in
    let r' : Receiver = record (set_validation (window_at c r) r) { buffer = left } in
    let small : c < 2 ^ 64 = omega (arith, sealed.counted, sealed.ready.on_wheel) in
    let after : CanOpen secret' k' r' = record {
      suite = opens'.suite;
      has_key = opens'.has_key;
      last_fits = small;
    } in
    let (left'', second) =
      decrypt_sealed bits ring secret' k' fits' c' f' frame' r' sealed' after in
    (rw alone (rw in2 refl), rw first (rw in1 refl), rw first (rw in1 (rw second (rw out refl))))
