-- ===== src/Session/Network/Refines.antt =====
-- The code implements the channel.
use secure_frame_rs.Prelude.{
  AllPairs, AllPairs-get_elem?, ◌<◌, ◌^◌, ◌+◌, ◌%◌, All, ℕ, ◌≡◌, ap, ap₂, sym, refl, arith, List,
  [], ◌∷◌, ◌++◌, Bool-cases, inl, inr,
}
use secure_frame_rs.KeyId.{KeyId, FitsHeader}
use secure_frame_rs.Bitfield.{Msb0}
use secure_frame_rs.Header.FrameCount.{max_frame_count}
use secure_frame_rs.FrameValidation.Window.{accepts}
use secure_frame_rs.Crypto.CipherSuite.{aes_gcm256_sha512}
use secure_frame_rs.Crypto.Ring
use secure_frame_rs.Crypto.Secret.{Secret}
use secure_frame_rs.Sender.Frames.{IsReady, IsReady-next}
use secure_frame_rs.Session.{MediaFrame, IsSendable}
use secure_frame_rs.Session.Counts.{header_of_frame}
use secure_frame_rs.Session.Delivery.{IsSealed, CanOpen, decrypt_sealed, accepts_count}
use secure_frame_rs.Session.Network.{Event, send, deliver, Network, step, run}
use secure_frame_rs.Session.Network.Channel
use secure_frame_rs.Session.Network.Channel.{Channel}

-- A frame on the wire was sealed from the payload in its place.
abbrev pub IsPosted : Msb0 → Ring.Ring → Secret → KeyId → List ℕ × ℕ → ℕ × MediaFrame → Type 0
IsPosted bits ring secret k w m = (m.1.skip ≡ w.1) × IsSealed bits ring secret k m.0 m.1 w.0

-- The state of the code behind a state of the channel.
pub record Implements (bits : Msb0) (ring : Ring.Ring) (secret : Secret) (k : KeyId) (n : Network)
    (c : Channel) : Type 0 where
  pub ready : IsReady aes_gcm256_sha512 secret n.sender
  pub id : n.sender.key_id ≡ k
  pub opens : CanOpen secret k n.receiver
  pub next : n.sender.frame_count.current_frame_count ≡ c.next
  pub tolerance : n.receiver.options.frame_validation.tolerance ≡ c.tolerance
  pub last : n.receiver.options.frame_validation.last_frame_count.numeric_value ≡ c.last
  pub sealed : AllPairs (IsPosted bits ring secret k) n.wire c.sent

-- Every frame that is sent can be.
abbrev pub CanSend : Ring.Ring → Event → Type 0
CanSend ring (send f) = IsSendable ring f
CanSend ring (deliver i) = Unit

module _ (bits : Msb0) (ring : Ring.Ring) (secret : Secret) (k : KeyId) (fits : FitsHeader k) where
  -- One event: the same reports, and states that belong together.
  abbrev pub Steps : Event → Network → Channel → Type 0
  Steps e n c =
      ((step bits ring e n).0 ≡ (Channel.step e c).0)
      × Implements bits ring secret k (step bits ring e n).1 (Channel.step e c).1

  send-Steps :
      (f : MediaFrame) (n : Network) (c : Channel)
      → Implements bits ring secret k n c
      → IsSendable ring f
      → Steps (send f) n c
  send-Steps f n c implements sendable =
      let id_fits : FitsHeader n.sender.key_id = rw implements.id fits in
      let (frame, sent, _, _) =
        header_of_frame bits ring aes_gcm256_sha512 secret f n.sender implements.ready id_fits
          sendable in
      rw sent (
        refl,
        record {
          ready = IsReady-next aes_gcm256_sha512 secret n.sender frame implements.ready;
          id = implements.id;
          opens = implements.opens;
          next = ap (λ t. (t + 1) % max_frame_count) implements.next;
          tolerance = implements.tolerance;
          last = implements.last;
          sealed = (
            (
              refl,
              record {
                origin = n.sender;
                ready = implements.ready;
                id = implements.id;
                counted = implements.next;
                sendable = sendable;
                encrypted = ap (λ t. t.0) sent;
              },
            ),
            implements.sealed,
          );
        },
      )

  sealed-count_fits :
      (c : ℕ) (f : MediaFrame) (frame : List ℕ) → IsSealed bits ring secret k c f frame → c < 2 ^ 64
  sealed-count_fits c f frame sealed = omega (arith, sealed.counted, sealed.ready.on_wheel)

  deliver-Steps :
      (i : ℕ) (n : Network) (c : Channel)
      → Implements bits ring secret k n c
      → Steps (deliver i) n c
  deliver-Steps i n c implements =
      elim (AllPairs-get_elem? (IsPosted bits ring secret k) i n.wire c.sent implements.sealed) [
        | inl (at, at') ↦ rw at (rw at' (refl, implements))
        | inr (w, (count, f), at, at', (skipped, sealed)) ↦
            let frame : List ℕ = w.0 in
            let skip : f.skip ≡ w.1 = skipped in
            let (left, received) =
              decrypt_sealed bits ring secret k fits count f frame n.receiver sealed
                implements.opens in
            let same : accepts_count count n.receiver ≡ accepts c.tolerance c.last count =
              ap₂ (λ a b. accepts a b count) implements.tolerance implements.last in
            let small : count < 2 ^ 64 = sealed-count_fits count f frame sealed in
            rw at (
              rw at' (
                rw (sym skip) (
                  rw received (
                    rw (← same) (elim (Bool-cases (accepts_count count n.receiver)) [
                      | inl e ↦ rw e (
                        refl,
                        record {
                          ready = implements.ready;
                          id = implements.id;
                          opens = record {
                            suite = implements.opens.suite;
                            has_key = implements.opens.has_key;
                            last_fits = small;
                          };
                          next = implements.next;
                          tolerance = implements.tolerance;
                          last = refl;
                          sealed = implements.sealed;
                        },
                      )
                      | inr e ↦ rw e (refl, implements)
                    ])))))
      ]

  step-Steps :
      (e : Event) (n : Network) (c : Channel)
      → Implements bits ring secret k n c
      → CanSend ring e
      → Steps e n c
  step-Steps (send f) n c implements can = send-Steps f n c implements can
  step-Steps (deliver i) n c implements can = deliver-Steps i n c implements

  -- With AES-GCM-256/SHA-512, for every sequence of frames that are sent and arrive in any order, more
  -- than once or never, a receiver whose key and window belong to the sender returns what the channel
  -- says: the payload of each frame that arrives with a count that the window accepts, and the replay
  -- error for every other.
  pub run-run :
      (es : List Event) (n : Network) (c : Channel)
      → Implements bits ring secret k n c
      → All (CanSend ring) es
      → run bits ring es n ≡ Channel.run es c
  unfolding run Channel.run
  run-run [] n c implements can = refl
  run-run (e ∷ es) n c implements can =
      let (same, next) = step-Steps e n c implements can.0 in
      ap₂ (λ a b. a ++ b) same (run-run es (step bits ring e n).1 (Channel.step e c).1 next can.1)
