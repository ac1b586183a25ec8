-- ===== src/Session/Meeting/Hearing.antt =====
-- A frame of a sender arrives, with its key or without.
use secure_frame_rs.Prelude.{
  ◌<◌, ◌^◌, AllPairs-get_elem?, ℕ, ◌≡◌, ap₂, ◌∙◌, sym, refl, arith, List, some, none, Bool-cases,
  inl, inr,
}
use secure_frame_rs.KeyId.{KeyId}
use secure_frame_rs.Bitfield.{Msb0}
use secure_frame_rs.FrameValidation.Window.{accepts}
use secure_frame_rs.Crypto.Ring
use secure_frame_rs.Crypto.Secret.{Secret}
use secure_frame_rs.Receiver.{set_validation}
use secure_frame_rs.Receiver.Secrets
use secure_frame_rs.Receiver.Secrets.{key_eq}
use secure_frame_rs.Session.Delivery.{
  CanOpen, decrypt_sealed, decrypt_without_key, accepts_count, window_at,
}
use secure_frame_rs.Session.Meeting.{hear, hear_frame, Meeting}
use secure_frame_rs.Session.Meeting.Room
use secure_frame_rs.Session.Meeting.Room.{Room, Said, is_in}
use secure_frame_rs.Session.Meeting.Hosts.{IsKept, Hosts, Steps}

module _ (bits : Msb0) (ring : Ring.Ring) (keys : List (KeyId × Secret)) where
  -- The receiver after a frame with the number `n` that its window accepted.
  Hosts-heard :
      (n : ℕ) (left : List ℕ) (m : Meeting) (r : Room)
      → Hosts bits ring keys m r
      → n < 2 ^ 64
      → Hosts bits ring keys
          (record m {
            receiver = record (set_validation (window_at n m.receiver) m.receiver) {
              buffer = left;
            };
          })
          (record r { last = n })
  Hosts-heard n left m r hosts small = record {
    members = hosts.members;
    kept = hosts.kept;
    suite = hosts.suite;
    has_keys = hosts.has_keys;
    tolerance = hosts.tolerance;
    last = refl;
    last_fits = small;
  }

  -- One frame of a sender: with a key or without.
  abbrev HeardSteps : List ℕ × ℕ → Said → Meeting → Room → Type 0
  HeardSteps w said m r =
      let code = hear_frame bits ring (some w) m in
      let room = Room.hear_payload (some said) r in
      (code.0 ≡ room.0) × Hosts bits ring keys code.1 room.1

  heard :
      (w : List ℕ × ℕ) (said : Said) (m : Meeting) (r : Room)
      → Hosts bits ring keys m r
      → IsKept bits ring keys w said
      → HeardSteps w said m r
  heard w said m r hosts kept =
      let n : ℕ = said.number in
      let same : accepts_count n m.receiver ≡ accepts r.tolerance r.last n =
        ap₂ (λ a b. accepts a b n) hosts.tolerance hosts.last in
      let small : n < 2 ^ 64 = omega (arith, kept.sealed.counted, kept.sealed.ready.on_wheel) in
      elim (Bool-cases (is_in said.key_id r.forgotten)) [
        | inl gone ↦
            let missing : Secrets.get said.key_id m.receiver.secrets ≡ none =
              hosts.has_keys said.key_id ∙ rw gone refl in
            let received =
              decrypt_without_key bits ring kept.secret said.key_id kept.fits n said.frame w.0
                m.receiver kept.sealed hosts.last_fits missing in
            rw (sym kept.skipped) (
              rw received (
                rw (← same) (elim (Bool-cases (accepts_count n m.receiver)) [
                  | inl e ↦ rw e (rw gone (refl, Hosts-heard n m.receiver.buffer m r hosts small))
                  | inr e ↦ rw e (refl, hosts)
                ])))
        | inr known ↦
            let opens : CanOpen kept.secret said.key_id m.receiver = record {
              suite = hosts.suite;
              has_key = hosts.has_keys said.key_id ∙ rw known kept.found;
              last_fits = hosts.last_fits;
            } in
            let (left, received) =
              decrypt_sealed bits ring kept.secret said.key_id kept.fits n said.frame w.0 m.receiver
                kept.sealed opens in
            rw (sym kept.skipped) (
              rw received (
                rw (← same) (elim (Bool-cases (accepts_count n m.receiver)) [
                  | inl e ↦ rw e (rw known (refl, Hosts-heard n left m r hosts small))
                  | inr e ↦ rw e (refl, hosts)
                ])))
      ]

  pub hear-Steps :
      (i : ℕ) (m : Meeting) (r : Room)
      → Hosts bits ring keys m r
      → Steps bits ring keys (hear i) m r
  hear-Steps i m r hosts =
      elim (AllPairs-get_elem? (IsKept bits ring keys) i m.wire r.sent hosts.kept) [
        | inl (at, at') ↦ rw at (rw at' (refl, hosts))
        | inr (w, said, at, at', kept) ↦ rw at (rw at' (heard w said m r hosts kept))
      ]
