-- ===== src/Session/Meeting/Speaking.antt =====
-- A sender of the meeting sends a frame.
use secure_frame_rs.Prelude.{
  ◌+◌, ◌%◌, AllPairs-get_elem?, AllPairs-replace_at, ℕ, ◌≡◌, ap, refl, List, inl, inr,
}
use secure_frame_rs.KeyId.{KeyId}
use secure_frame_rs.Bitfield.{Msb0}
use secure_frame_rs.Header.FrameCount.{max_frame_count}
use secure_frame_rs.Header.FrameCount.Wheel.{advance}
use secure_frame_rs.Crypto.CipherSuite.{aes_gcm256_sha512}
use secure_frame_rs.Crypto.Ring
use secure_frame_rs.Crypto.Secret.{Secret}
use secure_frame_rs.Sender
use secure_frame_rs.Sender.{Sender}
use secure_frame_rs.Outcome.{ok}
use secure_frame_rs.Sender.Frames.{IsReady-next}
use secure_frame_rs.Session.{MediaFrame, IsSendable}
use secure_frame_rs.Session.Counts.{header_of_frame}
use secure_frame_rs.Session.Meeting.{speak, Meeting}
use secure_frame_rs.Session.Meeting.Room.{Room}
use secure_frame_rs.Session.Meeting.Hosts.{IsMember, IsKept, Hosts, Steps}

module _ (bits : Msb0) (ring : Ring.Ring) (keys : List (KeyId × Secret)) where
  -- A member after its frame `n`.
  IsMember-next :
      (s : Sender) (k : KeyId) (n : ℕ) (frame : List ℕ)
      → IsMember keys s (k, n)
      → IsMember keys
          (record s { frame_count = advance 1 s.frame_count; buffer = frame })
          (k, (n + 1) % max_frame_count)
  IsMember-next s k n frame member = record {
    id = member.id;
    secret = member.secret;
    ready = IsReady-next aes_gcm256_sha512 member.secret s frame member.ready;
    fits = member.fits;
    found = member.found;
    counted = ap (λ t. (t + 1) % max_frame_count) member.counted;
  }

  -- What a member sends is a frame of the room.
  encrypt-IsKept :
      (s : Sender) (k : KeyId) (n : ℕ) (f : MediaFrame) (frame : List ℕ)
      → IsMember keys s (k, n)
      → IsSendable ring f
      → (Sender.encrypt bits ring f.payload f.skip s).0 ≡ ok frame
      → IsKept bits ring keys (frame, f.skip) (record { key_id = k; number = n; frame = f })
  encrypt-IsKept s k n f frame member sendable sent = record {
    secret = member.secret;
    fits = rw (← member.id) member.fits;
    found = rw (← member.id) member.found;
    skipped = refl;
    sealed = record {
      origin = s;
      ready = member.ready;
      id = member.id;
      counted = member.counted;
      sendable = sendable;
      encrypted = sent;
    };
  }

  pub speak-Steps :
      (i : ℕ) (f : MediaFrame) (m : Meeting) (r : Room)
      → Hosts bits ring keys m r
      → IsSendable ring f
      → Steps bits ring keys (speak i f) m r
  speak-Steps i f m r hosts sendable =
      elim (AllPairs-get_elem? (IsMember keys) i m.senders r.nexts hosts.members) [
        | inl (at, at') ↦ rw at (rw at' (refl, hosts))
        | inr (s, (k, n), at, at', member) ↦
            let (frame, sent, _, _) =
              header_of_frame bits ring aes_gcm256_sha512 member.secret f s member.ready member.fits
                sendable in
            rw at (
              rw at' (
                rw sent (
                  refl,
                  record {
                    members =
                        AllPairs-replace_at (IsMember keys) i m.senders r.nexts _ _ hosts.members
                          (IsMember-next s k n frame member);
                    kept = (
                      encrypt-IsKept s k n f frame member sendable (ap (λ t. t.0) sent),
                      hosts.kept,
                    );
                    suite = hosts.suite;
                    has_keys = hosts.has_keys;
                    tolerance = hosts.tolerance;
                    last = hosts.last;
                    last_fits = hosts.last_fits;
                  },
                )))
      ]
