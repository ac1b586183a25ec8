-- ===== src/FrameValidation/Replay.antt =====
-- The window follows the last accepted frame, also backwards.
use secure_frame_rs.Header.Codec.Fields.{frame_count-with_frame_count}
use secure_frame_rs.Prelude.{ℕ, zero, suc, ◌+◌, ◌^◌, ◌≤◌, ◌<◌, ◌≡◌, arith, List, [], ◌∷◌}
use secure_frame_rs.KeyId.{KeyId}
use secure_frame_rs.Exec.{Exec, pure, ◌>>◌}
use secure_frame_rs.Outcome.{ok}
use secure_frame_rs.Header.Structs.{Header}
use secure_frame_rs.Header.FrameCount.{IsCount, from_u64}
use secure_frame_rs.Header.Codec
use secure_frame_rs.FrameValidation.{ReplayAttackProtection, validate}
use secure_frame_rs.FrameValidation.Window.{validate_lem}

-- With counts of 64 bits, a frame that was accepted is accepted again, and the window is as it was
-- after the first time.
pub validate-validate :
    (h : Header) (p p' : ReplayAttackProtection)
    → IsCount (Codec.frame_count h)
    → IsCount p.last_frame_count
    → validate h p ≡ (ok tt, p')
    → validate h p' ≡ (ok tt, p')
validate-validate h p p' c l accepted = ground (arith, validate_lem h p, validate_lem h p')

abbrev pub validate_all : List Header → Exec ReplayAttackProtection (Unit {0})
validate_all [] = pure tt
validate_all (h ∷ hs) = validate h >> validate_all hs

-- The headers of the `n` frames before the count `c + n`, the latest first.
abbrev pub backwards : KeyId → ℕ → ℕ → List Header
backwards k c zero = []
backwards k c (suc n) = Codec.with_frame_count k (from_u64 (c + n)) ∷ backwards k c n

step_back :
    (k : KeyId) (t c : ℕ)
    → 1 ≤ t
    → c + 1 < 2 ^ 64
    → validate
        (Codec.with_frame_count k (from_u64 c))
        (record { tolerance = t; last_frame_count = from_u64 (c + 1) })
      ≡ (ok tt, record { tolerance = t; last_frame_count = from_u64 c })
step_back k t c pos fits = ground (
  arith,
  frame_count-with_frame_count k (from_u64 c),
  validate_lem (Codec.with_frame_count k (from_u64 c))
      (record { tolerance = t; last_frame_count = from_u64 (c + 1) }),
)

-- With any tolerance of at least 1, old frames that are sent again in reverse order, one count at a
-- time, are all accepted, however old: the last count ends at the oldest of them.
pub validate_all-backwards :
    (k : KeyId) (t c n : ℕ)
    → 1 ≤ t
    → c + n < 2 ^ 64
    → validate_all (backwards k c n) (record { tolerance = t; last_frame_count = from_u64 (c + n) })
      ≡ (ok tt, record { tolerance = t; last_frame_count = from_u64 c })
validate_all-backwards k t c zero pos fits = let e : c + 0 ≡ c = omega arith in rw e
validate_all-backwards k t c (suc n) pos fits =
    let e : c + suc n ≡ c + n + 1 = omega arith in
    rw e (
      rw (step_back k t (c + n) pos (omega arith))
        (validate_all-backwards k t c n pos (omega arith)))
