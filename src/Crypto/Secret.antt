-- ===== src/Crypto/Secret.antt =====
-- src/crypto/secret.rs: the secret of a sender or receiver, and the nonce of a frame.
pub mod Nonce
use secure_frame_rs.Prelude.{
  ℕ, zero, suc, List, [], ◌∷◌, reverse, bit_xor, ltb, if◌then◌else◌, length, replicate,
}
use secure_frame_rs.Outcome.{Outcome, ok, panic, ◌>>=◌, index, store}
use secure_frame_rs.Header.FrameCount.{FrameCount, as_be_bytes}

pub record Secret : Type 0 where
  pub key : List ℕ
  pub salt : List ℕ

-- `for i in (0..LEN).rev()`, by the rounds left; `counter` is what the iterator still holds.
unfoldable pub mask_loop : List ℕ → ℕ → List ℕ → List ℕ → Outcome (List ℕ)
mask_loop salt zero counter iv = ok iv
mask_loop salt (suc i) [] iv = do
  s ← index salt i
  salted ← store iv i s
  mask_loop salt i [] salted
mask_loop salt (suc i) (counter_byte ∷ counter) iv = do
  s ← index salt i
  salted ← store iv i s
  old ← index salted i
  masked ← store salted i (bit_xor old counter_byte)
  mask_loop salt i counter masked

-- The assertion that the salt is long enough is the debug build's.
unfoldable pub create_nonce : ℕ → Secret → FrameCount → Outcome (List ℕ)
create_nonce len secret frame_count =
    if ltb (length secret.salt) len
    then panic
    else mask_loop secret.salt len (reverse (as_be_bytes frame_count)) (replicate len 0)
