-- ===== src/Examples/CryptoExamples.antt =====
-- A key, its nonces and a sealed text.
use secure_frame_rs.Prelude.{refl, ◌-◌, ◌≡◌, ◌≢◌, arith, [], ◌∷◌}
use secure_frame_rs.Outcome.{ok}
use secure_frame_rs.Header.FrameCount.{increment, from_u64, max_frame_count, FrameCountGenerator}
use secure_frame_rs.Crypto.CipherSuite.{aes_gcm256_sha512, from_variant}
use secure_frame_rs.Crypto.Ring.{nonce_len}
use secure_frame_rs.Crypto.Secret.{create_nonce}
use secure_frame_rs.Crypto.Secret.Nonce.{create_nonce_lem, nonce_bytes}
use secure_frame_rs.Crypto.Aead.Laws.{Seals, encrypt-Seals}
use secure_frame_rs.Crypto.Aead.Bounds.{IsOpened, decrypt-IsOpened}
use secure_frame_rs.Crypto.Aead
use secure_frame_rs.Sender.Nonces.{create_nonce-take_counts}
use secure_frame_rs.Header.FrameCount.Runs.{take_counts}
use secure_frame_rs.Examples.Clear.{example_ring}
use secure_frame_rs.Examples.Ends.{secret_256, sender_256-IsReady}

abbrev last_generator : FrameCountGenerator
last_generator = record { current_frame_count = max_frame_count - 1 }

last_counts :
    take_counts 2 last_generator
    ≡ ok (from_u64 (max_frame_count - 1) ∷ from_u64 0 ∷ [], record { current_frame_count = 1 })
unfolding take_counts increment
last_counts = refl

-- The count 2^64 - 2, and the count 0 that follows on it.
create_nonce-take_counts_example :
    create_nonce nonce_len secret_256 (from_u64 (max_frame_count - 1))
    ≢ create_nonce nonce_len secret_256 (from_u64 0)
create_nonce-take_counts_example =
    create_nonce-take_counts aes_gcm256_sha512 secret_256 2 last_generator
      (record { current_frame_count = 1 }) (from_u64 (max_frame_count - 1) ∷ from_u64 0 ∷ []) 0 1
      (from_u64 (max_frame_count - 1)) (from_u64 0) sender_256-IsReady.key_fits (omega arith)
      (omega arith) last_counts (omega arith) refl refl

encrypt-Seals_example :
    Seals example_ring
      (from_variant aes_gcm256_sha512)
      secret_256
      (8 ∷ 40 ∷ 44 ∷ [])
      (from_u64 44)
      (1 ∷ 2 ∷ [])
encrypt-Seals_example =
    encrypt-Seals example_ring aes_gcm256_sha512 secret_256 (8 ∷ 40 ∷ 44 ∷ []) (from_u64 44)
      (1 ∷ 2 ∷ []) sender_256-IsReady.key_fits (omega arith) (omega arith, (omega arith, tt))

decrypt-IsOpened_example : IsOpened (
    Aead.decrypt example_ring
      (from_variant aes_gcm256_sha512)
      secret_256
      []
      (from_u64 44)
      (1 ∷ 2 ∷ []))
decrypt-IsOpened_example =
    decrypt-IsOpened example_ring (from_variant aes_gcm256_sha512) secret_256 [] (from_u64 44)
      (1 ∷ 2 ∷ []) (omega arith)

create_nonce_example :
    create_nonce nonce_len secret_256 (from_u64 300)
    ≡ ok (nonce_bytes nonce_len secret_256 (from_u64 300))
create_nonce_example = create_nonce_lem nonce_len secret_256 (from_u64 300) (omega arith)
