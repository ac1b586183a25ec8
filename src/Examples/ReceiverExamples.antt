-- ===== src/Examples/ReceiverExamples.antt =====
-- A receiver with one key, and frames that it refuses.
use secure_frame_rs.Prelude.{
  ℕ, ◌<◌, ◌≡◌, ◌↔◌, ◌++◌, take, refl, arith, List, [], ◌∷◌, All, drop, some, none,
}
use secure_frame_rs.Outcome.{err, panic, frame_validation_failed, frame_counter_too_old}
use secure_frame_rs.Header.Util.{IsByte, from_be_bytes}
use secure_frame_rs.Header.FrameCount.{from_u64}
use secure_frame_rs.Header.Structs.{Header, extended}
use secure_frame_rs.Header.Codec
use secure_frame_rs.Header.Codec.Parse.{parse}
use secure_frame_rs.FrameValidation.{ReplayAttackProtection}
use secure_frame_rs.Crypto.CipherSuite.{aes_gcm256_sha512}
use secure_frame_rs.Receiver.{Receiver, decrypt, set_encryption_key, set_validation}
use secure_frame_rs.Receiver.Secrets
use secure_frame_rs.Receiver.Secrets.{key_eq, get-insert}
use secure_frame_rs.Receiver.Blocked.{IsOutside, decrypt_all, decrypt_all-blocked}
use secure_frame_rs.Receiver.WellFormed.{IsWellFormed}
use secure_frame_rs.Receiver.{with_cipher_suite}
use secure_frame_rs.Receiver.Reachable.{
  Reachable, start, later, sets, decrypts, IsExpanded, Reachable-IsWellFormed,
}
use secure_frame_rs.Receiver.Described.{described, decrypt-described}
use secure_frame_rs.Receiver.Service.{new_service, serve_all}
use secure_frame_rs.Receiver.Service.Refines.{IsCall, replies-serve_all}
use secure_frame_rs.Receiver.Observed.{Call, set_key, decrypt_frame, remove_key, replies}
use secure_frame_rs.Receiver.Total.{decrypt-panics_iff}
use secure_frame_rs.Crypto.Aead
use secure_frame_rs.Receiver.Padded.{IsKnown, moved_to, decrypt-padded}
use secure_frame_rs.Receiver.Described.{described_result}
use secure_frame_rs.Examples.Bits.{example_bits}
use secure_frame_rs.Examples.Clear.{example_ring}
use secure_frame_rs.Examples.Ends.{
  secret_256, receiver_256, receiver_256-IsWellFormed, example_id, material,
}

-- Two bytes of count and a byte of key id 9, with nothing behind; 9000 is far ahead of the window.
abbrev forged : List ℕ
forged = 24 ∷ 9 ∷ 35 ∷ 40 ∷ []

abbrev forged_header : Header
forged_header = extended (record { key_id = 9; frame_count = from_u64 9000 })

-- A header of the sender with the key id 40 and the count 300.
abbrev honest : List ℕ
honest = 24 ∷ 40 ∷ 1 ∷ 44 ∷ []

abbrev honest_header : Header
honest_header = extended (record { key_id = 40; frame_count = from_u64 300 })

abbrev moved_window : ReplayAttackProtection
moved_window = record { tolerance = 128; last_frame_count = from_u64 9000 }

-- The receiver once the forged frame has come.
abbrev moved_receiver : Receiver
moved_receiver = set_validation moved_window receiver_256

forged-IsByte : All IsByte forged
forged-IsByte = (omega arith, (omega arith, (omega arith, (omega arith, tt))))

honest-IsByte : All IsByte honest
honest-IsByte = (omega arith, (omega arith, (omega arith, (omega arith, tt))))

parse-forged : parse (drop 0 forged) ≡ some forged_header
unfolding parse from_be_bytes
parse-forged = refl

parse-honest : parse (drop 0 honest) ≡ some honest_header
unfolding parse from_be_bytes
parse-honest = refl

-- The same header twice, with three other bytes in front the second time.
abbrev later_frames : List (List ℕ × ℕ)
later_frames = (honest, 0) ∷ (1 ∷ 2 ∷ 3 ∷ honest, 3) ∷ []

later_frames-IsOutside : All (IsOutside 128 9000) later_frames
unfolding Codec.frame_count
later_frames-IsOutside = (
  record { bytes = honest-IsByte; header = honest_header; parsed = parse-honest; outside = refl },
  (
    record {
      bytes = (omega arith, (omega arith, (omega arith, honest-IsByte)));
      header = honest_header;
      parsed = parse-honest;
      outside = refl;
    },
    tt,
  ),
)

decrypt_all-blocked_example :
    decrypt_all example_bits example_ring later_frames
      (decrypt example_bits example_ring forged 0 receiver_256).1
    ≡ err (frame_validation_failed frame_counter_too_old)
      ∷ err (frame_validation_failed frame_counter_too_old)
      ∷ []
unfolding Codec.frame_count
decrypt_all-blocked_example =
    decrypt_all-blocked example_bits example_ring forged 0 forged_header later_frames receiver_256
      forged-IsByte parse-forged (omega arith) refl later_frames-IsOutside

decrypt-panics_iff_example :
    ((decrypt example_bits example_ring honest 2 receiver_256).0 ≡ panic)
    ↔ (parse (drop 2 honest) ≡ none)
decrypt-panics_iff_example =
    decrypt-panics_iff example_bits example_ring aes_gcm256_sha512 honest 2 receiver_256
      honest-IsByte receiver_256-IsWellFormed

-- A new receiver that gets a key and a forged frame.
keyed_receiver-Reachable :
    Reachable example_bits example_ring aes_gcm256_sha512
      (set_encryption_key example_ring example_id material (with_cipher_suite aes_gcm256_sha512)).1
keyed_receiver-Reachable = later start (sets example_id material _ refl)

abbrev forged_receiver : Receiver
forged_receiver =
    (decrypt example_bits example_ring forged 0
      (set_encryption_key example_ring example_id material
        (with_cipher_suite aes_gcm256_sha512)).1).1

Reachable-IsWellFormed_example :
    IsWellFormed aes_gcm256_sha512 forged_receiver
    × IsExpanded example_ring aes_gcm256_sha512 forged_receiver
Reachable-IsWellFormed_example =
    Reachable-IsWellFormed example_bits example_ring aes_gcm256_sha512 forged_receiver
      (later keyed_receiver-Reachable (decrypts forged 0 _ forged-IsByte refl))

decrypt-described_example :
    decrypt example_bits example_ring honest 0 receiver_256
    ≡ described example_ring honest 0 receiver_256
decrypt-described_example =
    decrypt-described example_bits example_ring aes_gcm256_sha512 honest 0 receiver_256
      honest-IsByte receiver_256-IsWellFormed

-- The key is set, removed, and set again with other material, with a frame after each of these.
abbrev calls : List Call
calls =
    set_key example_id material
    ∷ decrypt_frame honest 0
    ∷ remove_key example_id
    ∷ decrypt_frame honest 0
    ∷ set_key example_id (1 ∷ [])
    ∷ decrypt_frame forged 0
    ∷ decrypt_frame honest 0
    ∷ []

calls-IsCall : All IsCall calls
calls-IsCall =
    (tt, (honest-IsByte, (tt, (honest-IsByte, (tt, (forged-IsByte, (honest-IsByte, tt)))))))

replies-serve_all_example :
    replies example_bits example_ring calls (with_cipher_suite aes_gcm256_sha512)
    ≡ serve_all example_ring aes_gcm256_sha512 calls new_service
replies-serve_all_example =
    replies-serve_all example_bits example_ring aes_gcm256_sha512 calls calls-IsCall

-- The count 200 with a zero byte in front, and two bytes for a body.
abbrev padded_header : Header
padded_header = extended (record { key_id = 40; frame_count = from_u64 200 })

padded-IsKnown : IsKnown 24 (40 ∷ 0 ∷ 200 ∷ []) padded_header secret_256 receiver_256
unfolding parse from_be_bytes Codec.key_id Codec.frame_count Secrets.get
padded-IsKnown = record { exact = refl; parsed = refl; found = refl; accepted = refl }

decrypt-padded_example :
    (Codec.size padded_header < 4)
    × (decrypt example_bits example_ring (24 ∷ 40 ∷ 0 ∷ 200 ∷ 5 ∷ 6 ∷ []) 0 receiver_256
        ≡ described_result [] (moved_to padded_header receiver_256) (
            Aead.decrypt example_ring receiver_256.options.cipher_suite secret_256
              (take (Codec.size padded_header) (24 ∷ 40 ∷ 0 ∷ 200 ∷ []))
              (Codec.frame_count padded_header)
              (drop (Codec.size padded_header) (24 ∷ 40 ∷ 0 ∷ 200 ∷ []) ++ 5 ∷ 6 ∷ [])))
decrypt-padded_example =
    decrypt-padded example_bits example_ring aes_gcm256_sha512 [] 24 (40 ∷ 0 ∷ 200 ∷ [])
      (5 ∷ 6 ∷ []) padded_header secret_256 receiver_256 tt
      (omega arith, (omega arith, (omega arith, (omega arith, tt))))
      (omega arith, (omega arith, tt)) receiver_256-IsWellFormed padded-IsKnown
      (λ m. absurd (omega (arith, m.1)))
