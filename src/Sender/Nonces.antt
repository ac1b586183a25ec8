-- ===== src/Sender/Nonces.antt =====
-- The nonces of a sender's frames.
use secure_frame_rs.Prelude.{
  ℕ, ◌+◌, ◌%◌, ◌^◌, ◌≤◌, ◌<◌, ◌≡◌, ◌≢◌, ◌∙◌, sym, ap, arith, List, length, get_elem?, some,
}
use secure_frame_rs.Header.FrameCount.{FrameCount, FrameCountGenerator, from_u64, max_frame_count}
use secure_frame_rs.Header.FrameCount.Wheel.{IsOnWheel, advance}
use secure_frame_rs.Header.FrameCount.Runs.{
  take_counts, consecutive, take_counts_lem, get_elem?-consecutive,
}
use secure_frame_rs.Outcome.{ok, ok-injective}
use secure_frame_rs.Crypto.CipherSuite.{
  CipherSuiteVariant, aes_gcm128_sha256, aes_gcm256_sha512, from_variant,
}
use secure_frame_rs.Crypto.Ring.{nonce_len}
use secure_frame_rs.Crypto.Secret.{Secret, create_nonce}
use secure_frame_rs.Crypto.Secret.Nonce.{create_nonce-injective}
use secure_frame_rs.Crypto.KeyExpansion.{IsSecretFor}

suite_nonce_len : (v : CipherSuiteVariant) → (from_variant v).nonce_len ≡ nonce_len
suite_nonce_len aes_gcm128_sha256 = omega arith
suite_nonce_len aes_gcm256_sha512 = omega arith

counts_differ :
    (g : FrameCountGenerator) (i j : ℕ)
    → i < j
    → j < i + max_frame_count
    → (advance i g).current_frame_count ≡ (advance j g).current_frame_count
    → ⊥
counts_differ g i j before near same = omega arith

-- Two places of a generator less than 2^64 - 1 apart have different nonces.
create_nonce-advance :
    (v : CipherSuiteVariant) (secret : Secret) (g : FrameCountGenerator) (i j : ℕ)
    → IsSecretFor (from_variant v) secret
    → i < j
    → j < i + max_frame_count
    → create_nonce nonce_len secret (from_u64 (advance i g).current_frame_count)
      ≢ create_nonce nonce_len secret (from_u64 (advance j g).current_frame_count)
create_nonce-advance v secret g i j fits before near same =
    let wide : 8 ≤ nonce_len = omega arith in
    let long : nonce_len ≤ length secret.salt = omega (arith, fits.salt_fits, suite_nonce_len v) in
    let lt_i : (g.current_frame_count + i) % max_frame_count < 2 ^ 64 = omega arith in
    let lt_j : (g.current_frame_count + j) % max_frame_count < 2 ^ 64 = omega arith in
    counts_differ g i j before near (
      ap (λ (t : FrameCount). t.numeric_value)
        (create_nonce-injective nonce_len secret (from_u64 (advance i g).current_frame_count)
          (from_u64 (advance j g).current_frame_count) wide long lt_i lt_j same))

-- Under one secret of a cipher suite, no two of up to 2^64 - 1 counts that a generator gives out in
-- turn have the same nonce.
pub create_nonce-take_counts :
    (v : CipherSuiteVariant) (secret : Secret) (n : ℕ) (g after : FrameCountGenerator)
    (counts : List FrameCount) (i j : ℕ) (a b : FrameCount)
    → IsSecretFor (from_variant v) secret
    → IsOnWheel g
    → n ≤ max_frame_count
    → take_counts n g ≡ ok (counts, after)
    → i < j
    → get_elem? counts i ≡ some a
    → get_elem? counts j ≡ some b
    → create_nonce nonce_len secret a ≢ create_nonce nonce_len secret b
create_nonce-take_counts v secret n g after counts i j a b fits on short taken before at_i at_j
      same =
    let c : ℕ = g.current_frame_count in
    let are : consecutive c 0 n ≡ counts =
      ap (λ (t : List FrameCount × FrameCountGenerator). t.0)
        (ok-injective (sym (take_counts_lem n g on) ∙ taken)) in
    let (in_i, is_a) = get_elem?-consecutive c 0 n i a (ap (λ t. get_elem? t i) are ∙ at_i) in
    let (in_j, is_b) = get_elem?-consecutive c 0 n j b (ap (λ t. get_elem? t j) are ∙ at_j) in
    let near : j < i + max_frame_count = omega arith in
    let from_start : (k : ℕ)
        → from_u64 (advance k g).current_frame_count ≡ from_u64 ((c + (0 + k)) % max_frame_count) =
      λ k. let e : k ≡ 0 + k = omega arith in ap (λ t. from_u64 ((c + t) % max_frame_count)) e in
    create_nonce-advance v secret g i j fits before near (
      ap (create_nonce nonce_len secret) (from_start i ∙ is_a)
      ∙ same
      ∙ sym (ap (create_nonce nonce_len secret) (from_start j ∙ is_b)))
