-- ===== src/Crypto/Ring.antt =====
-- The crate `ring`, which does the cryptography: an interface with what its documentation says.
-- The contents of keys and of ciphertexts are left open.
use secure_frame_rs.Prelude.{ℕ, ◌*◌, ◌≤◌, ◌<◌, ◌≡◌, List, ◌++◌, length, All, Option, some, none}
use secure_frame_rs.Header.Util.{IsByte}

pub data Algorithm : Type 0 where
  aes_128_gcm aes_256_gcm : Algorithm

pub data HkdfAlgorithm : Type 0 where
  hkdf_sha256 hkdf_sha512 : HkdfAlgorithm

-- `Algorithm::key_len`
abbrev pub key_len : Algorithm → ℕ
key_len aes_128_gcm = 16
key_len aes_256_gcm = 32

-- The length of the algorithm's digest.
abbrev pub digest_len : HkdfAlgorithm → ℕ
digest_len hkdf_sha256 = 32
digest_len hkdf_sha512 = 64

-- `aead::NONCE_LEN`
abbrev pub nonce_len : ℕ
nonce_len = 12

-- `Algorithm::tag_len`, the same for both.
abbrev pub tag_len : ℕ
tag_len = 16

pub record Ring : Type 1 where
  pub UnboundKey : Type 0
  pub Prk : Type 0
  -- `UnboundKey::new`
  pub new_unbound_key : Algorithm → List ℕ → Option UnboundKey
  -- `seal_in_place_separate_tag` and `open_in_place` with a nonce, the associated data and the
  -- buffer: the buffer afterwards, and the tag or the plaintext if the call succeeds.
  pub seal_in_place : UnboundKey → List ℕ → List ℕ → List ℕ → List ℕ × Option (List ℕ)
  pub open_in_place : UnboundKey → List ℕ → List ℕ → List ℕ → List ℕ × Option (List ℕ)
  -- `Salt::new(algorithm, salt).extract(secret)`, and `expand` with `fill`
  pub extract : HkdfAlgorithm → List ℕ → List ℕ → Prk
  pub expand : Prk → List ℕ → ℕ → Option (List ℕ)
  -- The longest text that can be sealed, and the algorithm of a pseudorandom key.
  pub max_plaintext_len : ℕ
  pub algorithm_of : Prk → HkdfAlgorithm
  pub algorithm_of-extract :
      (a : HkdfAlgorithm) (salt secret : List ℕ) → algorithm_of (extract a salt secret) ≡ a
  pub new_unbound_key_lem :
      (a : Algorithm) (key : List ℕ)
      → length key ≡ key_len a
      → (k : UnboundKey) × (new_unbound_key a key ≡ some k)
  pub seal_in_place_lem :
      (k : UnboundKey) (nonce aad text : List ℕ)
      → length text ≤ max_plaintext_len
      → All IsByte text
      → (cipher : List ℕ) × (tag : List ℕ) × (seal_in_place k nonce aad text ≡ (cipher, some tag))
        × (length cipher ≡ length text)
        × (length tag ≡ tag_len)
        × All IsByte cipher
        × All IsByte tag
  -- What was sealed is opened to the text, which overwrites the ciphertext; nothing is said of the
  -- bytes of the buffer where the tag was.
  pub open_in_place_lem :
      (k : UnboundKey) (nonce aad text cipher tag : List ℕ)
      → seal_in_place k nonce aad text ≡ (cipher, some tag)
      → (rest : List ℕ) × (open_in_place k nonce aad (cipher ++ tag) ≡ (text ++ rest, some text))
        × (length rest ≡ length tag)
  -- The buffer is a slice, whose length stays, and one that is shorter than a tag is refused.
  pub open_in_place-length :
      (k : UnboundKey) (nonce aad io : List ℕ) → length (open_in_place k nonce aad io).0 ≡ length io
  pub open_in_place_short :
      (k : UnboundKey) (nonce aad io : List ℕ)
      → length io < tag_len
      → (open_in_place k nonce aad io).1 ≡ none
  -- `expand` is refused for more than 255 digests.
  pub expand_lem :
      (prk : Prk) (info : List ℕ) (len : ℕ)
      → len ≤ 255 * digest_len (algorithm_of prk)
      → (okm : List ℕ) × (expand prk info len ≡ some okm) × (length okm ≡ len) × All IsByte okm
