-- ===== src/Crypto/KeyExpansion.antt =====
-- src/crypto/key_expansion.rs: the secret that a key material expands to.
use secure_frame_rs.Prelude.{ℕ, ◌*◌, ◌≤◌, ◌≡◌, ap, arith, List, [], ◌∷◌, length, Option, some, none}
use secure_frame_rs.Outcome.{Outcome, SframeError, ok, err, key_expansion, ◌>>=◌}
use secure_frame_rs.Crypto.CipherSuite.{
  CipherSuite, CipherSuiteVariant, aes_gcm128_sha256, aes_gcm256_sha512, from_variant,
}
use secure_frame_rs.Crypto.Ring
use secure_frame_rs.Crypto.Ring.{HkdfAlgorithm, hkdf_sha256, hkdf_sha512, digest_len}
use secure_frame_rs.Crypto.Secret.{Secret}

-- The ASCII codes of "SFrame10", "key" and "salt".
abbrev pub sframe_hkdf_salt : List ℕ
sframe_hkdf_salt = b'S' ∷ b'F' ∷ b'r' ∷ b'a' ∷ b'm' ∷ b'e' ∷ b'1' ∷ b'0' ∷ []

abbrev pub sframe_hkdf_key_expand_info : List ℕ
sframe_hkdf_key_expand_info = b'k' ∷ b'e' ∷ b'y' ∷ []

abbrev pub sframe_hkdf_salt_expand_info : List ℕ
sframe_hkdf_salt_expand_info = b's' ∷ b'a' ∷ b'l' ∷ b't' ∷ []

abbrev pub hkdf_algorithm : CipherSuiteVariant → HkdfAlgorithm
hkdf_algorithm aes_gcm128_sha256 = hkdf_sha256
hkdf_algorithm aes_gcm256_sha512 = hkdf_sha512

-- `map_err(|_| e)` over a call of `ring`
abbrev pub ok_or {ℓ} : {A : Type ℓ} → SframeError → Option A → Outcome A
ok_or e none = err e
ok_or e (some a) = ok a

-- What `expand_secret_from` promises of a secret for a cipher suite.
pub record IsSecretFor (suite : CipherSuite) (secret : Secret) : Type 0 where
  pub key_fits : length secret.key ≡ suite.key_len
  pub salt_fits : length secret.salt ≡ suite.nonce_len

module _ (ring : Ring.Ring) where
  open ring use {Prk, extract, expand, algorithm_of, algorithm_of-extract, expand_lem}

  unfoldable pub expand_key : Prk → List ℕ → ℕ → Outcome (List ℕ)
  expand_key prk info key_len = ok_or key_expansion (expand prk info key_len)

  unfoldable pub expand_secret_from : List ℕ → CipherSuite → Outcome Secret
  expand_secret_from key_material suite = do
    let prk = extract (hkdf_algorithm suite.variant) sframe_hkdf_salt key_material
    key ← expand_key prk sframe_hkdf_key_expand_info suite.key_len
    salt ← expand_key prk sframe_hkdf_salt_expand_info suite.nonce_len
    ok (record { key = key; salt = salt })

  -- `KeyMaterial::expand_as_secret`
  abbrev pub expand_as_secret : List ℕ → CipherSuite → Outcome Secret
  expand_as_secret key_material suite = expand_secret_from key_material suite

  expand_key_lem :
      (a : HkdfAlgorithm) (material info : List ℕ) (len : ℕ)
      → len ≤ 255 * digest_len a
      → (okm : List ℕ) × (expand_key (extract a sframe_hkdf_salt material) info len ≡ ok okm)
        × (length okm ≡ len)
  expand_key_lem a material info len fits =
      let prk : Prk = extract a sframe_hkdf_salt material in
      let (okm, done, len_okm, bytes) = expand_lem prk info len (
        let e : digest_len (algorithm_of prk) ≡ digest_len a =
          ap digest_len (algorithm_of-extract a sframe_hkdf_salt material) in
        rw e fits) in
      (okm, unfold expand_key in rw done, len_okm)

  expand_secret :
      (suite : CipherSuite) (material : List ℕ)
      → suite.key_len ≤ 255 * digest_len (hkdf_algorithm suite.variant)
      → suite.nonce_len ≤ 255 * digest_len (hkdf_algorithm suite.variant)
      → (secret : Secret) × (expand_secret_from material suite ≡ ok secret)
        × IsSecretFor suite secret
  expand_secret suite material key_ok salt_ok =
      let a : HkdfAlgorithm = hkdf_algorithm suite.variant in
      let (key, key_done, key_len) =
        expand_key_lem a material sframe_hkdf_key_expand_info suite.key_len key_ok in
      let (salt, salt_done, salt_len) =
        expand_key_lem a material sframe_hkdf_salt_expand_info suite.nonce_len salt_ok in
      (
        record { key = key; salt = salt },
        unfold expand_secret_from in rw (key_done, salt_done),
        record { key_fits = key_len; salt_fits = salt_len },
      )

  -- For both cipher suites and every key material the expansion succeeds, with a key and a salt of
  -- the suite's lengths.
  pub expand_secret_from-IsSecretFor :
      (variant : CipherSuiteVariant) (material : List ℕ)
      → (secret : Secret) × (expand_secret_from material (from_variant variant) ≡ ok secret)
        × IsSecretFor (from_variant variant) secret
  expand_secret_from-IsSecretFor aes_gcm128_sha256 material =
      expand_secret (from_variant aes_gcm128_sha256) material (omega arith) (omega arith)
  expand_secret_from-IsSecretFor aes_gcm256_sha512 material =
      expand_secret (from_variant aes_gcm256_sha512) material (omega arith) (omega arith)
