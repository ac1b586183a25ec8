-- ===== src/Receiver/WellFormed.antt =====
-- The receivers that the constructors and the operations lead to.
use secure_frame_rs.Prelude.{some-injective}
use secure_frame_rs.Prelude.{
  ℕ, ◌≡◌, ◌∙◌, sym, ap, refl, arith, List, [], ◌⊎◌, inl, inr, All, All-drop, drop, Option,
  Option-cases, some, none, Bool, Bool-cases, true, false, if◌then◌else◌,
}
use secure_frame_rs.KeyId.{KeyId}
use secure_frame_rs.Outcome.{ok, err, frame_validation_failed, frame_counter_too_old}
use secure_frame_rs.Bitfield.{Msb0}
use secure_frame_rs.Header.Util.{IsByte}
use secure_frame_rs.Header.FrameCount.{IsCount}
use secure_frame_rs.Header.Structs.{Header, basic, extended, IsHeader}
use secure_frame_rs.Header.Codec
use secure_frame_rs.Header.Codec.Parse.{parse}
use secure_frame_rs.Header.Codec.Bounds.{parse_bounds}
use secure_frame_rs.FrameValidation.{ReplayAttackProtection, validate}
use secure_frame_rs.FrameValidation.Window.{accepts, validate_lem}
use secure_frame_rs.Crypto.CipherSuite.{CipherSuiteVariant, from_variant}
use secure_frame_rs.Crypto.Ring
use secure_frame_rs.Crypto.Secret.{Secret}
use secure_frame_rs.Crypto.KeyExpansion.{IsSecretFor}
use secure_frame_rs.Receiver.{
  Receiver, ReceiverOptions, decrypt, decrypt_with, decrypt_by, set_validation, set_encryption_key,
  remove_encryption_key, with_cipher_suite,
}
use secure_frame_rs.Receiver.Secrets
use secure_frame_rs.Receiver.Secrets.{key_eq, get}
use secure_frame_rs.Receiver.Frames.{decrypt_enters}
use secure_frame_rs.Receiver.Keys.{set_encryption_key-get, remove_encryption_key-get}
use secure_frame_rs.Receiver.Refusals.{
  options-decrypt_by, decrypt_parsed, decrypt_cut, decrypt_refused,
}
use mathlib.Core.Path.{subst}

-- The suite is one of the program's, every secret has the lengths of that suite, and the last count is a
-- u64.
pub record IsWellFormed (v : CipherSuiteVariant) (r : Receiver) : Type 0 where
  pub suite : r.options.cipher_suite ≡ from_variant v
  pub keyed :
      (k : KeyId) (secret : Secret)
      → Secrets.get k r.secrets ≡ some secret
      → IsSecretFor (from_variant v) secret
  pub last : IsCount r.options.frame_validation.last_frame_count

pub no_secret : (k : KeyId) (secret : Secret) → get k [] ≡ some secret → ⊥
unfolding get
no_secret k secret found = cc

-- What holds of a new secret and of those that were there holds of those that are there then.
pub either_secret :
    (P : Secret → Type 0) (secret : Secret) (same : Bool) (old : Option Secret)
    → P secret
    → ((other : Secret) → old ≡ some other → P other)
    → (other : Secret) → (if same then some secret else old) ≡ some other
    → P other
either_secret P secret true old new keyed other found = subst P (some-injective found) new
either_secret P secret false old new keyed other found = keyed other found

pub kept_secret :
    (P : Secret → Type 0) (same : Bool) (old : Option Secret)
    → ((other : Secret) → old ≡ some other → P other)
    → (other : Secret) → (if same then none else old) ≡ some other
    → P other
kept_secret P true old keyed other found = absurd cc
kept_secret P false old keyed other found = keyed other found

parse_cases : (xs : List ℕ) → (parse xs ≡ none) ⊎ ((h : Header) × (parse xs ≡ some h))
parse_cases xs = Option-cases (parse xs)

-- A new receiver is well formed.
pub with_cipher_suite-IsWellFormed : (v : CipherSuiteVariant) → IsWellFormed v (with_cipher_suite v)
with_cipher_suite-IsWellFormed v = record {
  suite = refl;
  keyed = λ k secret found. absurd (no_secret k secret found);
  last = omega arith;
}

-- Setting a key keeps a receiver well formed.
pub set_encryption_key-IsWellFormed :
    (ring : Ring.Ring) (v : CipherSuiteVariant) (k : KeyId) (material : List ℕ) (r : Receiver)
    → IsWellFormed v r
    → IsWellFormed v (set_encryption_key ring k material r).1
set_encryption_key-IsWellFormed ring v k material r formed =
    let (secret, fits, expanded, done, options, secrets) =
      set_encryption_key-get ring v k material r formed.suite in
    record {
      suite = ap (λ (t : ReceiverOptions). t.cipher_suite) options ∙ formed.suite;
      keyed = λ j other found.
          either_secret (IsSecretFor (from_variant v)) secret (key_eq k j) (get j r.secrets) fits
            (formed.keyed j) other (sym (secrets j) ∙ found);
      last = rw options formed.last;
    }

-- Removing a key keeps a receiver well formed.
pub remove_encryption_key-IsWellFormed :
    (v : CipherSuiteVariant) (k : KeyId) (r : Receiver)
    → IsWellFormed v r
    → IsWellFormed v (remove_encryption_key k r).1
remove_encryption_key-IsWellFormed v k r formed =
    let (done, options, secrets) = remove_encryption_key-get k r in
    record {
      suite = ap (λ (t : ReceiverOptions). t.cipher_suite) options ∙ formed.suite;
      keyed = λ j other found.
          kept_secret (IsSecretFor (from_variant v)) (key_eq k j) (get j r.secrets) (formed.keyed j)
            other (sym (secrets j) ∙ found);
      last = rw options formed.last;
    }

pub frame_count-IsCount : (h : Header) → IsHeader h → IsCount (Codec.frame_count h)
unfolding Codec.frame_count
frame_count-IsCount (basic h) fits = fits.1
frame_count-IsCount (extended h) fits = fits.1

module _ (bits : Msb0) (ring : Ring.Ring) where
  secrets-decrypt_with :
      (secret : Secret) (h : Header) (frame : List ℕ) (skip : ℕ) (r : Receiver)
      → (decrypt_with bits ring secret h frame skip r).1.secrets ≡ r.secrets
  unfolding decrypt_with
  secrets-decrypt_with secret h frame skip r = ground arith

  secrets-decrypt_by :
      (o : Option Secret) (h : Header) (frame : List ℕ) (skip : ℕ) (r : Receiver)
      → (decrypt_by bits ring o h frame skip r).1.secrets ≡ r.secrets
  secrets-decrypt_by none h frame skip r = refl
  secrets-decrypt_by (some secret) h frame skip r = secrets-decrypt_with secret h frame skip r

  by_IsWellFormed :
      (v : CipherSuiteVariant) (o : Option Secret) (h : Header) (frame : List ℕ) (skip : ℕ)
      (r : Receiver)
      → IsWellFormed v r
      → IsWellFormed v (decrypt_by bits ring o h frame skip r).1
  by_IsWellFormed v o h frame skip r formed = record {
    suite = rw (options-decrypt_by bits ring o h frame skip r) formed.suite;
    keyed = λ k secret found.
        formed.keyed k secret (sym (ap (get k) (secrets-decrypt_by o h frame skip r)) ∙ found);
    last = rw (options-decrypt_by bits ring o h frame skip r) formed.last;
  }

  -- Decrypting any bytes, with whatever result, keeps a receiver well formed.
  pub decrypt-IsWellFormed :
      (v : CipherSuiteVariant) (frame : List ℕ) (skip : ℕ) (r : Receiver)
      → All IsByte frame
      → IsWellFormed v r
      → IsWellFormed v (decrypt bits ring frame skip r).1
  decrypt-IsWellFormed v frame skip r bytes formed = elim (parse_cases (drop skip frame)) [
    | inl cut ↦ rw (decrypt_cut bits ring frame skip r bytes cut) formed
    | inr (h, parsed) ↦
        let w : ReplayAttackProtection = r.options.frame_validation in
        let count : IsCount (Codec.frame_count h) =
          frame_count-IsCount h
            (parse_bounds (drop skip frame) h (All-drop IsByte skip frame bytes) parsed).0 in
        let (at, header) = decrypt_parsed bits ring frame skip h bytes parsed in
        elim (Bool-cases (
          accepts w.tolerance w.last_frame_count.numeric_value
            (Codec.frame_count h).numeric_value)) [
              | inl accepted ↦
                  let p : ReplayAttackProtection = record w {
                    last_frame_count = Codec.frame_count h;
                  } in
                  let valid : validate h w ≡ (ok tt, p) =
                    validate_lem h w count formed.last ∙ rw accepted in
                  rw (decrypt_enters bits ring frame (drop skip frame) skip h p r at header valid) (
                    by_IsWellFormed v (get (Codec.key_id h) r.secrets) h frame skip
                      (set_validation p r)
                      (record { suite = formed.suite; keyed = formed.keyed; last = count }))
              | inr refused ↦
                  let stays : validate h w
                      ≡ (err (frame_validation_failed frame_counter_too_old), w) =
                    validate_lem h w count formed.last ∙ rw refused in
                  rw
                    (decrypt_refused bits ring frame skip r h
                      (frame_validation_failed frame_counter_too_old) w bytes parsed stays)
                    formed
            ]
  ]
