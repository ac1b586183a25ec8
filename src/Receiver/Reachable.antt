-- ===== src/Receiver/Reachable.antt =====
-- The receivers of a running program: what any sequence of calls makes of a new one.
use secure_frame_rs.Prelude.{ℕ, ◌≡◌, ◌↔◌, List, All, drop, none, some, Bool, sym, ap, ◌∙◌}
use secure_frame_rs.KeyId.{KeyId}
use secure_frame_rs.Outcome.{Outcome, ok, panic}
use secure_frame_rs.Bitfield.{Msb0}
use secure_frame_rs.Header.Util.{IsByte}
use secure_frame_rs.Header.Codec.Parse.{parse}
use secure_frame_rs.Crypto.CipherSuite.{CipherSuiteVariant, from_variant}
use secure_frame_rs.Crypto.Secret.{Secret}
use secure_frame_rs.Crypto.KeyExpansion.{expand_secret_from}
use secure_frame_rs.Crypto.Ring
use secure_frame_rs.Receiver.{
  Receiver, with_cipher_suite, decrypt, set_encryption_key, remove_encryption_key,
}
use secure_frame_rs.Receiver.WellFormed.{
  IsWellFormed, with_cipher_suite-IsWellFormed, set_encryption_key-IsWellFormed,
  remove_encryption_key-IsWellFormed, decrypt-IsWellFormed, either_secret, kept_secret, no_secret,
}
use secure_frame_rs.Receiver.Secrets
use secure_frame_rs.Receiver.Secrets.{key_eq}
use secure_frame_rs.Receiver.Keys.{set_encryption_key-get, remove_encryption_key-get}
use secure_frame_rs.Receiver.Observed.{secrets-decrypt}
use secure_frame_rs.Receiver.Total.{decrypt-panics_iff}
use mathlib.Core.Path.{subst}

-- One call with any arguments, whatever it returns; a frame is bytes.
pub data Step (bits : Msb0) (ring : Ring.Ring) (r : Receiver) : Receiver → Type 1 where
  sets :
      {r' : Receiver} (k : KeyId) (material : List ℕ) (out : Outcome (Unit {0}))
      → set_encryption_key ring k material r ≡ (out, r')
      → Step bits ring r r'
  removes :
      {r' : Receiver} (k : KeyId) (out : Outcome Bool)
      → remove_encryption_key k r ≡ (out, r')
      → Step bits ring r r'
  decrypts :
      {r' : Receiver} (frame : List ℕ) (skip : ℕ) (out : Outcome (List ℕ))
      → All IsByte frame
      → decrypt bits ring frame skip r ≡ (out, r')
      → Step bits ring r r'

pub data Reachable (bits : Msb0) (ring : Ring.Ring) (v : CipherSuiteVariant)
    : Receiver → Type 1 where
  start : Reachable bits ring v (with_cipher_suite v)
  later :
      {r r' : Receiver} → Reachable bits ring v r → Step bits ring r r' → Reachable bits ring v r'

abbrev pub FromMaterial : Ring.Ring → CipherSuiteVariant → Secret → Type 0
FromMaterial ring v secret =
    (material : List ℕ) × (expand_secret_from ring material (from_variant v) ≡ ok secret)

-- Every secret is what the suite expands from some key material.
abbrev pub IsExpanded : Ring.Ring → CipherSuiteVariant → Receiver → Type 0
IsExpanded ring v r =
    (k : KeyId) (secret : Secret)
    → Secrets.get k r.secrets ≡ some secret
    → FromMaterial ring v secret

abbrev IsKeyed : Ring.Ring → CipherSuiteVariant → Receiver → Type 0
IsKeyed ring v r = IsWellFormed v r × IsExpanded ring v r

left_by :
    {A : Type 0} (ring : Ring.Ring) (v : CipherSuiteVariant) {r' : Receiver} {out : Outcome A}
    {call : Outcome A × Receiver}
    → call ≡ (out, r')
    → IsKeyed ring v call.1
    → IsKeyed ring v r'
left_by ring v e keyed = subst (λ t. IsKeyed ring v t.1) e keyed

set_encryption_key-IsExpanded :
    (ring : Ring.Ring) (v : CipherSuiteVariant) (k : KeyId) (material : List ℕ) (r : Receiver)
    → IsKeyed ring v r
    → IsExpanded ring v (set_encryption_key ring k material r).1
set_encryption_key-IsExpanded ring v k material r (formed, keyed) j other found =
    let (secret, _, expanded, done, options, secrets) =
      set_encryption_key-get ring v k material r formed.suite in
    either_secret (FromMaterial ring v) secret (key_eq k j) (Secrets.get j r.secrets)
      (material, expanded) (keyed j) other (sym (secrets j) ∙ found)

remove_encryption_key-IsExpanded :
    (ring : Ring.Ring) (v : CipherSuiteVariant) (k : KeyId) (r : Receiver)
    → IsExpanded ring v r
    → IsExpanded ring v (remove_encryption_key k r).1
remove_encryption_key-IsExpanded ring v k r keyed j other found =
    let (_, _, secrets) = remove_encryption_key-get k r in
    kept_secret (FromMaterial ring v) (key_eq k j) (Secrets.get j r.secrets) (keyed j) other
      (sym (secrets j) ∙ found)

Step-IsKeyed :
    {bits : Msb0} {ring : Ring.Ring} {v : CipherSuiteVariant} {r r' : Receiver}
    → Step bits ring r r'
    → IsKeyed ring v r
    → IsKeyed ring v r'
Step-IsKeyed {ring = ring} {v = v} {r = r} (sets k material out e) keyed = left_by ring v e (
  set_encryption_key-IsWellFormed ring v k material r keyed.0,
  set_encryption_key-IsExpanded ring v k material r keyed,
)
Step-IsKeyed {ring = ring} {v = v} {r = r} (removes k out e) keyed = left_by ring v e (
  remove_encryption_key-IsWellFormed v k r keyed.0,
  remove_encryption_key-IsExpanded ring v k r keyed.1,
)
Step-IsKeyed {bits = bits} {ring = ring} {v = v} {r = r} (decrypts frame skip out bytes e) keyed =
    left_by ring v e (
      decrypt-IsWellFormed bits ring v frame skip r bytes keyed.0,
      λ k secret found.
          keyed.1 k secret
            (sym (ap (Secrets.get k) (secrets-decrypt bits ring frame skip r)) ∙ found),
    )

-- Every receiver that a new one becomes by any sequence of calls that set keys, remove keys and
-- decrypt bytes, errors and panics among them, is well formed, that is, its suite is one of the
-- program's, every secret has the lengths of that suite and the last count is a u64; and every secret
-- in it is what the suite expands from some key material.
pub Reachable-IsWellFormed :
    (bits : Msb0) (ring : Ring.Ring) (v : CipherSuiteVariant) (r : Receiver)
    → Reachable bits ring v r
    → IsWellFormed v r × IsExpanded ring v r
Reachable-IsWellFormed bits ring v _ start =
    (with_cipher_suite-IsWellFormed v, λ k secret found. absurd (no_secret k secret found))
Reachable-IsWellFormed bits ring v _ (later {r = r} earlier step) =
    Step-IsKeyed step (Reachable-IsWellFormed bits ring v r earlier)

-- No such receiver panics on a frame of bytes that holds a header behind the skipped bytes.
pub Reachable-panics_iff :
    (bits : Msb0) (ring : Ring.Ring) (v : CipherSuiteVariant) (r : Receiver) (frame : List ℕ)
    (skip : ℕ)
    → Reachable bits ring v r
    → All IsByte frame
    → ((decrypt bits ring frame skip r).0 ≡ panic) ↔ (parse (drop skip frame) ≡ none)
Reachable-panics_iff bits ring v r frame skip reached bytes =
    decrypt-panics_iff bits ring v frame skip r bytes
      (Reachable-IsWellFormed bits ring v r reached).0
