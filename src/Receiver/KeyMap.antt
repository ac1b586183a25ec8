-- ===== src/Receiver/KeyMap.antt =====
-- The map of a receiver as what its lookups tell: lists that agree on every key id are one map.
use secure_frame_rs.Prelude.{
  ◌≡◌, ◌≢◌, ℕ, List, none, some, refl, arith, if◌then◌else◌, ap, sym, ◌∙◌,
}
use secure_frame_rs.KeyId.{KeyId}
use secure_frame_rs.Crypto.CipherSuite.{CipherSuiteVariant, from_variant}
use secure_frame_rs.Crypto.Ring
use secure_frame_rs.Crypto.Secret.{Secret}
use secure_frame_rs.Crypto.KeyExpansion.{expand_secret_from-IsSecretFor}
use secure_frame_rs.Receiver.{Receiver, set_encryption_key, remove_encryption_key}
use secure_frame_rs.Receiver.Secrets
use secure_frame_rs.Receiver.Secrets.{key_eq, key_eq_iff, get-insert, get-without}
use mathlib.Core.Quot
use mathlib.Core.Quot.{Quot, Quot-set}

abbrev pub SameLookups : List (KeyId × Secret) → List (KeyId × Secret) → Type 0
SameLookups m m' = (k : KeyId) → Secrets.get k m ≡ Secrets.get k m'

abbrev pub KeyMap : Type 0
KeyMap = Quot SameLookups

abbrev pub key_map : Receiver → KeyMap
key_map r = Quot.mk r.secrets

-- The map with a key, and without one.
abbrev pub insert : KeyId → Secret → KeyMap → KeyMap
insert k v =
    Quot.lift Quot-set (λ m. Quot.mk (Secrets.insert k v m))
      (λ m m' h. Quot.sound (λ j.
        get-insert k j v m
        ∙ ap (λ t. if key_eq k j then some v else t) (h j)
        ∙ sym (get-insert k j v m')))

abbrev pub without : KeyId → KeyMap → KeyMap
without k =
    Quot.lift Quot-set (λ m. Quot.mk (Secrets.without k m))
      (λ m m' h. Quot.sound (λ j.
        get-without k j m
        ∙ ap (λ t. if key_eq k j then none else t) (h j)
        ∙ sym (get-without k j m')))

pub insert_comm :
    (k k' : KeyId) (v v' : Secret)
    → k ≢ k'
    → (m : KeyMap) → insert k v (insert k' v' m) ≡ insert k' v' (insert k v m)
insert_comm k k' v v' differ =
    Quot.ind (λ m. Quot-set _ _)
      (λ m. Quot.sound (λ j. ground (
        arith,
        get-insert k j v (Secrets.insert k' v' m),
        get-insert k' j v' m,
        get-insert k' j v' (Secrets.insert k v m),
        get-insert k j v m,
        key_eq_iff k j,
        key_eq_iff k' j,
      )))

pub insert_twice :
    (k : KeyId) (v v' : Secret) (m : KeyMap) → insert k v (insert k v' m) ≡ insert k v m
insert_twice k v v' =
    Quot.ind (λ m. Quot-set _ _)
      (λ m. Quot.sound (λ j.
        ground (
          arith,
          get-insert k j v (Secrets.insert k v' m),
          get-insert k j v' m,
          get-insert k j v m,
        )))

pub without-insert : (k : KeyId) (v : Secret) (m : KeyMap) → without k (insert k v m) ≡ without k m
without-insert k v =
    Quot.ind (λ m. Quot-set _ _)
      (λ m. Quot.sound (λ j.
        ground
          (arith, get-without k j (Secrets.insert k v m), get-insert k j v m, get-without k j m)))

-- What is set for a key id, in both views of the map.
expanded : Ring.Ring → CipherSuiteVariant → List ℕ → Secret
expanded ring v material = (expand_secret_from-IsSecretFor ring v material).0

set_encryption_key-with :
    (ring : Ring.Ring) (v : CipherSuiteVariant) (k : KeyId) (material : List ℕ) (r : Receiver)
    → r.options.cipher_suite ≡ from_variant v
    → (set_encryption_key ring k material r).1
      ≡ record r { secrets = Secrets.insert k (expanded ring v material) r.secrets }
unfolding set_encryption_key expanded
set_encryption_key-with ring v k material r suite =
    let (secret, done, _) = expand_secret_from-IsSecretFor ring v material in
    rw suite (rw done refl)

key_map-set_twice :
    (ring : Ring.Ring) (v : CipherSuiteVariant) (k k' : KeyId) (material material' : List ℕ)
    (r : Receiver)
    → r.options.cipher_suite ≡ from_variant v
    → key_map (set_encryption_key ring k' material' (set_encryption_key ring k material r).1).1
      ≡ insert k' (expanded ring v material') (insert k (expanded ring v material) (key_map r))
key_map-set_twice ring v k k' material material' r suite =
    ap (λ t. key_map (set_encryption_key ring k' material' t).1)
      (set_encryption_key-with ring v k material r suite)
    ∙ ap key_map (
        set_encryption_key-with ring v k' material'
          (record r { secrets = Secrets.insert k (expanded ring v material) r.secrets }) suite)

-- Keys that are set for two different ids make the same map in either order.
pub set_encryption_key_comm :
    (ring : Ring.Ring) (v : CipherSuiteVariant) (k k' : KeyId) (material material' : List ℕ)
    (r : Receiver)
    → r.options.cipher_suite ≡ from_variant v
    → k ≢ k'
    → key_map (set_encryption_key ring k' material' (set_encryption_key ring k material r).1).1
      ≡ key_map (set_encryption_key ring k material (set_encryption_key ring k' material' r).1).1
set_encryption_key_comm ring v k k' material material' r suite differ =
    key_map-set_twice ring v k k' material material' r suite
    ∙ sym
        (insert_comm k k' (expanded ring v material) (expanded ring v material') differ (key_map r))
    ∙ sym (key_map-set_twice ring v k' k material' material r suite)

-- A key that is set last counts, whatever was set before.
pub set_encryption_key_twice :
    (ring : Ring.Ring) (v : CipherSuiteVariant) (k : KeyId) (material material' : List ℕ)
    (r : Receiver)
    → r.options.cipher_suite ≡ from_variant v
    → key_map (set_encryption_key ring k material' (set_encryption_key ring k material r).1).1
      ≡ key_map (set_encryption_key ring k material' r).1
set_encryption_key_twice ring v k material material' r suite =
    key_map-set_twice ring v k k material material' r suite
    ∙ insert_twice k (expanded ring v material') (expanded ring v material) (key_map r)
    ∙ sym (ap key_map (set_encryption_key-with ring v k material' r suite))

-- Removing a key undoes setting it, except that a secret that was there before is gone too.
pub remove-set_encryption_key :
    (ring : Ring.Ring) (v : CipherSuiteVariant) (k : KeyId) (material : List ℕ) (r : Receiver)
    → r.options.cipher_suite ≡ from_variant v
    → key_map (remove_encryption_key k (set_encryption_key ring k material r).1).1
      ≡ key_map (remove_encryption_key k r).1
unfolding remove_encryption_key
remove-set_encryption_key ring v k material r suite =
    ap (λ t. key_map (remove_encryption_key k t).1)
      (set_encryption_key-with ring v k material r suite)
    ∙ without-insert k (expanded ring v material) (key_map r)
