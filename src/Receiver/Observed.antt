-- ===== src/Receiver/Observed.antt =====
-- What a caller sees of a receiver: the map's lookups, not its list.
use secure_frame_rs.Prelude.{
  ℕ, ◌≡◌, ap, ◌∙◌, sym, refl, arith, List, [], ◌∷◌, Bool, Option, none, some, if◌then◌else◌,
}
use secure_frame_rs.KeyId.{KeyId}
use secure_frame_rs.Outcome.{Outcome, ok, err, panic, slice_from}
use secure_frame_rs.Exec.{Exec, continue, put}
use secure_frame_rs.Crypto.KeyExpansion.{expand_as_secret}
use secure_frame_rs.Header.Codec
use secure_frame_rs.FrameValidation.{ReplayAttackProtection, validate}
use secure_frame_rs.Bitfield.{Msb0}
use secure_frame_rs.Header.Structs.{Header}
use secure_frame_rs.Crypto.Ring
use secure_frame_rs.Crypto.Secret.{Secret}
use secure_frame_rs.Receiver.{
  Receiver, decrypt, decrypt_by, decrypt_with, set_encryption_key, remove_encryption_key,
  set_validation, is_some,
}
use secure_frame_rs.Receiver.Secrets
use secure_frame_rs.Receiver.Secrets.{key_eq, get-insert, get-without}
use secure_frame_rs.Receiver.KeyMap.{SameLookups}

-- The same receiver with another list.
abbrev pub with_secrets :
    {A : Type 0} → List (KeyId × Secret) → Outcome A × Receiver → Outcome A × Receiver
with_secrets m call = (call.0, record call.1 { secrets = m })

continue-with_secrets :
    {A B : Type 0} (m : List (KeyId × Secret)) (o : Outcome A) (f : A → Exec Receiver B)
    (r r' : Receiver)
    → r' ≡ record r { secrets = m }
    → ((a : A) → f a (record r { secrets = m }) ≡ with_secrets m (f a r))
    → continue o f r' ≡ with_secrets m (continue o f r)
continue-with_secrets m (ok a) f r r' e h = ap (f a) e ∙ h a
continue-with_secrets m (err x) f r r' e h = ap (λ t. (err x, t)) e
continue-with_secrets m panic f r r' e h = ap (λ t. (panic, t)) e

module _ (bits : Msb0) (ring : Ring.Ring) where
  decrypt_with-with_secrets :
      (m : List (KeyId × Secret)) (secret : Secret) (h : Header) (frame : List ℕ) (skip : ℕ)
      (r : Receiver)
      → decrypt_with bits ring secret h frame skip (record r { secrets = m })
        ≡ with_secrets m (decrypt_with bits ring secret h frame skip r)
  unfolding decrypt_with
  decrypt_with-with_secrets m secret h frame skip r = ground arith

  decrypt_by-with_secrets :
      (m : List (KeyId × Secret)) (o : Option Secret) (h : Header) (frame : List ℕ) (skip : ℕ)
      (r : Receiver)
      → decrypt_by bits ring o h frame skip (record r { secrets = m })
        ≡ with_secrets m (decrypt_by bits ring o h frame skip r)
  decrypt_by-with_secrets m none h frame skip r = refl
  decrypt_by-with_secrets m (some secret) h frame skip r =
      decrypt_with-with_secrets m secret h frame skip r

  pub decrypt-with_secrets :
      (m : List (KeyId × Secret)) (frame : List ℕ) (skip : ℕ) (r : Receiver)
      → SameLookups m r.secrets
      → decrypt bits ring frame skip (record r { secrets = m })
        ≡ with_secrets m (decrypt bits ring frame skip r)
  unfolding decrypt
  decrypt-with_secrets m frame skip r same =
      continue-with_secrets m (slice_from frame skip) _ r (record r { secrets = m }) refl
        (λ received.
          continue-with_secrets m (Codec.deserialize bits received) _ r (record r { secrets = m })
            refl
            (λ h.
              let p : ReplayAttackProtection = (validate h r.options.frame_validation).1 in
              continue-with_secrets m (validate h r.options.frame_validation).0
                (λ _ s.
                  decrypt_by bits ring (Secrets.get (Codec.key_id h) s.secrets) h frame skip s)
                (set_validation p r) (record (set_validation p r) { secrets = m }) refl
                (λ _.
                  ap
                    (λ t.
                      decrypt_by bits ring t h frame skip
                        (record (set_validation p r) { secrets = m }))
                    (same (Codec.key_id h))
                  ∙ decrypt_by-with_secrets m (Secrets.get (Codec.key_id h) r.secrets) h frame skip
                      (set_validation p r))))

-- A call of one of the methods, and what it returns.
pub data Call : Type 0 where
  set_key : KeyId → List ℕ → Call
  remove_key : KeyId → Call
  decrypt_frame : List ℕ → ℕ → Call

pub data Reply : Type 0 where
  of_set : Outcome (Unit {0}) → Reply
  of_remove : Outcome Bool → Reply
  of_decrypt : Outcome (List ℕ) → Reply

-- The map after a key is set, if its expansion succeeded.
abbrev set_to : KeyId → Receiver → Outcome Secret → Outcome (Unit {0}) × Receiver
set_to k r o =
    continue o (λ secret. put (record r { secrets = Secrets.insert k secret r.secrets })) r

set_same :
    (o : Outcome Secret) (k : KeyId) (m : List (KeyId × Secret)) (r : Receiver)
    → SameLookups m r.secrets
    → (m' : List (KeyId × Secret)) × SameLookups m' (set_to k r o).1.secrets
      × (◌≡◌ {A = Reply × Receiver}
          (
            of_set (set_to k (record r { secrets = m }) o).0,
            (set_to k (record r { secrets = m }) o).1,
          )
          (of_set (set_to k r o).0, record (set_to k r o).1 { secrets = m' }))
set_same (ok secret) k m r same = (
  Secrets.insert k secret m,
  λ j.
      get-insert k j secret m
      ∙ ap (λ t. if key_eq k j then some secret else t) (same j)
      ∙ sym (get-insert k j secret r.secrets),
  refl,
)
set_same (err e) k m r same = (m, same, refl)
set_same panic k m r same = (m, same, refl)

module _ (bits : Msb0) (ring : Ring.Ring) where
  unfoldable pub call : Call → Receiver → Reply × Receiver
  call (set_key k material) r =
      let done = set_encryption_key ring k material r in (of_set done.0, done.1)
  call (remove_key k) r = let done = remove_encryption_key k r in (of_remove done.0, done.1)
  call (decrypt_frame frame skip) r =
      let done = decrypt bits ring frame skip r in (of_decrypt done.0, done.1)

  -- The replies to calls in order, errors and panics among them.
  unfoldable pub replies : List Call → Receiver → List Reply
  replies [] r = []
  replies (c ∷ cs) r = let done = call c r in done.0 ∷ replies cs done.1

  pub secrets-decrypt :
      (frame : List ℕ) (skip : ℕ) (r : Receiver)
      → (decrypt bits ring frame skip r).1.secrets ≡ r.secrets
  secrets-decrypt frame skip r =
      ap (λ (t : Outcome (List ℕ) × Receiver). t.1.secrets)
        (decrypt-with_secrets bits ring r.secrets frame skip r (λ k. refl))

  -- One call on two receivers that differ in their lists: the same reply, and lists with the same
  -- lookups.
  call_same :
      (c : Call) (m : List (KeyId × Secret)) (r : Receiver)
      → SameLookups m r.secrets
      → (m' : List (KeyId × Secret)) × SameLookups m' (call c r).1.secrets
        × (call c (record r { secrets = m }) ≡ ((call c r).0, record (call c r).1 { secrets = m' }))
  unfolding call
  call_same (set_key k material) m r same =
      unfold set_encryption_key in
      set_same (expand_as_secret ring material r.options.cipher_suite) k m r same
  call_same (remove_key k) m r same =
      unfold remove_encryption_key in
      (
        Secrets.without k m,
        λ j.
            get-without k j m
            ∙ ap (λ t. if key_eq k j then none else t) (same j)
            ∙ sym (get-without k j r.secrets),
        ap (λ t. (of_remove (ok (is_some t)), record r { secrets = Secrets.without k m })) (same k),
      )
  call_same (decrypt_frame frame skip) m r same = (
    m,
    λ k. same k ∙ ap (Secrets.get k) (sym (secrets-decrypt frame skip r)),
    ap (λ t. (of_decrypt t.0, t.1)) (decrypt-with_secrets bits ring m frame skip r same),
  )

  -- Receivers that differ only in how their maps are represented give the same replies to every
  -- sequence of calls.
  pub replies_same :
      (cs : List Call) (m : List (KeyId × Secret)) (r : Receiver)
      → SameLookups m r.secrets
      → replies cs (record r { secrets = m }) ≡ replies cs r
  unfolding replies
  replies_same [] m r same = refl
  replies_same (c ∷ cs) m r same =
      let (m', same', done) = call_same c m r same in
      rw done (ap (λ t. (call c r).0 ∷ t) (replies_same cs m' (call c r).1 same'))
