-- ===== src/Receiver/Service/Refines.antt =====
-- The receiver keeps the promise.
use secure_frame_rs.Prelude.{
  ℕ, ◌≡◌, ap, ap₂, ◌∙◌, sym, refl, List, [], ◌∷◌, take, drop, All, Option, Option-cases, none, some,
  Bool-cases, inl, inr,
}
use secure_frame_rs.KeyId.{KeyId}
use secure_frame_rs.Outcome.{Outcome, ok, err, panic}
use secure_frame_rs.Bitfield.{Msb0}
use secure_frame_rs.Header.Util.{IsByte}
use secure_frame_rs.Header.Structs.{Header}
use secure_frame_rs.Header.Codec
use secure_frame_rs.Header.Codec.Parse.{parse}
use secure_frame_rs.FrameValidation.{ReplayAttackProtection}
use secure_frame_rs.FrameValidation.Window.{accepts}
use secure_frame_rs.Crypto.CipherSuite.{CipherSuiteVariant, from_variant}
use secure_frame_rs.Crypto.Ring
use secure_frame_rs.Crypto.Secret.{Secret}
use secure_frame_rs.Crypto.KeyExpansion.{expand_secret_from, expand_secret_from-IsSecretFor}
use secure_frame_rs.Crypto.Aead
use secure_frame_rs.Receiver.{Receiver, with_cipher_suite, is_some}
use secure_frame_rs.Receiver.Secrets
use secure_frame_rs.Receiver.Secrets.{key_eq}
use secure_frame_rs.Receiver.Keys.{set_encryption_key-get, remove_encryption_key-get}
use secure_frame_rs.Receiver.Forged.{last_after, options-decrypt}
use secure_frame_rs.Receiver.Observed.{
  Call, set_key, remove_key, decrypt_frame, of_set, of_remove, of_decrypt, call, replies,
  secrets-decrypt,
}
use secure_frame_rs.Receiver.WellFormed.{
  IsWellFormed, with_cipher_suite-IsWellFormed, set_encryption_key-IsWellFormed,
  remove_encryption_key-IsWellFormed, decrypt-IsWellFormed,
}
use secure_frame_rs.Receiver.Described.{
  described, described_with, described_result, decrypt-described,
}
use secure_frame_rs.Receiver.Service.{
  Service, new_service, secret_of, opened_reply, body_reply, frame_reply, serve, serve_all,
}

-- The frames of a call are bytes.
abbrev pub IsCall : Call → Type 0
IsCall (set_key k material) = Unit
IsCall (remove_key k) = Unit
IsCall (decrypt_frame frame skip) = All IsByte frame

module _ (bits : Msb0) (ring : Ring.Ring) (v : CipherSuiteVariant) where
  record Keeps (r : Receiver) (st : Service) : Type 0 where
    formed : IsWellFormed v r
    known : (k : KeyId) → Secrets.get k r.secrets ≡ secret_of ring v (st.materials k)
    tolerance : r.options.frame_validation.tolerance ≡ st.tolerance
    last : r.options.frame_validation.last_frame_count.numeric_value ≡ st.last

  result_reply :
      (front : List ℕ) (r : Receiver) (out : Outcome (List ℕ) × List ℕ)
      → r.options.cipher_suite ≡ from_variant v
      → (described_result front r out).0 ≡ opened_reply ring v front out
  result_reply front r (ok text, io) suite = rw suite refl
  result_reply front r (err e, io) suite = refl
  result_reply front r (panic, io) suite = refl

  with_reply :
      (o : Option Secret) (h : Header) (front rest : List ℕ) (r : Receiver)
      → r.options.cipher_suite ≡ from_variant v
      → (described_with ring o h front rest r).0 ≡ body_reply ring v o h front rest
  with_reply none h front rest r suite = refl
  with_reply (some secret) h front rest r suite =
      result_reply front r
        (Aead.decrypt ring r.options.cipher_suite secret (take (Codec.size h) rest)
          (Codec.frame_count h) (drop (Codec.size h) rest))
        suite
      ∙ rw suite refl

  decrypt_reply :
      (frame : List ℕ) (skip : ℕ) (r : Receiver) (st : Service)
      → Keeps r st
      → (described ring frame skip r).0
        ≡ frame_reply ring v (parse (drop skip frame)) (take skip frame) (drop skip frame) st
  unfolding described
  decrypt_reply frame skip r st keeps =
      let w : ReplayAttackProtection = r.options.frame_validation in
      elim (Option-cases (parse (drop skip frame))) [
        | inl cut ↦ rw cut refl
        | inr (h, parsed) ↦
            let c : ℕ = (Codec.frame_count h).numeric_value in
            let same : accepts w.tolerance w.last_frame_count.numeric_value c
                ≡ accepts st.tolerance st.last c =
              ap₂ (λ a b. accepts a b c) keeps.tolerance keeps.last in
            rw parsed (
              rw same (elim (Bool-cases (accepts st.tolerance st.last c)) [
                | inl e ↦ rw e (
                    with_reply (Secrets.get (Codec.key_id h) r.secrets) h (take skip frame)
                      (drop skip frame) _ keeps.formed.suite
                    ∙ ap (λ t. body_reply ring v t h (take skip frame) (drop skip frame))
                        (keeps.known (Codec.key_id h)))
                | inr e ↦ rw e refl
              ]))
      ]

  secret_of-some :
      (material : List ℕ) (secret : Secret)
      → expand_secret_from ring material (from_variant v) ≡ ok secret
      → secret_of ring v (some material) ≡ some secret
  secret_of-some material secret expanded = rw expanded refl

  is_some-secret_of : (o : Option (List ℕ)) → is_some (secret_of ring v o) ≡ is_some o
  is_some-secret_of none = refl
  is_some-secret_of (some material) =
      let (secret, expanded, _) = expand_secret_from-IsSecretFor ring v material in rw expanded refl

  -- One call: the same reply, and states that belong together.
  abbrev Answers : Call → Receiver → Service → Type 0
  Answers c r st =
      ((call bits ring c r).0 ≡ (serve ring v c st).0)
      × Keeps (call bits ring c r).1 (serve ring v c st).1

  set_key-Answers :
      (k : KeyId) (material : List ℕ) (r : Receiver) (st : Service)
      → Keeps r st
      → Answers (set_key k material) r st
  unfolding call
  set_key-Answers k material r st keeps =
      let (secret, _, expanded, done, options, secrets) =
        set_encryption_key-get ring v k material r keeps.formed.suite in
      (
        ap of_set done,
        record {
          formed = set_encryption_key-IsWellFormed ring v k material r keeps.formed;
          known = λ j. secrets j ∙ elim (Bool-cases (key_eq k j)) [
            | inl e ↦ rw e (sym (secret_of-some material secret expanded))
            | inr e ↦ rw e (keeps.known j)
          ];
          tolerance = rw options keeps.tolerance;
          last = rw options keeps.last;
        },
      )

  remove_key-Answers :
      (k : KeyId) (r : Receiver) (st : Service) → Keeps r st → Answers (remove_key k) r st
  unfolding call
  remove_key-Answers k r st keeps =
      let (done, options, secrets) = remove_encryption_key-get k r in
      (
        ap of_remove done
            ∙ ap (λ t. of_remove (ok t))
                (ap is_some (keeps.known k) ∙ is_some-secret_of (st.materials k)),
        record {
          formed = remove_encryption_key-IsWellFormed v k r keeps.formed;
          known = λ j.
              secrets j
              ∙ elim (Bool-cases (key_eq k j)) [ inl e ↦ rw e refl | inr e ↦ rw e (keeps.known j) ];
          tolerance = rw options keeps.tolerance;
          last = rw options keeps.last;
        },
      )

  decrypt_frame-Answers :
      (frame : List ℕ) (skip : ℕ) (r : Receiver) (st : Service)
      → All IsByte frame
      → Keeps r st
      → Answers (decrypt_frame frame skip) r st
  unfolding call
  decrypt_frame-Answers frame skip r st bytes keeps =
      let options = options-decrypt bits ring frame skip r bytes keeps.formed.last in
      (
        ap of_decrypt (
            ap (λ t. t.0) (decrypt-described bits ring v frame skip r bytes keeps.formed)
            ∙ decrypt_reply frame skip r st keeps),
        record {
          formed = decrypt-IsWellFormed bits ring v frame skip r bytes keeps.formed;
          known = λ k. ap (Secrets.get k) (secrets-decrypt bits ring frame skip r) ∙ keeps.known k;
          tolerance = rw options keeps.tolerance;
          last =
              rw options
                (ap₂ (λ a b. last_after (parse (drop skip frame)) a b) keeps.tolerance keeps.last);
        },
      )

  call-Answers : (c : Call) (r : Receiver) (st : Service) → Keeps r st → IsCall c → Answers c r st
  call-Answers (set_key k material) r st keeps is = set_key-Answers k material r st keeps
  call-Answers (remove_key k) r st keeps is = remove_key-Answers k r st keeps
  call-Answers (decrypt_frame frame skip) r st keeps is =
      decrypt_frame-Answers frame skip r st is keeps

  replies-Keeps :
      (cs : List Call) (r : Receiver) (st : Service)
      → Keeps r st
      → All IsCall cs
      → replies bits ring cs r ≡ serve_all ring v cs st
  unfolding replies serve_all
  replies-Keeps [] r st keeps are = refl
  replies-Keeps (c ∷ cs) r st keeps are =
      let (same, next) = call-Answers c r st keeps are.0 in
      ap₂ (λ a b. a ∷ b) same
        (replies-Keeps cs (call bits ring c r).1 (serve ring v c st).1 next are.1)

-- A new receiver answers every sequence of calls that set keys, remove keys and decrypt bytes as a
-- service does that knows of the calls so far no more than the material set last for each key id and
-- not removed, and the last count: setting a key always succeeds, removing one tells whether it was
-- there, and decrypting panics if the format finds no header behind the skipped bytes, gives the
-- replay error if the window does not accept the header's count, otherwise the missing key if no
-- material is set for the header's key id, and else what opening the bytes behind the header comes to
-- with the secret that the suite expands from that material.
pub replies-serve_all :
    (bits : Msb0) (ring : Ring.Ring) (v : CipherSuiteVariant) (cs : List Call)
    → All IsCall cs
    → replies bits ring cs (with_cipher_suite v) ≡ serve_all ring v cs new_service
replies-serve_all bits ring v cs are =
    replies-Keeps bits ring v cs (with_cipher_suite v) new_service
      (record {
        formed = with_cipher_suite-IsWellFormed v;
        known = λ k. unfold Secrets.get in refl;
        tolerance = refl;
        last = refl;
      })
      are
