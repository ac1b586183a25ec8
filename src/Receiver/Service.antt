-- ===== src/Receiver/Service.antt =====
-- What a receiver promises its callers: the material that was set last for each key id, and the last
-- count. Secrets, the list of the map and the buffer are not part of it.
pub mod Refines
use secure_frame_rs.Prelude.{
  ℕ, ◌-◌, List, [], ◌∷◌, ◌++◌, length, take, drop, Option, none, some, if◌then◌else◌,
}
use secure_frame_rs.KeyId.{KeyId}
use secure_frame_rs.Outcome.{
  Outcome, ok, err, panic, frame_validation_failed, frame_counter_too_old, missing_decryption_key,
}
use secure_frame_rs.Header.Structs.{Header}
use secure_frame_rs.Header.Codec
use secure_frame_rs.Header.Codec.Parse.{parse}
use secure_frame_rs.FrameValidation.Window.{accepts}
use secure_frame_rs.Crypto.CipherSuite.{CipherSuiteVariant, from_variant}
use secure_frame_rs.Crypto.Ring
use secure_frame_rs.Crypto.Secret.{Secret}
use secure_frame_rs.Crypto.KeyExpansion.{expand_secret_from}
use secure_frame_rs.Crypto.Aead
use secure_frame_rs.Receiver.{is_some}
use secure_frame_rs.Receiver.Secrets.{key_eq}
use secure_frame_rs.Receiver.Forged.{last_after}
use secure_frame_rs.Receiver.Observed.{
  Call, set_key, remove_key, decrypt_frame, Reply, of_set, of_remove, of_decrypt,
}

pub record Service : Type 0 where
  pub materials : KeyId → Option (List ℕ)
  pub tolerance : ℕ
  pub last : ℕ

abbrev pub new_service : Service
new_service = record { materials = λ _. none; tolerance = 128; last = 0 }

abbrev pub to_option {ℓ} : {A : Type ℓ} → Outcome A → Option A
to_option (ok a) = some a
to_option (err e) = none
to_option panic = none

module _ (ring : Ring.Ring) (v : CipherSuiteVariant) where
  -- The secret that the suite expands from a material.
  abbrev pub secret_of : Option (List ℕ) → Option Secret
  secret_of none = none
  secret_of (some material) = to_option (expand_secret_from ring material (from_variant v))

  -- The opened bytes behind the skipped ones, without as many as the suite says a tag has.
  abbrev pub opened_reply : List ℕ → Outcome (List ℕ) × List ℕ → Outcome (List ℕ)
  opened_reply front (ok text, io) =
      ok (take (length (front ++ io) - (from_variant v).auth_tag_len) (front ++ io))
  opened_reply front (err e, io) = err e
  opened_reply front (panic, io) = panic

  abbrev pub body_reply : Option Secret → Header → List ℕ → List ℕ → Outcome (List ℕ)
  body_reply none h front rest = err (missing_decryption_key (Codec.key_id h))
  body_reply (some secret) h front rest = opened_reply front (
      Aead.decrypt ring (from_variant v) secret (take (Codec.size h) rest) (Codec.frame_count h)
        (drop (Codec.size h) rest))

  abbrev pub frame_reply : Option Header → List ℕ → List ℕ → Service → Outcome (List ℕ)
  frame_reply none front rest st = panic
  frame_reply (some h) front rest st =
      if accepts st.tolerance st.last (Codec.frame_count h).numeric_value
      then body_reply (secret_of (st.materials (Codec.key_id h))) h front rest
      else err (frame_validation_failed frame_counter_too_old)

  abbrev pub serve : Call → Service → Reply × Service
  serve (set_key k material) st = (
    of_set (ok tt),
    record st { materials = λ j. if key_eq k j then some material else st.materials j },
  )
  serve (remove_key k) st = (
    of_remove (ok (is_some (st.materials k))),
    record st { materials = λ j. if key_eq k j then none else st.materials j },
  )
  serve (decrypt_frame frame skip) st = (
    of_decrypt (frame_reply (parse (drop skip frame)) (take skip frame) (drop skip frame) st),
    record st { last = last_after (parse (drop skip frame)) st.tolerance st.last },
  )

  unfoldable pub serve_all : List Call → Service → List Reply
  serve_all [] st = []
  serve_all (c ∷ cs) st = let done = serve c st in done.0 ∷ serve_all cs done.1
