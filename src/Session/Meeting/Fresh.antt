-- ===== src/Session/Meeting/Fresh.antt =====
-- A meeting of new senders with one new receiver.
use secure_frame_rs.Prelude.{
  ℕ, ◌≡◌, ◌≢◌, ap, ◌∙◌, sym, refl, arith, List, [], ◌∷◌, map, All, AllPairs, some, Bool-cases, inl,
  inr, false,
}
use secure_frame_rs.KeyId.{KeyId, FitsHeader}
use secure_frame_rs.Outcome.{Outcome, ok, err, panic, ok-injective}
use secure_frame_rs.Exec.{Exec, pure, lift, ◌>>=◌, ◌>>◌}
use secure_frame_rs.Bitfield.{Msb0}
use secure_frame_rs.Crypto.CipherSuite.{aes_gcm256_sha512, from_variant}
use secure_frame_rs.Crypto.Ring
use secure_frame_rs.Sender
use secure_frame_rs.Sender.{Sender}
use secure_frame_rs.Sender.Keys as SenderKeys
use secure_frame_rs.Receiver
use secure_frame_rs.Receiver.{Receiver, ReceiverOptions}
use secure_frame_rs.Receiver.Keys as ReceiverKeys
use secure_frame_rs.Receiver.Secrets
use secure_frame_rs.Receiver.Secrets.{key_eq, key_eq_iff}
use secure_frame_rs.Session.Setup.{FitsHeader-InRange}
use secure_frame_rs.Session.Meeting.{Event, run_meeting}
use secure_frame_rs.Session.Meeting.Room.{Room, run_room}
use secure_frame_rs.Session.Meeting.Hosts.{IsMember, CanSpeak}
use secure_frame_rs.Session.Meeting.Refines.{run_meeting-run_room}

-- A sender's key id and key material.
abbrev pub Participant : Type 0
Participant = KeyId × List ℕ

abbrev pub keyed_sender : Outcome (Unit {0}) × Sender → Outcome Sender
keyed_sender (ok _, s) = ok s
keyed_sender (err e, s) = err e
keyed_sender (panic, s) = panic

-- For each participant the receiver sets the key, and so does a default sender of its own.
unfoldable pub join : Ring.Ring → List Participant → Exec Receiver (List Sender)
join ring [] = pure []
join ring ((k, material) ∷ ps) = do
  Receiver.set_encryption_key ring k material
  s ← lift (keyed_sender (Sender.set_encryption_key ring material (Sender.new k)))
  others ← join ring ps
  pure (s ∷ others)

-- No two participants have the same key id.
abbrev pub IsAbsent : KeyId → List Participant → Type 0
IsAbsent k ps = All (λ p. p.0 ≢ k) ps

abbrev pub Distinct : List Participant → Type 0
Distinct [] = Unit
Distinct (p ∷ ps) = IsAbsent p.0 ps × Distinct ps

abbrev pub new_room : List Participant → Room
new_room ps = record {
  nexts = map (λ p. (p.0, 0)) ps;
  sent = [];
  forgotten = [];
  tolerance = 128;
  last = 0;
}

key_ne : (j k : KeyId) → j ≢ k → key_eq j k ≡ false
key_ne j k ne = elim (Bool-cases (key_eq j k)) [
  | inl same ↦ absurd (ne ((key_eq_iff j k).0 same))
  | inr other ↦ other
]

-- What joining leaves: every sender is a member, the options and the keys of others are as they were.
record Joins (ring : Ring.Ring) (ps : List Participant) (r : Receiver) : Type 0 where
  pub senders : List Sender
  pub after : Receiver
  pub joined : join ring ps r ≡ (ok senders, after)
  pub options : after.options ≡ r.options
  pub members : AllPairs (IsMember after.secrets) senders (map (λ p. (p.0, 0)) ps)
  pub others : (j : KeyId) → IsAbsent j ps → Secrets.get j after.secrets ≡ Secrets.get j r.secrets

join-Joins :
    (ring : Ring.Ring) (ps : List Participant) (r : Receiver)
    → r.options.cipher_suite ≡ from_variant aes_gcm256_sha512
    → All (λ p. FitsHeader p.0) ps
    → Distinct ps
    → Joins ring ps r
unfolding join
join-Joins ring [] r suite fit distinct = record {
  senders = [];
  after = r;
  joined = refl;
  options = refl;
  members = tt;
  others = λ j absent. refl;
}
join-Joins ring ((k, material) ∷ ps) r suite fit distinct =
    let (secret, key_fits, expanded, keyed) =
      SenderKeys.set_encryption_key_lem ring aes_gcm256_sha512 material (Sender.new k) refl in
    let (secret', _, expanded', done, options, secrets) =
      ReceiverKeys.set_encryption_key-get ring aes_gcm256_sha512 k material r suite in
    let r' : Receiver = (Receiver.set_encryption_key ring k material r).1 in
    let same : secret' ≡ secret = ok-injective (sym expanded' ∙ expanded) in
    let suite' : r'.options.cipher_suite ≡ from_variant aes_gcm256_sha512 =
      ap (λ (t : ReceiverOptions). t.cipher_suite) options ∙ suite in
    let rest : Joins ring ps r' = join-Joins ring ps r' suite' fit.1 distinct.1 in
    let found : Secrets.get k rest.after.secrets ≡ some secret =
      rest.others k distinct.0 ∙ secrets k ∙ rw ((key_eq_iff k k).1 refl) (ap some same) in
    record {
      senders = record (Sender.new k) { secret = some secret } ∷ rest.senders;
      after = rest.after;
      joined = rw done (rw keyed (rw rest.joined refl));
      options = rest.options ∙ options;
      members = (
        record {
          id = refl;
          secret = secret;
          ready = record {
            suite = refl;
            has_key = refl;
            key_fits = key_fits;
            key_in_range = FitsHeader-InRange k fit.0;
            on_wheel = omega arith;
          };
          fits = fit.0;
          found = found;
          counted = refl;
        },
        rest.members,
      );
      others = λ j absent. rest.others j absent.1 ∙ secrets j ∙ rw (key_ne k j absent.0) refl;
    }

-- For any participants with different key ids that fit their headers, and any key material, setting
-- all their keys in a default receiver and in default senders succeeds; then, for every sequence of
-- frames that can be sent by any of them and arrive in any order, more than once or never, with
-- forged frames of any bytes and removals of keys between them, the receiver returns what a new room
-- with the tolerance 128 says: for each frame of a sender whose number the one window accepts the
-- payload, or the missing key once that sender's key is removed, and the replay error for every
-- other; all that a forged frame does is to move the window to the count in its header, if the window
-- accepts that.
pub run_meeting-new_room :
    (bits : Msb0) (ring : Ring.Ring) (ps : List Participant) (es : List Event)
    → All (λ p. FitsHeader p.0) ps
    → Distinct ps
    → All (CanSpeak ring) es
    → (senders : List Sender) × (r : Receiver) × (join ring ps Receiver.default ≡ (ok senders, r))
      × (run_meeting bits ring es (record { senders = senders; wire = []; receiver = r })
          ≡ run_room es (new_room ps))
run_meeting-new_room bits ring ps es fit distinct can =
    let joins : Joins ring ps Receiver.default =
      join-Joins ring ps Receiver.default refl fit distinct in
    let options : joins.after.options ≡ Receiver.default.options = joins.options in
    (
      joins.senders,
      joins.after,
      joins.joined,
      run_meeting-run_room bits ring joins.after.secrets es _ (new_room ps)
          (record {
            members = joins.members;
            kept = tt;
            suite = ap (λ (t : ReceiverOptions). t.cipher_suite) options;
            has_keys = λ k. refl;
            tolerance = ap (λ (t : ReceiverOptions). t.frame_validation.tolerance) options;
            last =
                ap (λ (t : ReceiverOptions). t.frame_validation.last_frame_count.numeric_value)
                  options;
            last_fits = rw options (omega arith);
          })
          can,
    )
