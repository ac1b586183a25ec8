-- ===== src/Examples/Ends.antt =====
-- Senders and receivers with a key, and frames for them.
use secure_frame_rs.Prelude.{ℕ, ◌≡◌, refl, arith, List, [], ◌∷◌, replicate, some}
use secure_frame_rs.KeyId.{KeyId}
use secure_frame_rs.Header.FrameCount.{from_u64}
use secure_frame_rs.Crypto.CipherSuite.{
  CipherSuiteVariant, aes_gcm128_sha256, aes_gcm256_sha512, from_variant,
}
use secure_frame_rs.Crypto.Secret.{Secret}
use secure_frame_rs.Sender.{Sender}
use secure_frame_rs.Sender.Frames.{IsReady}
use secure_frame_rs.Receiver.{Receiver}
use secure_frame_rs.Receiver.Secrets
use secure_frame_rs.Receiver.WellFormed.{IsWellFormed}
use secure_frame_rs.Session.{MediaFrame, IsSendable}
use secure_frame_rs.Session.Linked.{Linked}
use secure_frame_rs.Examples.Clear.{example_ring}

abbrev pub material : List ℕ
material = 77 ∷ 65 ∷ 84 ∷ []

abbrev pub secret_256 : Secret
secret_256 = record { key = replicate 32 7; salt = replicate 12 7 }

abbrev pub secret_128 : Secret
secret_128 = record { key = replicate 16 7; salt = replicate 12 7 }

abbrev pub example_id : KeyId
example_id = KeyId.extended 40

abbrev pub sender_of : CipherSuiteVariant → KeyId → Secret → Sender
sender_of v k secret = record {
  frame_count = record { current_frame_count = 300 };
  key_id = k;
  cipher_suite = from_variant v;
  secret = some secret;
  buffer = [];
}

abbrev pub receiver_of : CipherSuiteVariant → Secret → Receiver
receiver_of v secret = record {
  secrets = (example_id, secret) ∷ [];
  options = record {
    cipher_suite = from_variant v;
    frame_validation = record { tolerance = 128; last_frame_count = from_u64 299 };
  };
  buffer = [];
}

abbrev pub sender_256 : Sender
sender_256 = sender_of aes_gcm256_sha512 example_id secret_256

abbrev pub receiver_256 : Receiver
receiver_256 = receiver_of aes_gcm256_sha512 secret_256

abbrev pub sender_128 : Sender
sender_128 = sender_of aes_gcm128_sha256 example_id secret_128

abbrev pub receiver_128 : Receiver
receiver_128 = receiver_of aes_gcm128_sha256 secret_128

pub sender_256-IsReady : IsReady aes_gcm256_sha512 secret_256 sender_256
sender_256-IsReady = record {
  suite = refl;
  has_key = refl;
  key_fits = record { key_fits = refl; salt_fits = refl };
  key_in_range = omega arith;
  on_wheel = omega arith;
}

pub sender_128-IsReady : IsReady aes_gcm128_sha256 secret_128 sender_128
sender_128-IsReady = record {
  suite = refl;
  has_key = refl;
  key_fits = record { key_fits = refl; salt_fits = refl };
  key_in_range = omega arith;
  on_wheel = omega arith;
}

pub get_example :
    (secret : Secret) → Secrets.get example_id ((example_id, secret) ∷ []) ≡ some secret
unfolding Secrets.get
get_example secret = refl

pub Linked-256 : Linked aes_gcm256_sha512 secret_256 1 sender_256 receiver_256
Linked-256 = record {
  ready = sender_256-IsReady;
  fits = omega arith;
  suite = refl;
  has_key = get_example secret_256;
  last_on_wheel = omega arith;
  follows = refl;
}

pub Linked-128 : Linked aes_gcm128_sha256 secret_128 1 sender_128 receiver_128
Linked-128 = record {
  ready = sender_128-IsReady;
  fits = omega arith;
  suite = refl;
  has_key = get_example secret_128;
  last_on_wheel = omega arith;
  follows = refl;
}

abbrev pub first_frame : MediaFrame
first_frame = record { payload = 10 ∷ 20 ∷ 30 ∷ 40 ∷ []; skip = 1 }

abbrev pub second_frame : MediaFrame
second_frame = record { payload = 255 ∷ 0 ∷ []; skip = 0 }

pub first_frame-IsSendable : IsSendable example_ring first_frame
first_frame-IsSendable = record {
  skipped = omega arith;
  short = omega arith;
  bytes = (omega arith, (omega arith, (omega arith, (omega arith, tt))));
}

pub second_frame-IsSendable : IsSendable example_ring second_frame
second_frame-IsSendable = record {
  skipped = omega arith;
  short = omega arith;
  bytes = (omega arith, (omega arith, tt));
}

get_one :
    (k : KeyId) (secret found : Secret)
    → Secrets.get k ((example_id, secret) ∷ []) ≡ some found
    → secret ≡ found
unfolding Secrets.get
get_one k secret found e = ground arith

pub receiver_256-IsWellFormed : IsWellFormed aes_gcm256_sha512 receiver_256
receiver_256-IsWellFormed = record {
  suite = refl;
  keyed = λ k found e. rw (← get_one k secret_256 found e) sender_256-IsReady.key_fits;
  last = omega arith;
}
