-- ===== src/Header/Codec/Fields.antt =====
-- The fields of a header that was made from a key id and a count.
use secure_frame_rs.Prelude.{◌≡◌, refl}
use secure_frame_rs.KeyId.{KeyId}
use secure_frame_rs.Header.FrameCount.{FrameCount}
use secure_frame_rs.Header.Codec.{with_frame_count, frame_count, key_id}

pub frame_count-with_frame_count :
    (k : KeyId) (c : FrameCount) → frame_count (with_frame_count k c) ≡ c
unfolding frame_count with_frame_count
frame_count-with_frame_count (KeyId.basic k) c = refl
frame_count-with_frame_count (KeyId.extended k) c = refl

pub key_id-with_frame_count : (k : KeyId) (c : FrameCount) → key_id (with_frame_count k c) ≡ k
unfolding key_id with_frame_count
key_id-with_frame_count (KeyId.basic k) c = refl
key_id-with_frame_count (KeyId.extended k) c = refl
