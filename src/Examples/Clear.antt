-- ===== src/Examples/Clear.antt =====
-- A crate `ring` that hides nothing: the ciphertext is the text, and the tag is zeros.
use secure_frame_rs.Prelude.{some-injective}
use secure_frame_rs.Prelude.{
  ℕ, zero, ◌+◌, ◌-◌, ◌*◌, ◌≡◌, sym, ap, refl, arith, List, [], ◌∷◌, ◌++◌, length, take, drop,
  replicate, All-replicate, length-replicate, length-append, take-append_len, drop-append_len,
  Option, some, none, Bool, true, ltb, leb, ◌==◌, ==_iff, ◌&&◌, if◌then◌else◌, le→leb, le→ltb,
  lt→ltb,
}
use secure_frame_rs.Header.Util.{IsByte}
use secure_frame_rs.Crypto.Ring
use secure_frame_rs.Crypto.Ring.{Algorithm, HkdfAlgorithm, key_len, digest_len, tag_len}

abbrev pub zero_tag : List ℕ
zero_tag = replicate tag_len 0

-- Whether all bytes are zero.
abbrev pub are_zeros : List ℕ → Bool
are_zeros [] = true
are_zeros (b ∷ bs) = (b == 0) && are_zeros bs

-- The text with a tag of zeros, which opening asks for.
abbrev pub open_in_place : List ℕ → List ℕ × Option (List ℕ)
open_in_place io =
    if ltb (length io) tag_len
    then (io, none)
    else if are_zeros (drop (length io - tag_len) io)
    then (io, some (take (length io - tag_len) io))
    else (io, none)

pub open_zero_tag :
    (text : List ℕ) → open_in_place (text ++ zero_tag) ≡ (text ++ zero_tag, some text)
open_zero_tag text =
    let len : length (text ++ zero_tag) ≡ length text + tag_len =
      omega (arith, length-append text zero_tag) in
    let at : length text ≡ length (text ++ zero_tag) - tag_len = omega (arith, len) in
    rw (le→ltb (length (text ++ zero_tag)) tag_len (omega (arith, len))) (
      rw (drop-append_len (length (text ++ zero_tag) - tag_len) text zero_tag at)
        (rw (take-append_len (length (text ++ zero_tag) - tag_len) text zero_tag at)))

abbrev pub new_unbound_key : Algorithm → List ℕ → Option (List ℕ)
new_unbound_key a key = if length key == key_len a then some key else none

abbrev pub expand : HkdfAlgorithm → List ℕ → ℕ → Option (List ℕ)
expand prk info len = if leb len (255 * digest_len prk) then some (replicate len 7) else none

abbrev pub sealed_text : List ℕ → List ℕ × Option (List ℕ)
sealed_text text = (text, some zero_tag)

pub open_sealed :
    (text cipher tag : List ℕ)
    → sealed_text text ≡ (cipher, some tag)
    → (rest : List ℕ) × (open_in_place (cipher ++ tag) ≡ (text ++ rest, some text))
      × (length rest ≡ length tag)
open_sealed text cipher tag sealed =
    let same_text : text ≡ cipher = ap (λ t. t.0) sealed in
    let same_tag : zero_tag ≡ tag = some-injective (ap (λ t. t.1) sealed) in
    (zero_tag, rw (sym same_text, sym same_tag) (open_zero_tag text), ap length same_tag)

pub open-length : (io : List ℕ) → length (open_in_place io).0 ≡ length io
open-length io = ground arith

abbrev pub example_ring : Ring.Ring
example_ring = record {
  UnboundKey = List ℕ;
  Prk = HkdfAlgorithm;
  new_unbound_key = new_unbound_key;
  seal_in_place = λ key nonce aad text. sealed_text text;
  open_in_place = λ key nonce aad io. open_in_place io;
  extract = λ a salt secret. a;
  expand = expand;
  max_plaintext_len = 1000;
  algorithm_of = λ prk. prk;
  algorithm_of-extract = λ a salt secret. refl;
  new_unbound_key_lem = λ a key fits. (key, rw fits (rw ((==_iff (key_len a) (key_len a)).1 refl)));
  seal_in_place_lem = λ key nonce aad text short bytes. (
    text,
    zero_tag,
    refl,
    refl,
    length-replicate tag_len (zero),
    bytes,
    All-replicate IsByte tag_len 0 (omega arith),
  );
  open_in_place_lem = λ key nonce aad text cipher tag sealed. open_sealed text cipher tag sealed;
  open_in_place-length = λ key nonce aad io. open-length io;
  open_in_place_short = λ key nonce aad io short. rw (lt→ltb (length io) tag_len short);
  expand_lem = λ prk info len fits. (
    replicate len 7,
    rw (le→leb len (255 * digest_len prk) fits),
    length-replicate len (7),
    All-replicate IsByte len 7 (omega arith),
  );
}
