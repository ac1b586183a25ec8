-- ===== src/Crypto/Secret/Nonce.antt =====
-- The nonce of a frame: the salt with the frame count over its end.
use secure_frame_rs.Outcome.{ok-injective}
use secure_frame_rs.Prelude.{
  ℕ, zero, suc, ◌+◌, ◌*◌, ◌≤◌, ◌≡◌, ap, ap₂, ◌∙◌, sym, refl, arith, List, [], ◌∷◌, ◌++◌, reverse,
  length, take, drop, replicate, bit_xor, append_assoc, length-reverse, take-append-drop, le→ltb,
  length-take, length-replicate, append-nil,
}
use mathlib.Core.List.{reverse-cons, reverse-reverse}
use secure_frame_rs.Outcome.{ok}
use secure_frame_rs.Header.Util.{from_be, from_be_bytes, as_min_be_bytes}
use secure_frame_rs.Header.Util.Bytes.{
  from_be_bytes-as_min_be_bytes, length-as_min_be_bytes, min_len_in_bytes_bounds,
}
use secure_frame_rs.Header.FrameCount.{FrameCount, IsCount, as_be_bytes, from_u64}
use secure_frame_rs.Header.Loops.{index-append, store-append}
use secure_frame_rs.Crypto.Xor.{xor-zero, xor_cancel}
use secure_frame_rs.Crypto.Secret.{Secret, mask_loop, create_nonce}

-- Two numbers masked digit by digit, the least significant byte first; the shorter one is padded.
abbrev pub mask : List ℕ → List ℕ → List ℕ
mask [] ws = []
mask (s ∷ salt) [] = s ∷ mask salt []
mask (s ∷ salt) (w ∷ ws) = bit_xor s w ∷ mask salt ws

-- One round of the loop, at the place between `pre` and `post`.
salt_round :
    (pre post olds done : List ℕ) (s o i : ℕ)
    → length pre ≡ i
    → length olds ≡ i
    → mask_loop (pre ++ s ∷ post) (suc i) [] (olds ++ o ∷ done)
      ≡ mask_loop (pre ++ s ∷ post) i [] (olds ++ s ∷ done)
unfolding mask_loop
salt_round pre post olds done s o i hp ho =
    rw (index-append pre s post i hp) (rw (store-append olds o done i s ho))

count_round :
    (pre post olds done ws : List ℕ) (s o w i : ℕ)
    → length pre ≡ i
    → length olds ≡ i
    → mask_loop (pre ++ s ∷ post) (suc i) (w ∷ ws) (olds ++ o ∷ done)
      ≡ mask_loop (pre ++ s ∷ post) i ws (olds ++ bit_xor s w ∷ done)
unfolding mask_loop
count_round pre post olds done ws s o w i hp ho = rw (index-append pre s post i hp) (
    rw (store-append olds o done i s ho)
      (rw (index-append olds s done i ho) (rw (store-append olds s done i (bit_xor s w) ho))))

reverse-cons-append : (x : ℕ) (xs ys : List ℕ) → reverse (x ∷ xs) ++ ys ≡ reverse xs ++ x ∷ ys
reverse-cons-append x xs ys =
    ap (λ t. t ++ ys) (reverse-cons x xs) ∙ append_assoc (reverse xs) (x ∷ []) ys

-- The part of the salt that is still to do is `reverse rest`, and that of the array is as long.
mask_loop_lem :
    (rest ws post olds done : List ℕ) (i : ℕ)
    → length rest ≡ i
    → length olds ≡ i
    → mask_loop (reverse rest ++ post) i ws (reverse olds ++ done)
      ≡ ok (reverse (mask rest ws) ++ done)
mask_loop_lem [] [] post [] done zero hr ho = unfold mask_loop in refl
mask_loop_lem [] (w ∷ ws) post [] done zero hr ho = unfold mask_loop in refl
mask_loop_lem [] ws post (o ∷ olds) done zero hr ho = absurd (omega arith)
mask_loop_lem (s ∷ rest) ws post olds done zero hr ho = absurd (omega arith)
mask_loop_lem [] ws post olds done (suc i) hr ho = absurd (omega arith)
mask_loop_lem (s ∷ rest) ws post [] done (suc i) hr ho = absurd (omega arith)
mask_loop_lem (s ∷ rest) [] post (o ∷ olds) done (suc i) hr ho =
    ap₂ (λ salt iv. mask_loop salt (suc i) [] iv) (reverse-cons-append s rest post)
      (reverse-cons-append o olds done)
    ∙ salt_round (reverse rest) post (reverse olds) done s o i (omega (arith, length-reverse rest))
        (omega (arith, length-reverse olds))
    ∙ mask_loop_lem rest [] (s ∷ post) olds (s ∷ done) i (omega arith) (omega arith)
    ∙ ap ok (sym (reverse-cons-append s (mask rest []) done))
mask_loop_lem (s ∷ rest) (w ∷ ws) post (o ∷ olds) done (suc i) hr ho =
    ap₂ (λ salt iv. mask_loop salt (suc i) (w ∷ ws) iv) (reverse-cons-append s rest post)
      (reverse-cons-append o olds done)
    ∙ count_round (reverse rest) post (reverse olds) done ws s o w i
        (omega (arith, length-reverse rest)) (omega (arith, length-reverse olds))
    ∙ mask_loop_lem rest ws (s ∷ post) olds (bit_xor s w ∷ done) i (omega arith) (omega arith)
    ∙ ap ok (sym (reverse-cons-append (bit_xor s w) (mask rest ws) done))

create_nonce-enters :
    (len : ℕ) (secret : Secret) (c : FrameCount)
    → len ≤ length secret.salt
    → create_nonce len secret c
      ≡ mask_loop secret.salt len (reverse (as_be_bytes c)) (replicate len 0)
unfolding create_nonce
create_nonce-enters len secret c long = rw (le→ltb (length secret.salt) len long)

abbrev pub nonce_bytes : ℕ → Secret → FrameCount → List ℕ
nonce_bytes len secret c = reverse (mask (reverse (take len secret.salt)) (reverse (as_be_bytes c)))

-- With a salt that is long enough `create_nonce` does not panic: read from the end, the nonce is the
-- first `len` bytes of the salt masked by the bytes of the count, the lowest byte first.
pub create_nonce_lem :
    (len : ℕ) (secret : Secret) (c : FrameCount)
    → len ≤ length secret.salt
    → create_nonce len secret c ≡ ok (nonce_bytes len secret c)
create_nonce_lem len secret c long =
    let head : List ℕ = take len secret.salt in
    let salt : secret.salt ≡ reverse (reverse head) ++ drop len secret.salt = sym (
      ap (λ t. t ++ drop len secret.salt) (reverse-reverse head)
      ∙ take-append-drop len secret.salt) in
    let zeros : replicate len 0 ≡ reverse (reverse (replicate len 0)) ++ [] =
      sym (append-nil (reverse (reverse (replicate len 0))) ∙ reverse-reverse (replicate len 0)) in
    create_nonce-enters len secret c long
    ∙ ap₂ (λ s iv. mask_loop s len (reverse (as_be_bytes c)) iv) salt zeros
    ∙ mask_loop_lem (reverse head) (reverse (as_be_bytes c)) (drop len secret.salt)
        (reverse (replicate len 0)) [] len
        (omega (arith, length-reverse head, length-take len secret.salt))
        (omega (arith, length-reverse (replicate len zero), length-replicate len zero))
    ∙ ap ok (append-nil (reverse (mask (reverse head) (reverse (as_be_bytes c)))))

-- The number that bytes write, the lowest byte first.
abbrev from_le : List ℕ → ℕ
from_le [] = 0
from_le (w ∷ ws) = w + 256 * from_le ws

head-eq : {x y : ℕ} {xs ys : List ℕ} → x ∷ xs ≡ y ∷ ys → x ≡ y
head-eq e = cc

tail-eq : {x y : ℕ} {xs ys : List ℕ} → x ∷ xs ≡ y ∷ ys → xs ≡ ys
tail-eq e = cc

mask-injective :
    (salt us ws : List ℕ)
    → length us ≤ length salt
    → length ws ≤ length salt
    → mask salt us ≡ mask salt ws
    → from_le us ≡ from_le ws
mask-injective salt [] [] hu hw e = refl
mask-injective [] [] (w ∷ ws) hu hw e = absurd (omega arith)
mask-injective [] (u ∷ us) ws hu hw e = absurd (omega arith)
mask-injective (s ∷ salt) [] (w ∷ ws) hu hw e = omega (
  arith,
  xor_cancel s w 0 (sym (head-eq e) ∙ sym (xor-zero s)),
  mask-injective salt [] ws (omega arith) (omega arith) (tail-eq e),
)
mask-injective (s ∷ salt) (u ∷ us) [] hu hw e = omega (
  arith,
  xor_cancel s u 0 (head-eq e ∙ sym (xor-zero s)),
  mask-injective salt us [] (omega arith) (omega arith) (tail-eq e),
)
mask-injective (s ∷ salt) (u ∷ us) (w ∷ ws) hu hw e = omega (
  arith,
  xor_cancel s u w (head-eq e),
  mask-injective salt us ws (omega arith) (omega arith) (tail-eq e),
)

from_be-from_le : (xs ys : List ℕ) → from_be (from_le ys) xs ≡ from_le (reverse xs ++ ys)
unfolding from_be_bytes
from_be-from_le [] ys = refl
from_be-from_le (x ∷ xs) ys =
    (let e : from_le ys * 256 + x ≡ from_le (x ∷ ys) = omega arith in ap (λ t. from_be t xs) e)
    ∙ from_be-from_le xs (x ∷ ys)
    ∙ ap from_le (sym (reverse-cons-append x xs ys))

from_le-reverse : (xs : List ℕ) → from_le (reverse xs) ≡ from_be_bytes xs
unfolding from_be_bytes
from_le-reverse xs = ap from_le (sym (append-nil (reverse xs))) ∙ sym (from_be-from_le xs [])

from_le-count : (c : FrameCount) → IsCount c → from_le (reverse (as_be_bytes c)) ≡ c.numeric_value
unfolding as_be_bytes
from_le-count c h =
    from_le-reverse (as_min_be_bytes c.numeric_value)
    ∙ from_be_bytes-as_min_be_bytes c.numeric_value h

length-count : (c : FrameCount) → IsCount c → length (reverse (as_be_bytes c)) ≤ 8
unfolding as_be_bytes
length-count c h = omega (
  arith,
  length-reverse (as_min_be_bytes c.numeric_value),
  length-as_min_be_bytes c.numeric_value h,
  min_len_in_bytes_bounds c.numeric_value h,
)

-- Two counts with the same nonce under one secret are the same count.
pub create_nonce-injective :
    (len : ℕ) (secret : Secret) (c d : FrameCount)
    → 8 ≤ len
    → len ≤ length secret.salt
    → IsCount c
    → IsCount d
    → create_nonce len secret c ≡ create_nonce len secret d
    → c ≡ d
create_nonce-injective len secret c d wide long hc hd e =
    let salt : List ℕ = reverse (take len secret.salt) in
    let us : List ℕ = reverse (as_be_bytes c) in
    let ws : List ℕ = reverse (as_be_bytes d) in
    let masked : reverse (mask salt us) ≡ reverse (mask salt ws) =
      ok-injective
        (sym (create_nonce_lem len secret c long) ∙ e ∙ create_nonce_lem len secret d long) in
    let same : mask salt us ≡ mask salt ws =
      sym (reverse-reverse (mask salt us)) ∙ ap reverse masked ∙ reverse-reverse (mask salt ws) in
    let room : 8 ≤ length salt =
      omega (arith, length-reverse (take len secret.salt), length-take len secret.salt) in
    let values : from_le us ≡ from_le ws =
      mask-injective salt us ws (omega (arith, length-count c hc))
        (omega (arith, length-count d hd)) same in
    ap from_u64 (sym (from_le-count c hc) ∙ values ∙ from_le-count d hd)
