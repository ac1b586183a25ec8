-- ===== src/Header/Loops.antt =====
-- `for (i, v) in values.enumerate() { buffer[..] = v }`, the loop that fills a buffer in both codecs.
use secure_frame_rs.Prelude.{ℕ, zero, suc, ◌+◌, ◌≤◌, ◌<◌, ◌≡◌, refl, ap, ◌∙◌, arith}
use secure_frame_rs.Prelude.{List, [], ◌∷◌, ◌++◌, length, length-append, All, append_assoc}
use secure_frame_rs.Outcome.{Outcome, ok, panic, ◌>>=◌, index, store}
use secure_frame_rs.Header.Util.{IsByte}

unfoldable pub for_enumerate :
    (List ℕ → ℕ → ℕ → Outcome (List ℕ)) → ℕ → List ℕ → List ℕ → Outcome (List ℕ)
for_enumerate set i buffer [] = ok buffer
for_enumerate set i buffer (v ∷ vs) = set buffer i v >>= λ b. for_enumerate set (i + 1) b vs

pub index-append :
    (pre : List ℕ) (b : ℕ) (post : List ℕ) (n : ℕ)
    → length pre ≡ n
    → index (pre ++ b ∷ post) n ≡ ok b
index-append [] b post zero h = refl
index-append [] b post (suc n) h = absurd (omega arith)
index-append (x ∷ pre) b post zero h = absurd (omega arith)
index-append (x ∷ pre) b post (suc n) h = index-append pre b post n (omega arith)

pub store-append :
    (pre : List ℕ) (b : ℕ) (post : List ℕ) (n v : ℕ)
    → length pre ≡ n
    → store (pre ++ b ∷ post) n v ≡ ok (pre ++ v ∷ post)
store-append [] b post zero v h = refl
store-append [] b post (suc n) v h = absurd (omega arith)
store-append (x ∷ pre) b post zero v h = absurd (omega arith)
store-append (x ∷ pre) b post (suc n) v h = rw (store-append pre b post n v (omega arith))

pub index_panics : (xs : List ℕ) (n : ℕ) → length xs ≤ n → index xs n ≡ panic
index_panics [] n h = refl
index_panics (x ∷ xs) zero h = absurd (omega arith)
index_panics (x ∷ xs) (suc n) h = index_panics xs n (omega arith)

-- A setter that, at index `i`, writes the byte `offset + i` of a buffer that has it.
abbrev pub SetsByte : (List ℕ → ℕ → ℕ → Outcome (List ℕ)) → ℕ → ℕ → Type 0
SetsByte set offset count =
    (pre : List ℕ) (b : ℕ) (post : List ℕ) (i v : ℕ)
    → length pre ≡ offset + i
    → i < count
    → v < 256
    → set (pre ++ b ∷ post) i v ≡ ok (pre ++ v ∷ post)

-- The loop puts the values in place of as many bytes.
pub for_enumerate_lem :
    (set : List ℕ → ℕ → ℕ → Outcome (List ℕ)) (offset count : ℕ)
    → SetsByte set offset count
    → (vs pre old post : List ℕ) (i : ℕ) → length pre ≡ offset + i
    → length old ≡ length vs
    → i + length vs ≤ count
    → All IsByte vs
    → for_enumerate set i (pre ++ (old ++ post)) vs ≡ ok (pre ++ (vs ++ post))
unfolding for_enumerate
for_enumerate_lem set offset count sets [] pre [] post i hp ho hc hv = refl
for_enumerate_lem set offset count sets [] pre (o ∷ old) post i hp ho hc hv = absurd (omega arith)
for_enumerate_lem set offset count sets (v ∷ vs) pre [] post i hp ho hc hv = absurd (omega arith)
for_enumerate_lem set offset count sets (v ∷ vs) pre (o ∷ old) post i hp ho hc hv =
    rw (sets pre o (old ++ post) i v hp (omega arith) hv.0) (
      rw (← append_assoc pre (v ∷ []) (old ++ post)) (
        for_enumerate_lem set offset count sets vs (pre ++ v ∷ []) old post (i + 1)
          (omega (arith, length-append pre (v ∷ []))) (omega arith) (omega arith) hv.1
        ∙ ap ok (append_assoc pre (v ∷ []) (vs ++ post))))

pub index_in_range : (xs : List ℕ) (n : ℕ) → n < length xs → (v : ℕ) × (index xs n ≡ ok v)
index_in_range [] n h = absurd (omega arith)
index_in_range (x ∷ xs) zero h = (x, refl)
index_in_range (x ∷ xs) (suc n) h = index_in_range xs n (omega arith)

pub store_in_range :
    (xs : List ℕ) (n v : ℕ)
    → n < length xs
    → (ys : List ℕ) × (store xs n v ≡ ok ys) × (length ys ≡ length xs)
store_in_range [] n v h = absurd (omega arith)
store_in_range (x ∷ xs) zero v h = (v ∷ xs, refl, refl)
store_in_range (x ∷ xs) (suc n) v h =
    let (ys, e, l) = store_in_range xs n v (omega arith) in (x ∷ ys, rw e, omega arith)
