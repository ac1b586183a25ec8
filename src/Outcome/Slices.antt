-- ===== src/Outcome/Slices.antt =====
-- Slices at a seam.
use secure_frame_rs.Prelude.{
  ℕ, ◌≤◌, ◌<◌, ◌≡◌, ap, arith, List, ◌++◌, length, take, drop, le→leb, lt→leb, length-append,
  take-append_len, drop-append_len,
}
use secure_frame_rs.Outcome.{ok, panic, slice_to, slice_from}

module _ {ℓ} {A : Type ℓ} where
  pub slice_to_lem : (xs : List A) (n : ℕ) → n ≤ length xs → slice_to xs n ≡ ok (take n xs)
  unfolding slice_to
  slice_to_lem xs n h = rw (le→leb n (length xs) h)

  pub slice_from_lem : (xs : List A) (n : ℕ) → n ≤ length xs → slice_from xs n ≡ ok (drop n xs)
  unfolding slice_from
  slice_from_lem xs n h = rw (le→leb n (length xs) h)

  pub slice_to_panics : (xs : List A) (n : ℕ) → length xs < n → slice_to xs n ≡ panic
  unfolding slice_to
  slice_to_panics xs n h = rw (lt→leb n (length xs) h)

  pub slice_from_panics : (xs : List A) (n : ℕ) → length xs < n → slice_from xs n ≡ panic
  unfolding slice_from
  slice_from_panics xs n h = rw (lt→leb n (length xs) h)

  pub slice_to-append : (xs ys : List A) (n : ℕ) → length xs ≡ n → slice_to (xs ++ ys) n ≡ ok xs
  unfolding slice_to
  slice_to-append xs ys n h =
      rw (le→leb n (length (xs ++ ys)) (omega (arith, length-append xs ys)))
        (ap ok (take-append_len n xs ys h))

  pub slice_from-append : (xs ys : List A) (n : ℕ) → length xs ≡ n → slice_from (xs ++ ys) n ≡ ok ys
  unfolding slice_from
  slice_from-append xs ys n h =
      rw (le→leb n (length (xs ++ ys)) (omega (arith, length-append xs ys)))
        (ap ok (drop-append_len n xs ys h))
