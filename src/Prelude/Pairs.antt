-- ===== src/Prelude/Pairs.antt =====
-- Two lists of the same length whose items belong together.
use Prim.Native.Nat.{ℕ, zero, suc}
use mathlib.Core.Path.{◌≡◌, refl}
use mathlib.Core.Logic.{◌⊎◌, inl, inr}
use mathlib.Core.Option.{none, some}
use mathlib.Core.List.{List, [], ◌∷◌}
use secure_frame_rs.Prelude.Lists.{get_elem?, replace_at}

module _ {ℓ ℓ'} {A : Type ℓ} {B : Type ℓ'} where
  abbrev pub AllPairs : (A → B → Type 0) → List A → List B → Type 0
  AllPairs R [] [] = Unit {0}
  AllPairs R [] (b ∷ bs) = ⊥
  AllPairs R (a ∷ l) [] = ⊥
  AllPairs R (a ∷ l) (b ∷ bs) = R a b × AllPairs R l bs

  -- Either list has an item in a place or neither has.
  pub AllPairs-get_elem? :
      (R : A → B → Type 0) (i : ℕ) (l : List A) (bs : List B)
      → AllPairs R l bs
      → ((get_elem? l i ≡ none) × (get_elem? bs i ≡ none))
        ⊎ ((a : A) × (b : B) × (get_elem? l i ≡ some a) × (get_elem? bs i ≡ some b) × R a b)
  AllPairs-get_elem? R i [] [] all = inl (refl, refl)
  AllPairs-get_elem? R i [] (b ∷ bs) all = absurd all
  AllPairs-get_elem? R i (a ∷ l) [] all = absurd all
  AllPairs-get_elem? R zero (a ∷ l) (b ∷ bs) (this, rest) = inr (a, b, refl, refl, this)
  AllPairs-get_elem? R (suc i) (a ∷ l) (b ∷ bs) (this, rest) = AllPairs-get_elem? R i l bs rest

  pub AllPairs-replace_at :
      (R : A → B → Type 0) (i : ℕ) (l : List A) (bs : List B) (a : A) (b : B)
      → AllPairs R l bs
      → R a b
      → AllPairs R (replace_at l i a) (replace_at bs i b)
  AllPairs-replace_at R i [] [] a b all new = tt
  AllPairs-replace_at R i [] (b' ∷ bs) a b all new = absurd all
  AllPairs-replace_at R i (a' ∷ l) [] a b all new = absurd all
  AllPairs-replace_at R zero (a' ∷ l) (b' ∷ bs) a b (old, rest) new = (new, rest)
  AllPairs-replace_at R (suc i) (a' ∷ l) (b' ∷ bs) a b (old, rest) new =
      (old, AllPairs-replace_at R i l bs a b rest new)
