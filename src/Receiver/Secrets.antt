-- ===== src/Receiver/Secrets.antt =====
-- The receiver's `HashMap<KeyId, Secret>`. The program never iterates over it, so an association list
-- stands for it.
use secure_frame_rs.Prelude.{
  ◌≡◌, ◌↔◌, arith, List, [], ◌∷◌, Option, some, none, Bool, true, false, ◌==◌, if◌then◌else◌,
}
use secure_frame_rs.KeyId.{KeyId}

-- The derived `==` of `KeyId`.
abbrev pub key_eq : KeyId → KeyId → Bool
key_eq (KeyId.basic a) (KeyId.basic b) = a == b
key_eq (KeyId.extended a) (KeyId.extended b) = a == b
key_eq (KeyId.basic a) (KeyId.extended b) = false
key_eq (KeyId.extended a) (KeyId.basic b) = false

pub key_eq_iff : (a b : KeyId) → (key_eq a b ≡ true) ↔ (a ≡ b)
key_eq_iff (KeyId.basic a) (KeyId.basic b) = ground arith
key_eq_iff (KeyId.extended a) (KeyId.extended b) = ground arith
key_eq_iff (KeyId.basic a) (KeyId.extended b) = ground arith
key_eq_iff (KeyId.extended a) (KeyId.basic b) = ground arith

module _ {V : Type 0} where
  unfoldable pub get : KeyId → List (KeyId × V) → Option V
  get k [] = none
  get k ((j, v) ∷ m) = if key_eq j k then some v else get k m

  -- The map without a key.
  unfoldable pub without : KeyId → List (KeyId × V) → List (KeyId × V)
  without k [] = []
  without k ((j, v) ∷ m) = let rest = without k m in if key_eq j k then rest else (j, v) ∷ rest

  unfoldable pub insert : KeyId → V → List (KeyId × V) → List (KeyId × V)
  unfolding without
  insert k v m = (k, v) ∷ without k m

  pub get-without :
      (k j : KeyId) (m : List (KeyId × V))
      → get j (without k m) ≡ (if key_eq k j then none else get j m)
  unfolding get without
  get-without k j [] = ground arith
  get-without k j ((i, v) ∷ m) =
      ground (arith, get-without k j m, key_eq_iff i k, key_eq_iff i j, key_eq_iff k j)

  pub get-insert :
      (k j : KeyId) (v : V) (m : List (KeyId × V))
      → get j (insert k v m) ≡ (if key_eq k j then some v else get j m)
  get-insert k j v m = unfold insert get in ground (arith, get-without k j m)
