-- ===== src/Header/Extended/Fill.antt =====
-- The array of eight bytes that the loops of src/header/extended_header.rs fill from its end.
use secure_frame_rs.Prelude.{ℕ, suc, ◌+◌, ◌-◌, ◌≡◌, refl, arith, ◌∙◌, sym, ap}
use secure_frame_rs.Prelude.{
  List, [], ◌∷◌, ◌++◌, length, replicate, le→ltb, length-replicate, replicate-add, append-nil,
  append_assoc, reverse, length-reverse,
}
use mathlib.Core.List.{reverse-cons, reverse-reverse}
use secure_frame_rs.Outcome.{Outcome, ok, ◌>>=◌, store}
use secure_frame_rs.Header.Loops.{for_enumerate, store-append}
use secure_frame_rs.Header.Extended.{set_from_end}

-- Values written from the end of an array of zeros stand there in reverse.
set_from_end_lem :
    (vs acc : List ℕ) (i k : ℕ)
    → length acc ≡ i
    → k + length vs + i ≡ 8
    → for_enumerate set_from_end i (replicate (k + length vs) 0 ++ acc) vs
      ≡ ok (replicate k 0 ++ (reverse vs ++ acc))
unfolding for_enumerate
set_from_end_lem [] acc i k ha h8 = let e : k + 0 ≡ k = omega arith in rw e
set_from_end_lem (v ∷ vs) acc i k ha h8 = rw (le→ltb 8 (i + 1) (omega arith)) (
    let place : 8 - (i + 1) ≡ k + length vs = omega arith in
    rw place (
      ap (λ t. store (t ++ acc) (k + length vs) v >>= rest)
        (replicate-add (k + length vs) 1 (k + suc (length vs)) 0 (omega arith))
      ∙ ap (λ t. store t (k + length vs) v >>= rest)
          (append_assoc (replicate (k + length vs) 0) (0 ∷ []) acc)
      ∙ ap (λ t. t >>= rest)
          (store-append (replicate (k + length vs) 0) 0 acc (k + length vs) v
            (length-replicate (k + length vs) 0))
      ∙ set_from_end_lem vs (v ∷ acc) (i + 1) k (omega arith) (omega arith)
      ∙ ap (λ t. ok (replicate k 0 ++ t))
          (sym (append_assoc (reverse vs) (v ∷ []) acc)
            ∙ ap (λ t. t ++ acc) (sym (reverse-cons v vs)))))
  where
    rest : List ℕ → Outcome (List ℕ)
    rest b = for_enumerate set_from_end (i + 1) b vs

pub fill_from_end :
    (vs : List ℕ) (k : ℕ)
    → k + length vs ≡ 8
    → for_enumerate set_from_end 0 (replicate 8 0) (reverse vs) ≡ ok (replicate k 0 ++ vs)
fill_from_end vs k e =
    let room : replicate 8 0 ≡ replicate (k + length (reverse vs)) 0 ++ [] =
      (let e8 : 8 ≡ k + length (reverse vs) = omega (arith, length-reverse vs) in
        ap (λ t. replicate t 0) e8)
      ∙ sym (append-nil (replicate (k + length (reverse vs)) 0)) in
    ap (λ t. for_enumerate set_from_end 0 t (reverse vs)) room
    ∙ set_from_end_lem (reverse vs) [] 0 k refl (omega (arith, length-reverse vs))
    ∙ ap (λ t. ok (replicate k 0 ++ t)) (append-nil (reverse (reverse vs)) ∙ reverse-reverse vs)
