-- ===== src/Vector/Slots.antt =====
-- What a memmove by one slot does to the live part of a block.
use mathlib.Core.List.{append_assoc}
use libvci.Base.{
  ℕ, zero, suc, ◌-◌, ◌≤◌, ◌<◌, ◌≡◌, refl, sym, ap, ap₂, ◌∙◌, arith, List, [], ◌∷◌, ◌++◌, length,
  set, take, drop, length-take, length-drop, length-append, take-take,
}

module _ {ℓ} {A : Type ℓ} where
  -- A list with one more entry, and with one less.
  abbrev pub insert_slot : List A → ℕ → A → List A
  insert_slot xs i x = take i xs ++ x ∷ drop i xs

  abbrev pub remove_slot : List A → ℕ → List A
  remove_slot xs i = take i xs ++ drop (suc i) xs

  pub take_exact : (n : ℕ) (xs ys : List A) → length xs ≡ n → take n (xs ++ ys) ≡ xs
  take_exact zero [] ys h = refl
  take_exact zero (x ∷ xs) ys h = absurd (omega arith)
  take_exact (suc n) [] ys h = absurd (omega arith)
  take_exact (suc n) (x ∷ xs) ys h = ap (◌∷◌ x) (take_exact n xs ys (omega arith))

  pub set-take :
      (xs ys : List A) (i : ℕ) (x : A)
      → i < length xs
      → set (take (suc i) xs ++ ys) i x ≡ take i xs ++ x ∷ ys
  set-take [] ys i x h = absurd (omega arith)
  set-take (y ∷ xs) ys zero x h = refl
  set-take (y ∷ xs) ys (suc i) x h = ap (◌∷◌ y) (set-take xs ys i x (omega arith))

  pub drop-take : (n i : ℕ) (xs : List A) → i ≤ n → drop i (take n xs) ≡ take (n - i) (drop i xs)
  drop-take n zero xs h = ap (λ m. take m xs) (omega arith)
  drop-take zero (suc i) xs h = absurd (omega arith)
  drop-take (suc n) (suc i) [] h = sym (nothing (suc n - suc i))
    where
      nothing : (m : ℕ) → take {Word = A} m [] ≡ []
      nothing zero = refl
      nothing (suc m) = refl
  drop-take (suc n) (suc i) (x ∷ xs) h =
      drop-take n i xs (omega arith) ∙ ap (λ m. take m (drop i xs)) (omega arith)

  module _ (block : List A) (size i : ℕ) (fits : size < length block) (hi : i ≤ size) where
    -- The live part after an insertion.
    pub take_insert :
        (x : A) (rest : List A)
        → take (suc size) (take i block ++ x ∷ (take (size - i) (drop i block) ++ rest))
          ≡ insert_slot (take size block) i x
    take_insert x rest =
        let front = length-take {ℓ} i block in
        let behind = length-drop {ℓ} i block in
        let back = length-take {ℓ} (size - i) (drop i block) in
        let mid = take (size - i) (drop i block) in
        let whole = length-append {ℓ} (take i block) (x ∷ mid) in
        ap (take (suc size)) (sym (append_assoc (take i block) (x ∷ mid) rest))
        ∙ take_exact (suc size) (take i block ++ x ∷ mid) rest (omega arith)
        ∙ ap₂ (λ a b. a ++ x ∷ b) (sym (take-take i size block hi))
            (sym (drop-take size i block hi))

  module _ (block : List A) (size i : ℕ) (fits : size ≤ length block) (hi : i < size) where
    -- The live part after a removal.
    pub take_remove :
        (rest : List A)
        → take (size - 1) (take i block ++ (take (size - 1 - i) (drop (suc i) block) ++ rest))
          ≡ remove_slot (take size block) i
    take_remove rest =
        let front = length-take {ℓ} i block in
        let behind = length-drop {ℓ} (suc i) block in
        let back = length-take {ℓ} (size - 1 - i) (drop (suc i) block) in
        let mid = take (size - 1 - i) (drop (suc i) block) in
        let whole = length-append {ℓ} (take i block) mid in
        let same : size - 1 - i ≡ size - suc i = omega arith in
        ap (take (size - 1)) (sym (append_assoc (take i block) mid rest))
        ∙ take_exact (size - 1) (take i block ++ mid) rest (omega arith)
        ∙ ap₂ (◌++◌) (sym (take-take i size block (omega arith)))
            (ap (λ m. take m (drop (suc i) block)) same ∙ sym (drop-take size (suc i) block hi))
