-- ===== src/Vector/Thin.antt =====
-- vector_take_all steps over the element that moves into a removed one's slot.
use libvci.Base.{
  ℕ, zero, suc, ◌+◌, ◌≤◌, ◌<◌, ◌≡◌, refl, sym, ap, ◌∙◌, inl, inr, arith, Bool, true, false, Option,
  Comparison, List, [], ◌∷◌, ◌++◌, length, get_or, get_or-take, take, drop, ltb, Bool-cases,
  if◌then◌else◌, load-ok, Returns, returns, Returns-mono, Returns-bind,
}
use libvci.Vector.{Vector, matches, take_all_loop, vector_take_all}
use libvci.Vector.Slots.{remove_slot}
use libvci.Vector.Valid.{IsValid, items, length-items}
use libvci.Vector.Change.{vector_take_at-remove}

-- Each element passes.
abbrev pub All : (ℕ → Type 0) → List ℕ → Type 0
All P [] = Unit
All P (x ∷ xs) = P x × All P xs

-- `xs` less the elements that pass, where the one behind a removed element is kept unseen.
abbrev pub thin : (ℕ → Bool) → Bool → List ℕ → List ℕ
thin p skip [] = []
thin p true (x ∷ xs) = x ∷ thin p false xs
thin p false (x ∷ xs) = if p x then thin p true xs else x ∷ thin p false xs

module _ (p : ℕ → Bool) where
  thin_removed :
      (xs : List ℕ) (i : ℕ)
      → i < length xs
      → p (get_or xs i 0) ≡ true
      → take (suc i) (remove_slot xs i) ++ thin p false (drop (suc i) (remove_slot xs i))
        ≡ take i xs ++ thin p false (drop i xs)
  thin_removed [] i h e = absurd (omega arith)
  thin_removed (x ∷ []) zero h e = rw e refl
  thin_removed (x ∷ y ∷ xs) zero h e = rw e refl
  thin_removed (x ∷ xs) (suc i) h e = ap (◌∷◌ x) (thin_removed xs i (omega arith) e)

  thin_kept :
      (xs : List ℕ) (i : ℕ)
      → i < length xs
      → p (get_or xs i 0) ≡ false
      → take (suc i) xs ++ thin p false (drop (suc i) xs) ≡ take i xs ++ thin p false (drop i xs)
  thin_kept [] i h e = absurd (omega arith)
  thin_kept (x ∷ xs) zero h e = rw e refl
  thin_kept (x ∷ xs) (suc i) h e = ap (◌∷◌ x) (thin_kept xs i (omega arith) e)

  thin_end : (xs : List ℕ) (i : ℕ) → length xs ≤ i → take i xs ++ thin p false (drop i xs) ≡ xs
  thin_end [] zero h = refl
  thin_end [] (suc i) h = refl
  thin_end (x ∷ xs) zero h = absurd (omega arith)
  thin_end (x ∷ xs) (suc i) h = ap (◌∷◌ x) (thin_end xs i (omega arith))

take_all_loop-thin :
    (fuel : ℕ) (cmp : Option Comparison) (vec : Vector) (key i bound : ℕ)
    → IsValid vec
    → vec.size ≤ bound
    → i ≤ bound
    → fuel + i ≡ suc bound
    → Returns
        (λ r.
          IsValid r
          × (items r
              ≡ take i (items vec) ++ thin (λ x. matches cmp x key) false (drop i (items vec))))
        (take_all_loop fuel cmp vec key i)
unfolding take_all_loop
take_all_loop-thin zero cmp vec key i bound v h k e = absurd (omega arith)
take_all_loop-thin (suc fuel) cmp vec key i bound v small near rounds =
    let p = λ (x : ℕ). matches cmp x key in
    let size = length-items v in
    let fits = v.bounded in
    let block = v.block in
    elim (Bool-cases (ltb i vec.size)) [
      | inr beyond ↦ rw beyond (returns (v, sym (thin_end p (items vec) i (ground arith))))
      | inl inside ↦
          let below : i < vec.size = ground arith in
          let live = get_or-take vec.size vec.data_words i 0 below in
          rw (inside, load-ok vec.data_words i (omega arith))
            (elim (Bool-cases (matches cmp (get_or vec.data_words i 0) key)) [
              | inr missed ↦ rw missed (
                  Returns-mono
                    (take_all_loop-thin fuel cmp vec key (suc i) bound v small (omega arith)
                      (omega arith))
                    λ r (w, e).
                      (w, e ∙ thin_kept p (items vec) i (omega arith) (ap p live ∙ missed)))
              | inl found ↦ rw found (
                  Returns-bind (vector_take_at-remove vec i v below) λ t (x, w, e, same, less).
                    Returns-mono
                      (take_all_loop-thin fuel cmp t.1 key (suc i) bound w (omega arith)
                        (omega arith) (omega arith))
                      λ r (w', e'). (
                        w',
                        e'
                            ∙ ap (λ ys. take (suc i) ys ++ thin p false (drop (suc i) ys)) e
                            ∙ thin_removed p (items vec) i (omega arith) (ap p live ∙ found),
                      ))
            ])
    ]

-- vector_take_all on a valid vector ends, keeps it valid, and leaves the elements of `thin`: a match
-- goes, unless it stood right behind one that went.
pub vector_take_all-thin :
    (vec : Vector) (key : ℕ)
    → IsValid vec
    → Returns
        (λ r. IsValid r × (items r ≡ thin (λ x. matches vec.data_compare x key) false (items vec)))
        (vector_take_all vec key)
unfolding vector_take_all
vector_take_all-thin vec key v =
    take_all_loop-thin (vec.size + 1) vec.data_compare vec key 0 vec.size v (omega arith)
      (omega arith) (omega arith)

-- Of two matches side by side, the first of which is not skipped itself, the second stays.
pub thin-adjacent :
    (p : ℕ → Bool) (xs : List ℕ) (x y : ℕ) (ys : List ℕ)
    → All (λ z. p z ≡ false) xs
    → p x ≡ true
    → thin p false (xs ++ x ∷ y ∷ ys) ≡ xs ++ y ∷ thin p false ys
thin-adjacent p [] x y ys none e = rw e refl
thin-adjacent p (z ∷ xs) x y ys none e = rw none.0 (ap (◌∷◌ z) (thin-adjacent p xs x y ys none.1 e))

-- vector_take_all of two neighbours that match, with no match before them, keeps the second, and it
-- keeps the elements before them.
pub vector_take_all-keeps_neighbour :
    (vec : Vector) (key : ℕ) (xs : List ℕ) (x y : ℕ) (ys : List ℕ)
    → IsValid vec
    → items vec ≡ xs ++ x ∷ y ∷ ys
    → All (λ z. matches vec.data_compare z key ≡ false) xs
    → matches vec.data_compare x key ≡ true
    → matches vec.data_compare y key ≡ true
    → Returns (λ r. (zs : List ℕ) × (items r ≡ xs ++ y ∷ zs)) (vector_take_all vec key)
vector_take_all-keeps_neighbour vec key xs x y ys v e none hx hy =
    let p = λ (z : ℕ). matches vec.data_compare z key in
    Returns-mono (vector_take_all-thin vec key v)
      λ r (w, t). (thin p false ys, t ∙ ap (thin p false) e ∙ thin-adjacent p xs x y ys none hx)
