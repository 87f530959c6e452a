-- ===== src/Links/Chain.antt =====
-- What a list stands for: the nodes between two ends, in order.
use libvci.Base.{ℕ, ◌≡◌, refl, sym, ap, ◌⊎◌, inl, inr, ◌≢◌, arith, List, [], ◌∷◌, ◌++◌}
use libvci.Links.{Links, set_prev, set_next}

-- From `a` the pointers lead through `xs` to `z`, and back.
abbrev pub Chain : Links → ℕ → List ℕ → ℕ → Type 0
Chain s a [] z = (s.next a ≡ z) × (s.prev z ≡ a)
Chain s a (x ∷ xs) z = (s.next a ≡ x) × (s.prev x ≡ a) × Chain s x xs z

-- `a` is none of `xs`.
abbrev pub Fresh : ℕ → List ℕ → Type 0
Fresh a [] = Unit
Fresh a (x ∷ xs) = (a ≢ x) × Fresh a xs

abbrev pub Distinct : List ℕ → Type 0
Distinct [] = Unit
Distinct (x ∷ xs) = Fresh x xs × Distinct xs

-- The list with sentinel `l` holds the nodes `xs`.
pub record IsRing (s : Links) (l : ℕ) (xs : List ℕ) : Type 0 where
  pub chain : Chain s l xs l
  pub apart : Fresh l xs
  pub distinct : Distinct xs

pub Chain-set_next :
    (s : Links) (a : ℕ) (xs : List ℕ) (z p v : ℕ)
    → Chain s a xs z
    → p ≢ a
    → Fresh p xs
    → Chain (set_next s p v) a xs z
Chain-set_next s a [] z p v c ne out = ground arith
Chain-set_next s a (x ∷ xs) z p v c ne out =
    (ground arith, c.1, Chain-set_next s x xs z p v c.2 out.0 out.1)

pub Chain-set_prev :
    (s : Links) (a : ℕ) (xs : List ℕ) (z p v : ℕ)
    → Chain s a xs z
    → p ≢ z
    → Fresh p xs
    → Chain (set_prev s p v) a xs z
Chain-set_prev s a [] z p v c ne out = ground arith
Chain-set_prev s a (x ∷ xs) z p v c ne out =
    (c.0, ground arith, Chain-set_prev s x xs z p v c.2 ne out.1)

pub Chain-append :
    (s : Links) (a : ℕ) (xs : List ℕ) (m : ℕ) (ys : List ℕ) (z : ℕ)
    → Chain s a xs m
    → Chain s m ys z
    → Chain s a (xs ++ m ∷ ys) z
Chain-append s a [] m ys z c d = (c.0, c.1, d)
Chain-append s a (x ∷ xs) m ys z c d = (c.0, c.1, Chain-append s x xs m ys z c.2 d)

pub Chain-split :
    (s : Links) (a : ℕ) (xs : List ℕ) (m : ℕ) (ys : List ℕ) (z : ℕ)
    → Chain s a (xs ++ m ∷ ys) z
    → Chain s a xs m × Chain s m ys z
Chain-split s a [] m ys z c = ((c.0, c.1), c.2)
Chain-split s a (x ∷ xs) m ys z c =
    let (front, back) = Chain-split s x xs m ys z c.2 in ((c.0, c.1, front), back)

-- Facts on distinctness across a concatenation.
pub Fresh-append : (a : ℕ) (xs ys : List ℕ) → Fresh a xs → Fresh a ys → Fresh a (xs ++ ys)
Fresh-append a [] ys f g = g
Fresh-append a (x ∷ xs) ys f g = (f.0, Fresh-append a xs ys f.1 g)

pub Fresh-split : (a : ℕ) (xs ys : List ℕ) → Fresh a (xs ++ ys) → Fresh a xs × Fresh a ys
Fresh-split a [] ys f = (tt, f)
Fresh-split a (x ∷ xs) ys f = let (g, h) = Fresh-split a xs ys f.1 in ((f.0, g), h)

-- In `xs ++ m ∷ ys`, distinct, `m` is in neither part.
pub Distinct-split :
    (xs : List ℕ) (m : ℕ) (ys : List ℕ)
    → Distinct (xs ++ m ∷ ys)
    → Distinct xs × Distinct ys × Fresh m xs × Fresh m ys × Distinct (xs ++ ys)
Distinct-split [] m ys d = (tt, d.1, tt, d.0, d.1)
Distinct-split (x ∷ xs) m ys (out, d) =
    let (dx, dy, fx, fy, both) = Distinct-split xs m ys d in
    let (outx, back) = Fresh-split x xs (m ∷ ys) out in
    ((outx, dx), dy, ((λ e. back.0 (sym e)), fx), fy, (Fresh-append x xs ys outx back.1, both))

-- A fresh node may be put anywhere.
pub Distinct-insert :
    (xs : List ℕ) (m : ℕ) (ys : List ℕ)
    → Distinct (xs ++ ys)
    → Fresh m (xs ++ ys)
    → Distinct (xs ++ m ∷ ys)
Distinct-insert [] m ys d f = (f, d)
Distinct-insert (x ∷ xs) m ys (out, d) (ne, f) =
    let (outx, outy) = Fresh-split x xs ys out in
    (Fresh-append x xs (m ∷ ys) outx ((λ e. ne (sym e)), outy), Distinct-insert xs m ys d f)

-- A fresh node right behind `p`.
pub Distinct-move :
    (xs : List ℕ) (p : ℕ) (ys : List ℕ) (m : ℕ)
    → Distinct (xs ++ p ∷ ys)
    → Fresh m (xs ++ p ∷ ys)
    → Distinct (xs ++ p ∷ m ∷ ys)
Distinct-move [] p ys m d f = (((λ e. f.0 (sym e)), d.0), (f.1, d.1))
Distinct-move (x ∷ xs) p ys m (out, d) (ne, f) =
    let (outx, back) = Fresh-split x xs (p ∷ ys) out in
    (
      Fresh-append x xs (p ∷ m ∷ ys) outx (back.0, ((λ e. ne (sym e)), back.1)),
      Distinct-move xs p ys m d f,
    )

-- Every list is empty or ends in a last node.
pub last_cases {ℓ} :
    {A : Type ℓ} (xs : List A) → (xs ≡ []) ⊎ ((ys : List A) × (y : A) × (xs ≡ ys ++ y ∷ []))
last_cases [] = inl refl
last_cases (x ∷ xs) = elim (last_cases xs) [
  | inl e ↦ inr ([], x, ap (◌∷◌ x) e)
  | inr (ys, y, e) ↦ inr (x ∷ ys, y, ap (◌∷◌ x) e)
]
