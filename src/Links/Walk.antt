-- ===== src/Links/Walk.antt =====
-- Looking at a list: its emptiness, its nodes by index from both ends, and list_clear.
use mathlib.Core.List.{reverse, reverse-append}
use libvci.Base.{
  ℕ, zero, suc, ◌≤◌, ◌<◌, ◌≡◌, refl, sym, ◌∙◌, ap, subst, ◌≢◌, ◌↔◌, ◌⊎◌, arith, inl, inr, List, [],
  ◌∷◌, true, false, Option, none, some, ◌==◌, if◌then◌else◌, ltb, length, length-append, get_or,
  Bool-cases, ok,
}
use libvci.Links.{
  Links, steps, list_init, list_at, list_at_reverse, list_empty, for_each_safe, list_clear,
}
use libvci.Links.Chain.{Chain, Fresh, Fresh-append, IsRing, Chain-append}

-- list_init makes a list with no node.
pub list_init-nil : (s : Links) (l : ℕ) → IsRing (list_init s l) l []
unfolding list_init
list_init-nil s l = record { chain = (ground arith, ground arith); apart = tt; distinct = tt }

-- list_empty holds of a list exactly when it has no node.
pub list_empty_iff :
    (s : Links) (l : ℕ) (xs : List ℕ) → IsRing s l xs → (list_empty s l ≡ true) ↔ (xs ≡ [])
unfolding list_empty
list_empty_iff s l [] r = ground (arith, r.chain)
list_empty_iff s l (x ∷ xs) r = ground (arith, r.chain.0, r.apart.0)

steps-get :
    (s : Links) (a : ℕ) (xs : List ℕ) (z i : ℕ)
    → Chain s a xs z
    → i ≤ length xs
    → steps s.next (s.next a) i ≡ get_or xs i z
unfolding steps
steps-get s a [] z zero c h = c.0
steps-get s a [] z (suc i) c h = absurd (omega arith)
steps-get s a (x ∷ xs) z zero c h = c.0
steps-get s a (x ∷ xs) z (suc i) c h =
    ap (λ n. steps s.next (s.next n) i) c.0 ∙ steps-get s x xs z i c.2 (omega arith)

get-beyond : (xs : List ℕ) (i d : ℕ) → length xs ≤ i → get_or xs i d ≡ d
get-beyond [] i d h = refl
get-beyond (x ∷ xs) zero d h = absurd (omega arith)
get-beyond (x ∷ xs) (suc i) d h = get-beyond xs i d (omega arith)

get-Fresh : (l : ℕ) (xs : List ℕ) (i : ℕ) → Fresh l xs → i < length xs → l ≢ get_or xs i l
get-Fresh l [] i f h = absurd (omega arith)
get-Fresh l (x ∷ xs) zero f h = f.0
get-Fresh l (x ∷ xs) (suc i) f h = get-Fresh l xs i f.1 (omega arith)

-- list_at counts from the front, up to the index behind the last node, where it gives the node
-- that list_back gives.
pub list_at-get :
    (s : Links) (l : ℕ) (xs : List ℕ) (i : ℕ)
    → IsRing s l xs
    → i ≤ length xs
    → list_at s l i ≡ (if ltb i (length xs) then get_or xs i l else s.prev l)
unfolding list_at
list_at-get s l xs i r h = elim (Bool-cases (ltb i (length xs))) [
  | inl inside ↦
      ground (arith, steps-get s l xs l i r.chain h, get-Fresh l xs i r.apart (ground arith))
  | inr beyond ↦ ground (arith, steps-get s l xs l i r.chain h, get-beyond xs i l (ground arith))
]

-- The lists read backwards.
abbrev flip : Links → Links
flip s = record { prev = s.next; next = s.prev }

Chain-reverse :
    (s : Links) (a : ℕ) (xs : List ℕ) (z : ℕ) → Chain s a xs z → Chain (flip s) z (reverse xs) a
Chain-reverse s a [] z c = (c.1, c.0)
Chain-reverse s a (x ∷ xs) z c =
    subst (λ ys. Chain (flip s) z ys a) (sym (reverse-append (x ∷ []) xs))
      (Chain-append (flip s) z (reverse xs) x [] a (Chain-reverse s x xs z c.2) (c.1, c.0))

pub Fresh-reverse : (a : ℕ) (xs : List ℕ) → Fresh a xs → Fresh a (reverse xs)
Fresh-reverse a [] f = tt
Fresh-reverse a (x ∷ xs) f =
    subst (Fresh a) (sym (reverse-append (x ∷ []) xs))
      (Fresh-append a (reverse xs) (x ∷ []) (Fresh-reverse a xs f.1) (f.0, tt))

length-reverse : (xs : List ℕ) → length (reverse xs) ≡ length xs
length-reverse [] = refl
length-reverse (x ∷ xs) = omega (
  arith,
  ap (length {Word = ℕ}) (reverse-append (x ∷ []) xs),
  length-append {0} (reverse xs) (x ∷ []),
  length-reverse xs,
)

steps_back :
    (s : Links) (l : ℕ) (xs : List ℕ) (i : ℕ)
    → IsRing s l xs
    → i ≤ length xs
    → steps s.prev (s.prev l) i ≡ get_or (reverse xs) i l
steps_back s l xs i r h =
    steps-get (flip s) l (reverse xs) l i (Chain-reverse s l xs l r.chain)
      (omega (arith, length-reverse xs))

-- list_at_reverse counts from the back, up to the index in front of the first node, where it gives
-- the node that list_front gives.
pub list_at_reverse-get :
    (s : Links) (l : ℕ) (xs : List ℕ) (i : ℕ)
    → IsRing s l xs
    → i ≤ length xs
    → list_at_reverse s l i ≡ (if ltb i (length xs) then get_or (reverse xs) i l else s.next l)
unfolding list_at_reverse
list_at_reverse-get s l xs i r h =
    let size = length-reverse xs in
    elim (Bool-cases (ltb i (length xs))) [
      | inl inside ↦ ground (
        arith,
        steps_back s l xs i r h,
        get-Fresh l (reverse xs) i (Fresh-reverse l xs r.apart) (ground arith),
      )
      | inr beyond ↦
          ground (arith, steps_back s l xs i r h, get-beyond (reverse xs) i l (ground arith))
    ]

-- The loop visits each node once, in order.
for_each_safe-all :
    (fuel : ℕ) (s : Links) (l a : ℕ) (xs : List ℕ)
    → Chain s a xs l
    → Fresh l xs
    → length xs < fuel
    → for_each_safe fuel s l (s.next a) (s.next (s.next a)) ≡ ok xs
unfolding for_each_safe
for_each_safe-all zero s l a xs c f h = absurd (omega arith)
for_each_safe-all (suc fuel) s l a [] c f h = ground (arith, c.0)
for_each_safe-all (suc fuel) s l a (x ∷ xs) c f h =
    let rest = for_each_safe-all fuel s l x xs c.2 f.1 (omega arith) in
    let differs : (x == l) ≡ false = ground (arith, f.0) in
    subst (λ n. for_each_safe (suc fuel) s l n (s.next n) ≡ ok (x ∷ xs)) (sym c.0)
      (rw (differs, rest) refl)

-- list_clear with enough rounds: without a delete function the list becomes empty; with one, the
-- function is called on each node once, in order, and no link is written, so that the sentinel
-- still points at the deleted nodes.
pub list_clear-all :
    (fuel : ℕ) (s : Links) (l : ℕ) (xs : List ℕ) (f : Option ℕ)
    → IsRing s l xs
    → length xs < fuel
    → ((f ≡ none) × (list_clear fuel s l f ≡ ok ([], list_init s l)) × IsRing (list_init s l) l [])
      ⊎ ((list_clear fuel s l f ≡ ok (xs, s)) × (f ≢ none))
unfolding list_clear
list_clear-all fuel s l xs none r h = inl (refl, refl, list_init-nil s l)
list_clear-all fuel s l xs (some f) r h =
    inr (rw (for_each_safe-all fuel s l l xs r.chain r.apart h) refl, λ e. cc)
