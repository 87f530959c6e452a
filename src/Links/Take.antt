-- ===== src/Links/Take.antt =====
-- Taking a node out, from anywhere, from the front and from the back.
use mathlib.Core.List.{append-nil, append_assoc}
use libvci.Base.{ℕ, ◌≡◌, sym, ◌∙◌, subst, ◌≢◌, arith, inl, inr, List, [], ◌∷◌, ◌++◌}
use libvci.Links.{Links, update, set_prev, set_next, list_take, list_take_front, list_take_back}
use libvci.Links.Chain.{
  Chain, Fresh, Distinct, IsRing, Chain-set_next, Chain-set_prev, Chain-append, Chain-split,
  Distinct-insert, last_cases, Distinct-split, Fresh-split, Fresh-append,
}
use libvci.Links.Insert.{next-Fresh, prev_last}

-- From `a` through `x` and `ys` to `z`, less `x`.
take_behind :
    (s : Links) (a x : ℕ) (ys : List ℕ) (z : ℕ)
    → Chain s a (x ∷ ys) z
    → x ≢ a
    → x ≢ z
    → Fresh a ys
    → Fresh z ys
    → Distinct (x ∷ ys)
    → Chain (list_take s x) a ys z
unfolding list_take
take_behind s a x [] z c na nz fa fz d = ground arith
take_behind s a x (y ∷ ys) z c na nz fa fz d =
    let s₁ = set_next s (s.prev x) (s.next x) in
    let c₁ =
      Chain-set_next s y ys z (s.prev x) (s.next x) c.2.2 (λ e. fa.0 (sym c.1 ∙ e))
        (subst (λ n. Fresh n ys) (sym c.1) fa.1) in
    let at : update s.next (s.prev x) (s.next x) x ≡ y = ground arith in
    let c₂ = Chain-set_prev s₁ y ys z y (s.prev x) c₁ (λ e. fz.0 (sym e)) d.1.0 in
    (ground arith, ground arith, subst (λ n. Chain (set_prev s₁ n (s.prev x)) y ys z) (sym at) c₂)

-- The nodes in front of the predecessor `p` keep their links.
take_before :
    (s : Links) (a : ℕ) (xs : List ℕ) (p x : ℕ)
    → Chain s a xs p
    → s.prev x ≡ p
    → x ≢ p
    → p ≢ a
    → Fresh p xs
    → s.next x ≢ p
    → Fresh (s.next x) xs
    → Chain (list_take s x) a xs p
unfolding list_take
take_before s a xs p x c e np pa fp self new =
    let s₁ = set_next s (s.prev x) (s.next x) in
    let c₁ =
      Chain-set_next s a xs p (s.prev x) (s.next x) c (λ q. pa (sym e ∙ q))
        (subst (λ n. Fresh n xs) (sym e) fp) in
    let at : update s.next (s.prev x) (s.next x) x ≡ s.next x = ground arith in
    subst (λ n. Chain (set_prev s₁ n (s.prev x)) a xs p) (sym at)
      (Chain-set_prev s₁ a xs p (s.next x) (s.prev x) c₁ self new)

-- The first node goes.
take_first : (s : Links) (l x : ℕ) (ys : List ℕ) → IsRing s l (x ∷ ys) → IsRing (list_take s x) l ys
take_first s l x ys r =
    let ne : x ≢ l = λ e. r.apart.0 (sym e) in
    record {
      chain = take_behind s l x ys l r.chain ne ne r.apart.1 r.apart.1 r.distinct;
      apart = r.apart.1;
      distinct = r.distinct.1;
    }

-- A node behind `p` goes.
take_after :
    (s : Links) (l : ℕ) (xs : List ℕ) (p x : ℕ) (ys : List ℕ)
    → IsRing s l (xs ++ p ∷ x ∷ ys)
    → (s.next x ≢ p) × Fresh (s.next x) xs
    → IsRing (list_take s x) l (xs ++ p ∷ ys)
take_after s l xs p x ys r (self, new) =
    let (front, back) = Chain-split s l xs p (x ∷ ys) l r.chain in
    let (dx, dy, px, py, dxy) = Distinct-split xs p (x ∷ ys) r.distinct in
    let (lx, lpy) = Fresh-split l xs (p ∷ x ∷ ys) r.apart in
    let nxp : x ≢ p = λ e. py.0 (sym e) in
    let before = take_before s l xs p x front back.1 nxp (λ e. lpy.0 (sym e)) px self new in
    let behind = take_behind s p x ys l back nxp (λ e. lpy.1.0 (sym e)) py.1 lpy.1.1 dy in
    record {
      chain = Chain-append (list_take s x) l xs p ys l before behind;
      apart = Fresh-append l xs (p ∷ ys) lx (lpy.0, lpy.1.1);
      distinct =
          Distinct-insert xs p ys (Distinct-split xs x ys dxy).4 (Fresh-append p xs ys px py.1);
    }

-- list_take removes exactly the given node from the list that holds it.
pub list_take-remove :
    (s : Links) (l : ℕ) (xs : List ℕ) (x : ℕ) (ys : List ℕ)
    → IsRing s l (xs ++ x ∷ ys)
    → IsRing (list_take s x) l (xs ++ ys)
list_take-remove s l xs x ys r = elim (last_cases xs) [
  | inl e ↦
      subst (λ n. IsRing (list_take s x) l (n ++ ys)) (sym e)
        (take_first s l x ys (subst (λ n. IsRing s l (n ++ x ∷ ys)) e r))
  | inr (zs, p, e) ↦
      let ring = subst (λ n. IsRing s l (n ++ x ∷ ys)) e r in
      let (front, back) = Chain-split s l (zs ++ p ∷ []) x ys l ring.chain in
      let (self, new) = next-Fresh s l (zs ++ p ∷ []) x ys ring back in
      let (fz, fp) = Fresh-split (s.next x) zs (p ∷ []) new in
      let ring' = subst (IsRing s l) (append_assoc zs (p ∷ []) (x ∷ ys)) ring in
      subst (λ n. IsRing (list_take s x) l (n ++ ys)) (sym e)
        (subst (IsRing (list_take s x) l) (sym (append_assoc zs (p ∷ []) ys))
          (take_after s l zs p x ys ring' (fp.0, fz)))
]

-- list_take_front on a list with a node returns the first node and leaves the others.
pub list_take_front-cons :
    (s : Links) (l x : ℕ) (xs : List ℕ)
    → IsRing s l (x ∷ xs)
    → ((list_take_front s l).0 ≡ x) × IsRing (list_take_front s l).1 l xs
unfolding list_take_front
list_take_front-cons s l x xs r =
    (r.chain.0, subst (λ n. IsRing (list_take s n) l xs) (sym r.chain.0) (take_first s l x xs r))

-- list_take_back on a list with a node returns the last node and leaves the others.
pub list_take_back-snoc :
    (s : Links) (l : ℕ) (xs : List ℕ) (x : ℕ)
    → IsRing s l (xs ++ x ∷ [])
    → ((list_take_back s l).0 ≡ x) × IsRing (list_take_back s l).1 l xs
unfolding list_take_back
list_take_back-snoc s l xs x r =
    let last = prev_last s l xs x l r.chain in
    let left = subst (IsRing (list_take s x) l) (append-nil xs) (list_take-remove s l xs x [] r) in
    (last, subst (λ n. IsRing (list_take s n) l xs) (sym last) left)
