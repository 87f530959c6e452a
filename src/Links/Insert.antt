-- ===== src/Links/Insert.antt =====
-- Insertion behind a node, at the front and at the back.
use mathlib.Core.List.{append_assoc}
use libvci.Base.{ℕ, ◌≡◌, sym, ◌∙◌, subst, ◌≢◌, arith, inl, inr, List, [], ◌∷◌, ◌++◌}
use libvci.Links.{
  Links, update, set_prev, set_next, list_insert, list_insert_front, list_insert_back,
}
use libvci.Links.Chain.{
  Chain, Fresh, Distinct, IsRing, Chain-set_next, Chain-set_prev, Chain-append, Chain-split,
  Distinct-split, Distinct-move, last_cases, Fresh-split, Fresh-append,
}

-- Behind the node `p`, where the rest of the list begins.
list_insert-behind :
    (s : Links) (p : ℕ) (ys : List ℕ) (z link : ℕ)
    → Chain s p ys z
    → link ≢ p
    → link ≢ z
    → Fresh link ys
    → Fresh p ys
    → Fresh z ys
    → Distinct ys
    → Chain (list_insert s p link) p (link ∷ ys) z
unfolding list_insert
list_insert-behind s p [] z link c np nz f fp fz d = ground arith
list_insert-behind s p (y ∷ ys) z link c np nz f fp fz d =
    let s₁ = set_prev s link p in
    let c₁ = Chain-set_prev s y ys z link p c.2 nz f.1 in
    let c₂ = Chain-set_next s₁ y ys z link (s.next p) c₁ f.0 f.1 in
    let s₂ = set_next s₁ link (s.next p) in
    let c₃ = Chain-set_next s₂ y ys z p link c₂ fp.0 fp.1 in
    let c₄ = Chain-set_prev (set_next s₂ p link) y ys z y link c₃ (λ e. fz.0 (sym e)) d.0 in
    let at : update (update s.next link (s.next p)) p link link ≡ y = ground arith in
    (
      ground arith,
      ground arith,
      (
        ground arith,
        ground arith,
        subst (λ n. Chain (set_prev (set_next s₂ p link) n link) y ys z) (sym at) c₄,
      ),
    )

-- The part of the list in front of `p` keeps its links.
list_insert-before :
    (s : Links) (a : ℕ) (xs : List ℕ) (p link : ℕ)
    → Chain s a xs p
    → link ≢ a
    → link ≢ p
    → Fresh link xs
    → p ≢ a
    → Fresh p xs
    → s.next p ≢ p
    → Fresh (s.next p) xs
    → Chain (list_insert s p link) a xs p
unfolding list_insert
list_insert-before s a xs p link c na np f pa fp self fn =
    let s₁ = set_prev s link p in
    let c₁ = Chain-set_prev s a xs p link p c np f in
    let c₂ = Chain-set_next s₁ a xs p link (s.next p) c₁ na f in
    let s₂ = set_next s₁ link (s.next p) in
    let c₃ = Chain-set_next s₂ a xs p p link c₂ pa fp in
    let at : update (update s.next link (s.next p)) p link link ≡ s.next p = ground arith in
    rw at (Chain-set_prev (set_next s₂ p link) a xs p (s.next p) link c₃ self fn)

-- list_insert_front puts a node that is not in the list before all others.
pub list_insert_front-cons :
    (s : Links) (l : ℕ) (xs : List ℕ) (link : ℕ)
    → IsRing s l xs
    → link ≢ l
    → Fresh link xs
    → IsRing (list_insert_front s l link) l (link ∷ xs)
unfolding list_insert_front
list_insert_front-cons s l xs link r ne f = record {
  chain = list_insert-behind s l xs l link r.chain ne ne f r.apart r.apart r.distinct;
  apart = ((λ e. ne (sym e)), r.apart);
  distinct = (f, r.distinct);
}

-- The successor of `p` is neither `p` nor one of the nodes in front of it.
pub next-Fresh :
    (s : Links) (l : ℕ) (xs : List ℕ) (p : ℕ) (ys : List ℕ)
    → IsRing s l (xs ++ p ∷ ys)
    → Chain s p ys l
    → (s.next p ≢ p) × Fresh (s.next p) xs
next-Fresh s l xs p [] r c =
    let (front, back) = Fresh-split l xs (p ∷ []) r.apart in
    ((λ e. back.0 (sym c.0 ∙ e)), subst (λ n. Fresh n xs) (sym c.0) front)
next-Fresh s l xs p (y ∷ ys) r c =
    let (dx, dy, px, py, dxy) = Distinct-split xs p (y ∷ ys) r.distinct in
    let (ex, ey, yx, yy, exy) = Distinct-split xs y ys dxy in
    ((λ e. py.0 (sym e ∙ c.0)), subst (λ n. Fresh n xs) (sym c.0) yx)

-- list_insert behind a node of the list puts the new node right after it.
pub list_insert-after :
    (s : Links) (l : ℕ) (xs : List ℕ) (p : ℕ) (ys : List ℕ) (link : ℕ)
    → IsRing s l (xs ++ p ∷ ys)
    → link ≢ l
    → Fresh link (xs ++ p ∷ ys)
    → IsRing (list_insert s p link) l (xs ++ p ∷ link ∷ ys)
list_insert-after s l xs p ys link r ne f =
    let (front, back) = Chain-split s l xs p ys l r.chain in
    let (dx, dy, px, py, dxy) = Distinct-split xs p ys r.distinct in
    let (fx, fpy) = Fresh-split link xs (p ∷ ys) f in
    let (lx, lpy) = Fresh-split l xs (p ∷ ys) r.apart in
    let (self, new) = next-Fresh s l xs p ys r back in
    let before =
      list_insert-before s l xs p link front ne fpy.0 fx (λ e. lpy.0 (sym e)) px self new in
    let behind = list_insert-behind s p ys l link back fpy.0 ne fpy.1 py lpy.1 dy in
    record {
      chain = Chain-append (list_insert s p link) l xs p (link ∷ ys) l before behind;
      apart = Fresh-append l xs (p ∷ link ∷ ys) lx (lpy.0, ((λ e. ne (sym e)), lpy.1));
      distinct = Distinct-move xs p ys link r.distinct f;
    }

-- The last node of a list is the one before the sentinel.
pub prev_last :
    (s : Links) (a : ℕ) (xs : List ℕ) (p z : ℕ) → Chain s a (xs ++ p ∷ []) z → s.prev z ≡ p
prev_last s a [] p z c = c.2.1
prev_last s a (x ∷ xs) p z c = prev_last s x xs p z c.2

module _ (s : Links) (l link : ℕ) (ne : link ≢ l) where
  insert_back-nil : IsRing s l [] → IsRing (list_insert_back s l link) l (link ∷ [])
  unfolding list_insert_back list_insert_front
  insert_back-nil r =
      subst (λ p. IsRing (list_insert s p link) l (link ∷ [])) (sym r.chain.1)
        (list_insert_front-cons s l [] link r ne tt)

  insert_back_last :
      (xs : List ℕ) (x : ℕ)
      → IsRing s l (xs ++ x ∷ [])
      → Fresh link (xs ++ x ∷ [])
      → IsRing (list_insert_back s l link) l ((xs ++ x ∷ []) ++ link ∷ [])
  unfolding list_insert_back
  insert_back_last xs x r f =
      subst (λ p. IsRing (list_insert s p link) l ((xs ++ x ∷ []) ++ link ∷ []))
        (sym (prev_last s l xs x l r.chain))
        (rw (append_assoc xs (x ∷ []) (link ∷ [])) (list_insert-after s l xs x [] link r ne f))

  -- list_insert_back puts a node that is not in the list behind all others.
  pub list_insert_back-snoc :
      (xs : List ℕ)
      → IsRing s l xs
      → Fresh link xs
      → IsRing (list_insert_back s l link) l (xs ++ link ∷ [])
  list_insert_back-snoc xs r f = elim (last_cases xs) [
    | inl e ↦
        subst (λ n. IsRing (list_insert_back s l link) l (n ++ link ∷ [])) (sym e)
          (insert_back-nil (subst (IsRing s l) e r))
    | inr (ys, y, e) ↦
        subst (λ n. IsRing (list_insert_back s l link) l (n ++ link ∷ [])) (sym e)
          (insert_back_last ys y (subst (IsRing s l) e r) (subst (Fresh link) e f))
  ]
