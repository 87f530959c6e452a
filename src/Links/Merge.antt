-- ===== src/Links/Merge.antt =====
-- list_merge into an empty list, and into one that has nodes.
use libvci.Base.{ℕ, ◌≡◌, sym, ◌∙◌, ap, ◌≢◌, arith, List, [], ◌∷◌, false}
use libvci.Links.{Links, list_init, list_back, list_empty, list_merge}
use libvci.Links.Chain.{Chain, Fresh, Distinct, IsRing}

-- The last node of a chain is one of its nodes.
last_ne :
    (s : Links) (a x : ℕ) (xs : List ℕ) (z : ℕ) → Chain s x xs z → a ≢ x → Fresh a xs → a ≢ s.prev z
last_ne s a x [] z c ne f = λ e. ne (e ∙ c.1)
last_ne s a x (y ∷ xs) z c ne f = last_ne s a y xs z c.2 f.0 f.1

module _ (s t : Links) (l o y : ℕ)
    (next_kept : (n : ℕ) → n ≢ s.prev o → n ≢ l → n ≢ o → t.next n ≡ s.next n)
    (next_last : t.next (s.prev o) ≡ l)
    (prev_kept : (n : ℕ) → n ≢ y → n ≢ l → n ≢ o → t.prev n ≡ s.prev n)
    (prev_end : t.prev l ≡ s.prev o) where
  -- The nodes of `o` behind `a`, with their end turned to `l`.
  redirected :
      (a : ℕ) (xs : List ℕ)
      → Chain s a xs o
      → Fresh l (a ∷ xs)
      → Fresh o (a ∷ xs)
      → Fresh y xs
      → Fresh a xs
      → Distinct xs
      → Chain t a xs l
  redirected a [] c fl fo fy fa d = (ap t.next (sym c.1) ∙ next_last, prev_end ∙ c.1)
  redirected a (x ∷ xs) c fl fo fy fa d = (
    next_kept a (last_ne s a x xs o c.2 fa.0 fa.1) (λ e. fl.0 (sym e)) (λ e. fo.0 (sym e)) ∙ c.0,
    prev_kept x (λ e. fy.0 (sym e)) (λ e. fl.1.0 (sym e)) (λ e. fo.1.0 (sym e)) ∙ c.1,
    redirected x xs c.2 fl.1 fo.1 fy.1 d.0 d.1,
  )

-- The pointers `next` alone lead from `a` through `xs` to `z`.
abbrev pub Forward : (ℕ → ℕ) → ℕ → List ℕ → ℕ → Type 0
Forward next a [] z = next a ≡ z
Forward next a (x ∷ xs) z = (next a ≡ x) × Forward next x xs z

module _ (s : Links) (next : ℕ → ℕ) (l o : ℕ)
    (next_kept : (n : ℕ) → n ≢ s.prev o → n ≢ l → n ≢ o → next n ≡ s.next n)
    (next_last : next (s.prev o) ≡ l) where
  redirected_next :
      (a : ℕ) (xs : List ℕ)
      → Chain s a xs o
      → Fresh l (a ∷ xs)
      → Fresh o (a ∷ xs)
      → Fresh a xs
      → Distinct xs
      → Forward next a xs l
  redirected_next a [] c fl fo fa d = ap next (sym c.1) ∙ next_last
  redirected_next a (x ∷ xs) c fl fo fa d = (
    next_kept a (last_ne s a x xs o c.2 fa.0 fa.1) (λ e. fl.0 (sym e)) (λ e. fo.0 (sym e)) ∙ c.0,
    redirected_next x xs c.2 fl.1 fo.1 d.0 d.1,
  )

module _ (s : Links) (l o y : ℕ) (ys : List ℕ) (other : IsRing s o (y ∷ ys)) (ne : l ≢ o)
    (apart : Fresh l (y ∷ ys)) where
  not_empty : list_empty s o ≡ false
  unfolding list_empty
  not_empty = ground (arith, other.chain.0, other.apart.0)

  last_ne_other : o ≢ s.prev o
  last_ne_other = last_ne s o y ys o other.chain.2 other.apart.0 other.apart.1

  last_ne_list : l ≢ s.prev o
  last_ne_list = last_ne s l y ys o other.chain.2 apart.0 apart.1

  -- list_merge into a list with no node gives it all nodes of the other, in order, and leaves the
  -- other with none.
  pub list_merge-nil :
      IsRing s l [] → IsRing (list_merge s l o) l (y ∷ ys) × IsRing (list_merge s l o) o []
  unfolding list_merge list_init
  list_merge-nil r =
      let first = other.chain.0 in
      let self = r.chain.0 in
      let a = other.apart.0 in
      let b = apart.0 in
      let c = last_ne_other in
      let d = last_ne_list in
      let back = other.chain.1 in
      rw not_empty (
        record {
          chain = (
            ground arith,
            ground arith,
            redirected s _ l o y (λ n h i j. ground arith) (ground arith) (λ n h i j. ground arith)
                (ground arith) y ys other.chain.2 apart other.apart other.distinct.0
                other.distinct.0 other.distinct.1,
          );
          apart = apart;
          distinct = other.distinct;
        },
        record { chain = (ground arith, ground arith); apart = tt; distinct = tt },
      )

  -- list_merge of another list that has nodes, none of which is the sentinel of the first, into a
  -- list that has nodes: from the sentinel the next pointers then lead through the other's nodes
  -- alone and back, while list_back still gives the old last node of the list.
  pub list_merge-loses :
      (x : ℕ) (xs : List ℕ)
      → IsRing s l (x ∷ xs)
      → Forward (list_merge s l o).next l (y ∷ ys) l
        × (list_back (list_merge s l o) l ≡ list_back s l)
  unfolding list_merge list_init list_back
  list_merge-loses x xs r =
      let first = other.chain.0 in
      let a = other.apart.0 in
      let b = apart.0 in
      let c = last_ne_other in
      let d = last_ne_list in
      let old = r.chain.0 in
      let e = r.apart.0 in
      rw not_empty (
        (
          ground arith,
          redirected_next s _ l o (λ n h i j. ground arith) (ground arith) y ys other.chain.2 apart
              other.apart other.distinct.0 other.distinct.1,
        ),
        ground arith,
      )
