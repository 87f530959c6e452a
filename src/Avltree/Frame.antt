-- ===== src/Avltree/Frame.antt =====
-- src/lib/container/avltree.c: a write to a node leaves the parts of the tree that it is not in.
use libvci.Base.{ℕ, suc, ◌≤◌, ◌<◌, ◌≡◌, ◌⊎◌, inl, inr, ap, subst, refl, ◌∙◌, arith}
use libvci.Avltree.{Node, Avltree, Ref, at_root, at_left, at_right, read, write, set_parent_of, put}
use libvci.Avltree.Shape.{
  Tree, leaf, fork, Context, top, in_left, in_right, ref_of, IsSorted, lower, upper, SortedAround,
  Holds, HoldsAround,
}

-- Nodes whose rank is in the interval are the same in both stores, or those whose rank is not.
abbrev pub SameIn : (ℕ → ℕ) → ℕ → ℕ → (ℕ → Node) → (ℕ → Node) → Type 0
SameIn at lo hi new old = (q : ℕ) → lo ≤ at q → at q < hi → new q ≡ old q

abbrev pub SameOut : (ℕ → ℕ) → ℕ → ℕ → (ℕ → Node) → (ℕ → Node) → Type 0
SameOut at lo hi new old = (q : ℕ) → (at q < lo) ⊎ (hi ≤ at q) → new q ≡ old q

pub put_self : (s : Avltree) (a : ℕ) (n : Node) → (put s a n).nodes a ≡ n
put_self s a n = ground arith

module _ (at : ℕ → ℕ) where
  pub put_below :
      (s : Avltree) (a : ℕ) (n : Node) (q : ℕ) → at q < at a → (put s a n).nodes q ≡ s.nodes q
  put_below s a n q h = ground arith

  pub put_above :
      (s : Avltree) (a : ℕ) (n : Node) (q : ℕ) → at a < at q → (put s a n).nodes q ≡ s.nodes q
  put_above s a n q h = ground arith

  pub IsSorted-le : (lo : ℕ) (t : Tree) (hi : ℕ) → IsSorted at lo t hi → lo ≤ hi
  IsSorted-le lo leaf hi h = h
  IsSorted-le lo (fork l a r) hi h =
      omega (arith, IsSorted-le lo l (at a) h.0, IsSorted-le (suc (at a)) r hi h.1)

  pub IsSorted-wider :
      (lo : ℕ) (t : Tree) (hi far : ℕ) → IsSorted at lo t hi → hi ≤ far → IsSorted at lo t far
  IsSorted-wider lo leaf hi far h wide = omega arith
  IsSorted-wider lo (fork l a r) hi far h wide =
      (h.0, IsSorted-wider (suc (at a)) r hi far h.1 wide)

module _ (rank at : ℕ → ℕ) where
  pub Holds-frame :
      {new old : ℕ → Node} (lo : ℕ) (t : Tree) (hi p parent : ℕ)
      → IsSorted at lo t hi
      → SameIn at lo hi new old
      → Holds rank at old t p parent
      → Holds rank at new t p parent
  Holds-frame lo leaf hi p parent s same h = h
  Holds-frame {new} {old} lo (fork l a r) hi p parent s same h =
      let before = IsSorted-le at lo l (at a) s.0 in
      let behind = IsSorted-le at (suc (at a)) r hi s.1 in
      let left : Holds rank at new l (old a).left a =
        Holds-frame lo l (at a) (old a).left a s.0 (λ q low high. same q low (omega arith)) h.3 in
      let right : Holds rank at new r (old a).right a =
        Holds-frame (suc (at a)) r hi (old a).right a s.1 (λ q low high. same q (omega arith) high)
          h.4 in
      rw (same a before behind) (h.0, h.1, h.2, left, right)

  -- A new parent of the top.
  pub set_parent_of-Holds :
      (s : Avltree) (lo : ℕ) (t : Tree) (hi p old new : ℕ)
      → IsSorted at lo t hi
      → Holds rank at s.nodes t p old
      → Holds rank at (set_parent_of s p new).nodes t p new
  set_parent_of-Holds s lo leaf hi p old new o h = h
  set_parent_of-Holds s lo (fork l a r) hi p old new o h =
      let t = set_parent_of s p new in
      let left_same : (s.nodes a).left ≡ (t.nodes a).left = ground arith in
      let right_same : (s.nodes a).right ≡ (t.nodes a).right = ground arith in
      let left : Holds rank at t.nodes l (s.nodes a).left a =
        Holds-frame lo l (at a) (s.nodes a).left a o.0 (λ q low high. ground arith) h.3 in
      let right : Holds rank at t.nodes r (s.nodes a).right a =
        Holds-frame (suc (at a)) r hi (s.nodes a).right a o.1 (λ q low high. ground arith) h.4 in
      (
        h.0,
        ground arith,
        (h.2.0, ground arith, ground arith),
        subst (λ v. Holds rank at t.nodes l v a) left_same left,
        subst (λ v. Holds rank at t.nodes r v a) right_same right,
      )

  pub set_parent_of-other :
      (s : Avltree) (lo : ℕ) (t : Tree) (hi p old new : ℕ)
      → IsSorted at lo t hi
      → Holds rank at s.nodes t p old
      → SameOut at lo hi (set_parent_of s p new).nodes s.nodes
  set_parent_of-other s lo leaf hi p old new o h q out = rw h
  set_parent_of-other s lo (fork l a r) hi p old new o h q out =
      ground (arith, IsSorted-le at lo l (at a) o.0, IsSorted-le at (suc (at a)) r hi o.1)

  pub read-frame :
      (bound : ℕ) (s t : Avltree) (c : Context)
      → t.root ≡ s.root
      → SameOut at (lower at c) (upper at bound c) t.nodes s.nodes
      → read t (ref_of c) ≡ read s (ref_of c)
  read-frame bound s t top root same = root
  read-frame bound s t (in_left c a r) root same =
      ap (λ (n : Node). n.left) (same a (inr (omega arith)))
  read-frame bound s t (in_right l a c) root same =
      ap (λ (n : Node). n.right) (same a (inl (omega arith)))

  pub HoldsAround-frame :
      (bound : ℕ) (s t : Avltree) (c : Context)
      → SortedAround at bound c
      → t.root ≡ s.root
      → SameOut at (lower at c) (upper at bound c) t.nodes s.nodes
      → HoldsAround rank at s c
      → HoldsAround rank at t c
  HoldsAround-frame bound s t top o root same h = tt
  HoldsAround-frame bound s t (in_left c a r) o root same h =
      let far = IsSorted-le at (suc (at a)) r (upper at bound c) o.0 in
      let wide : SameOut at (lower at c) (upper at bound c) t.nodes s.nodes =
        λ q out. same q (elim out [ inl low ↦ inl low | inr high ↦ inr (omega arith) ]) in
      let right : Holds rank at t.nodes r (s.nodes a).right a =
        Holds-frame (suc (at a)) r (upper at bound c) (s.nodes a).right a o.0
          (λ q low high. same q (inr (omega arith))) h.2 in
      rw (same a (inr (omega arith))) (
        read-frame bound s t c root wide ∙ h.0,
        h.1,
        right,
        HoldsAround-frame bound s t c o.2 root wide h.3,
      )
  HoldsAround-frame bound s t (in_right l a c) o root same h =
      let near = IsSorted-le at (lower at c) l (at a) o.0 in
      let wide : SameOut at (lower at c) (upper at bound c) t.nodes s.nodes =
        λ q out. same q (elim out [ inl low ↦ inl (omega arith) | inr high ↦ inr high ]) in
      let left : Holds rank at t.nodes l (s.nodes a).left a =
        Holds-frame (lower at c) l (at a) (s.nodes a).left a o.0
          (λ q low high. same q (inl (omega arith))) h.2 in
      rw (same a (inl (omega arith))) (
        read-frame bound s t c root wide ∙ h.0,
        h.1,
        left,
        HoldsAround-frame bound s t c o.2 root wide h.3,
      )

  pub read-write : (s : Avltree) (ref : Ref) (v : ℕ) → read (write s ref v) ref ≡ v
  read-write s at_root v = refl
  read-write s (at_left a) v = ground arith
  read-write s (at_right a) v = ground arith

  -- A write to the pointer to the part.
  pub write-HoldsAround :
      (bound : ℕ) (s : Avltree) (c : Context) (v : ℕ)
      → SortedAround at bound c
      → HoldsAround rank at s c
      → HoldsAround rank at (write s (ref_of c) v) c
  write-HoldsAround bound s top v o h = tt
  write-HoldsAround bound s (in_left c a r) v o h =
      let n : Node = record (s.nodes a) { left = v } in
      let t = put s a n in
      let far = IsSorted-le at (suc (at a)) r (upper at bound c) o.0 in
      let same : SameOut at (lower at c) (upper at bound c) t.nodes s.nodes = λ q out. elim out [
        | inl low ↦ put_below at s a n q (omega arith)
        | inr high ↦ put_above at s a n q (omega arith)
      ] in
      let changed : t.nodes a ≡ n = put_self s a n in
      let right : Holds rank at t.nodes r (s.nodes a).right a =
        Holds-frame (suc (at a)) r (upper at bound c) (s.nodes a).right a o.0
          (λ q low high. put_above at s a n q (omega arith)) h.2 in
      rw changed (
        read-frame bound s t c refl same ∙ h.0,
        h.1,
        right,
        HoldsAround-frame bound s t c o.2 refl same h.3,
      )
  write-HoldsAround bound s (in_right l a c) v o h =
      let n : Node = record (s.nodes a) { right = v } in
      let t = put s a n in
      let near = IsSorted-le at (lower at c) l (at a) o.0 in
      let same : SameOut at (lower at c) (upper at bound c) t.nodes s.nodes = λ q out. elim out [
        | inl low ↦ put_below at s a n q (omega arith)
        | inr high ↦ put_above at s a n q (omega arith)
      ] in
      let changed : t.nodes a ≡ n = put_self s a n in
      let left : Holds rank at t.nodes l (s.nodes a).left a =
        Holds-frame (lower at c) l (at a) (s.nodes a).left a o.0
          (λ q low high. put_below at s a n q (omega arith)) h.2 in
      rw changed (
        read-frame bound s t c refl same ∙ h.0,
        h.1,
        left,
        HoldsAround-frame bound s t c o.2 refl same h.3,
      )

  pub write-SameIn :
      (bound : ℕ) (s : Avltree) (c : Context) (v : ℕ)
      → SameIn at (lower at c) (upper at bound c) (write s (ref_of c) v).nodes s.nodes
  write-SameIn bound s top v q low high = refl
  write-SameIn bound s (in_left c a r) v q low high = ground arith
  write-SameIn bound s (in_right l a c) v q low high = ground arith
