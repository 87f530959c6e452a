-- ===== src/Avltree/RotateLeft.antt =====
-- src/lib/container/avltree.c: a rotation to the left exchanges a part of the tree for one in the same order.
use libvci.Base.{ℕ, suc, ◌≤◌, ◌<◌, ◌≡◌, ◌≢◌, inl, inr, ap, refl, ◌∙◌, max, arith}
use libvci.Avltree.{
  Avltree, set_parent_of, avlnode_get_height, swing_left, turn_left, avlnode_rotate_left,
}
use libvci.Avltree.Shape.{
  Tree, fork, Context, depth, parent_of, ref_of, IsSorted, lower, upper, Holds,
}
use libvci.Avltree.Frame.{
  SameIn, SameOut, IsSorted-le, Holds-frame, set_parent_of-Holds, set_parent_of-other,
}
use libvci.Avltree.Turns.{left_lowered, swing_left-node, swing_left-top, swing_left-other}
use libvci.Avltree.Focus.{
  avlnode_get_height-depth, Holds-pointer, Holds-fork, Focus, Opened, Focus-write,
  set_parent_of-root,
}

module _ (rank at : ℕ → ℕ) (bound : ℕ) (s : Avltree) (c : Context) (l : Tree) (y : ℕ) (m : Tree)
    (x : ℕ) (r : Tree) (o : Opened rank at bound s c l y (fork m x r)) where
  abbrev w : Avltree
  w = swing_left s y x

  abbrev t : Avltree
  t = set_parent_of w (s.nodes x).left y

  ranks : (lower at c ≤ at y) × (at y < at x) × (at x < upper at bound c)
  ranks = omega (
    arith,
    IsSorted-le at (lower at c) l (at y) o.left_sorted,
    IsSorted-le at (suc (at y)) m (at x) o.right_sorted.0,
    IsSorted-le at (suc (at x)) r (upper at bound c) o.right_sorted.1,
  )

  apart : x ≢ y
  apart e = absurd (omega (arith, ap at e, ranks.1))

  aside : (s.nodes x).right ≢ y
  aside e =
      elim (Holds-pointer rank at s.nodes (suc (at x)) r (upper at bound c) (s.nodes x).right x
        o.right_sorted.1 o.right_held.4) [
          | inl null ↦ absurd (omega (arith, e, null, o.node.0))
          | inr near ↦ absurd (omega (arith, ap at e, near.0, ranks.1))
        ]

  swung : (q : ℕ) → (at q ≢ at y) → (at q ≢ at x) → w.nodes q ≡ s.nodes q
  swung q off far = swing_left-other s y x q (λ e. off (ap at e)) (λ e. far (ap at e))

  middle : Holds rank at w.nodes m (s.nodes x).left x
  middle =
      Holds-frame rank at (suc (at y)) m (at x) (s.nodes x).left x o.right_sorted.0
        (λ q low high. swung q (λ e. absurd (omega arith)) (λ e. absurd (omega arith)))
        o.right_held.3

  turned_out : SameOut at (suc (at y)) (at x) t.nodes w.nodes
  turned_out =
      set_parent_of-other rank at w (suc (at y)) m (at x) (s.nodes x).left x y o.right_sorted.0
        middle

  turned : turn_left s y x ≡ t
  unfolding turn_left
  turned = rw (swing_left-node s y x apart o.node.0 aside)

  below : SameIn at (lower at c) (at y) t.nodes s.nodes
  below q low high =
      turned_out q (inl (omega arith))
      ∙ swung q (λ e. absurd (omega arith)) (λ e. absurd (omega (arith, ranks.1)))

  above : SameIn at (suc (at x)) (upper at bound c) t.nodes s.nodes
  above q low high =
      turned_out q (inr (omega arith))
      ∙ swung q (λ e. absurd (omega (arith, ranks.1))) (λ e. absurd (omega arith))

  outside : SameOut at (lower at c) (upper at bound c) t.nodes s.nodes
  outside q out =
      turned_out q
        (elim out [ inl low ↦ inl (omega (arith, ranks)) | inr high ↦ inr (omega (arith, ranks)) ])
      ∙ swung q
          (λ e. elim out [
            | inl low ↦ absurd (omega (arith, ranks))
            | inr high ↦ absurd (omega (arith, ranks))
          ])
          (λ e. elim out [
            | inl low ↦ absurd (omega (arith, ranks))
            | inr high ↦ absurd (omega (arith, ranks))
          ])

  turned-Holds : Holds rank at t.nodes (fork (fork l y m) x r) x (parent_of c)
  turned-Holds =
      let left =
        Holds-frame rank at (lower at c) l (at y) (s.nodes y).left y o.left_sorted below
          o.left_held in
      let inner =
        set_parent_of-Holds rank at w (suc (at y)) m (at x) (s.nodes x).left x y o.right_sorted.0
          middle in
      let right =
        Holds-frame rank at (suc (at x)) r (upper at bound c) (s.nodes x).right x o.right_sorted.1
          above o.right_held.4 in
      let node = turned_out y (inl (omega arith)) ∙ swing_left-node s y x apart o.node.0 aside in
      let top = turned_out x (inr (omega arith)) ∙ swing_left-top s y x apart o.node.0 aside in
      let low : left_lowered s y x apart o.node.0 aside ≡ max (depth l) (depth m) = rw (
        avlnode_get_height-depth rank at s l (s.nodes y).left y o.left_held,
        avlnode_get_height-depth rank at s m (s.nodes x).left x o.right_held.3,
      ) in
      let high : max (suc (left_lowered s y x apart o.node.0 aside))
            (avlnode_get_height s (s.nodes x).right)
          ≡ max (suc (max (depth l) (depth m))) (depth r) =
        rw (avlnode_get_height-depth rank at s r (s.nodes x).right x o.right_held.4, low) in
      Holds-fork rank at t.nodes (fork l y m) x r (parent_of c) _ top high
        (o.right_held.2.0, o.node.1, o.right_held.2.2)
        (Holds-fork rank at t.nodes l y m x _ node low (o.node.0, refl, o.node.2) left inner) right

  root_same : t.root ≡ s.root
  unfolding swing_left
  root_same = set_parent_of-root w (s.nodes x).left y

  pub avlnode_rotate_left-Focus :
      Focus rank at bound (avlnode_rotate_left s (ref_of c)) c (fork (fork l y m) x r)
  unfolding avlnode_rotate_left
  avlnode_rotate_left-Focus =
      let sorted : IsSorted at (lower at c) (fork (fork l y m) x r) (upper at bound c) =
        ((o.left_sorted, o.right_sorted.0), o.right_sorted.1) in
      rw (o.placed, o.right_held.0, turned)
        (Focus-write rank at bound s t c (fork (fork l y m) x r) x root_same outside o.held_around
          o.sorted_around sorted turned-Holds)
