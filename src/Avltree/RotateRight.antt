-- ===== src/Avltree/RotateRight.antt =====
-- src/lib/container/avltree.c: a rotation to the right exchanges a part of the tree for one in the same order.
use libvci.Base.{ℕ, suc, ◌≤◌, ◌<◌, ◌≡◌, ◌≢◌, inl, inr, ap, refl, ◌∙◌, max, arith}
use libvci.Avltree.{
  Avltree, set_parent_of, avlnode_get_height, swing_right, turn_right, avlnode_rotate_right,
}
use libvci.Avltree.Shape.{
  Tree, fork, Context, depth, parent_of, ref_of, IsSorted, lower, upper, Holds,
}
use libvci.Avltree.Frame.{
  SameIn, SameOut, IsSorted-le, Holds-frame, set_parent_of-Holds, set_parent_of-other,
}
use libvci.Avltree.Turns.{lowered, swing_right-node, swing_right-top, swing_right-other}
use libvci.Avltree.Focus.{
  avlnode_get_height-depth, Holds-pointer, Holds-fork, Focus, Opened, Focus-write,
  set_parent_of-root,
}

module _ (rank at : ℕ → ℕ) (bound : ℕ) (s : Avltree) (c : Context) (l : Tree) (x : ℕ) (m : Tree)
    (y : ℕ) (r : Tree) (o : Opened rank at bound s c (fork l x m) y r) where
  abbrev w : Avltree
  w = swing_right s y x

  abbrev t : Avltree
  t = set_parent_of w (s.nodes x).right y

  ranks : (lower at c ≤ at x) × (at x < at y) × (at y < upper at bound c)
  ranks = omega (
    arith,
    IsSorted-le at (lower at c) l (at x) o.left_sorted.0,
    IsSorted-le at (suc (at x)) m (at y) o.left_sorted.1,
    IsSorted-le at (suc (at y)) r (upper at bound c) o.right_sorted,
  )

  apart : x ≢ y
  apart e = absurd (omega (arith, ap at e, ranks.1))

  aside : (s.nodes x).left ≢ y
  aside e =
      elim (Holds-pointer rank at s.nodes (lower at c) l (at x) (s.nodes x).left x o.left_sorted.0
        o.left_held.3) [
          | inl null ↦ absurd (omega (arith, e, null, o.node.0))
          | inr near ↦ absurd (omega (arith, ap at e, near.1, ranks.1))
        ]

  swung : (q : ℕ) → (at q ≢ at y) → (at q ≢ at x) → w.nodes q ≡ s.nodes q
  swung q off far = swing_right-other s y x q (λ e. off (ap at e)) (λ e. far (ap at e))

  middle : Holds rank at w.nodes m (s.nodes x).right x
  middle =
      Holds-frame rank at (suc (at x)) m (at y) (s.nodes x).right x o.left_sorted.1
        (λ q low high. swung q (λ e. absurd (omega arith)) (λ e. absurd (omega arith)))
        o.left_held.4

  turned_out : SameOut at (suc (at x)) (at y) t.nodes w.nodes
  turned_out =
      set_parent_of-other rank at w (suc (at x)) m (at y) (s.nodes x).right x y o.left_sorted.1
        middle

  turned : turn_right s y x ≡ t
  unfolding turn_right
  turned = rw (swing_right-node s y x apart o.node.0 aside)

  below : SameIn at (lower at c) (at x) t.nodes s.nodes
  below q low high =
      turned_out q (inl (omega arith))
      ∙ swung q (λ e. absurd (omega (arith, ranks.1))) (λ e. absurd (omega arith))

  above : SameIn at (suc (at y)) (upper at bound c) t.nodes s.nodes
  above q low high =
      turned_out q (inr (omega arith))
      ∙ swung q (λ e. absurd (omega arith)) (λ e. absurd (omega (arith, ranks.1)))

  outside : SameOut at (lower at c) (upper at bound c) t.nodes s.nodes
  outside q out =
      turned_out q
        (elim out [ inl low ↦ inl (omega (arith, ranks)) | inr high ↦ inr (omega (arith, ranks)) ])
      ∙ swung q
          (λ e. elim out [
            | inl low ↦ absurd (omega (arith, ranks))
            | inr high ↦ absurd (omega (arith, ranks))
          ])
          (λ e. elim out [
            | inl low ↦ absurd (omega (arith, ranks))
            | inr high ↦ absurd (omega (arith, ranks))
          ])

  turned-Holds : Holds rank at t.nodes (fork l x (fork m y r)) x (parent_of c)
  turned-Holds =
      let left =
        Holds-frame rank at (lower at c) l (at x) (s.nodes x).left x o.left_sorted.0 below
          o.left_held.3 in
      let inner =
        set_parent_of-Holds rank at w (suc (at x)) m (at y) (s.nodes x).right x y o.left_sorted.1
          middle in
      let right =
        Holds-frame rank at (suc (at y)) r (upper at bound c) (s.nodes y).right y o.right_sorted
          above o.right_held in
      let node = turned_out y (inr (omega arith)) ∙ swing_right-node s y x apart o.node.0 aside in
      let top = turned_out x (inl (omega arith)) ∙ swing_right-top s y x apart o.node.0 aside in
      let low : lowered s y x apart o.node.0 aside ≡ max (depth m) (depth r) = rw (
        avlnode_get_height-depth rank at s m (s.nodes x).right x o.left_held.4,
        avlnode_get_height-depth rank at s r (s.nodes y).right y o.right_held,
      ) in
      let high : max (avlnode_get_height s (s.nodes x).left)
            (suc (lowered s y x apart o.node.0 aside))
          ≡ max (depth l) (suc (max (depth m) (depth r))) =
        rw (avlnode_get_height-depth rank at s l (s.nodes x).left x o.left_held.3, low) in
      Holds-fork rank at t.nodes l x (fork m y r) (parent_of c) _ top high
        (o.left_held.2.0, o.node.1, o.left_held.2.2) left
        (Holds-fork rank at t.nodes m y r x _ node low (o.node.0, refl, o.node.2) inner right)

  root_same : t.root ≡ s.root
  unfolding swing_right
  root_same = set_parent_of-root w (s.nodes x).right y

  pub avlnode_rotate_right-Focus :
      Focus rank at bound (avlnode_rotate_right s (ref_of c)) c (fork l x (fork m y r))
  unfolding avlnode_rotate_right
  avlnode_rotate_right-Focus =
      let sorted : IsSorted at (lower at c) (fork l x (fork m y r)) (upper at bound c) =
        (o.left_sorted.0, (o.left_sorted.1, o.right_sorted)) in
      rw (o.placed, o.left_held.0, turned)
        (Focus-write rank at bound s t c (fork l x (fork m y r)) x root_same outside o.held_around
          o.sorted_around sorted turned-Holds)
