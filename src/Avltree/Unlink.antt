-- ===== src/Avltree/Unlink.antt =====
-- src/lib/container/avltree.c: a node with one child at most leaves the tree, and the child takes its place.
use libvci.Base.{ℕ, suc, ◌≤◌, ◌<◌, ◌≡◌, ◌⊎◌, inl, inr, ap, refl, ◌∙◌, arith}
use libvci.Avltree.{Node, Avltree, Ref, read, set_parent_of}
use libvci.Avltree.Take.{replace_by}
use libvci.Avltree.Shape.{
  Tree, leaf, fork, Context, parent_of, ref_of, IsSorted, lower, upper, Holds,
}
use libvci.Avltree.Frame.{
  SameOut, IsSorted-le, IsSorted-wider, HoldsAround-frame, read-frame, set_parent_of-Holds,
  set_parent_of-other, write-SameIn,
}
use libvci.Avltree.Focus.{Focus, Opened, Focus-write, set_parent_of-root}
use libvci.Avltree.Keeps.{Keeps, Keeps-trans, Keeps-write, Keeps-set_parent_of}

IsSorted-lower :
    (at : ℕ → ℕ) (low lo : ℕ) (t : Tree) (hi : ℕ)
    → low ≤ lo
    → IsSorted at lo t hi
    → IsSorted at low t hi
IsSorted-lower at low lo leaf hi less h = omega arith
IsSorted-lower at low lo (fork l a r) hi less h = (IsSorted-lower at low lo l (at a) less h.0, h.1)

module _ (rank at : ℕ → ℕ) (bound : ℕ) where
  pub Focus-sized :
      (s : Avltree) (c : Context) (t : Tree) (size : ℕ)
      → Focus rank at bound s c t
      → Focus rank at bound (record s { size = size }) c t
  Focus-sized s c t size f =
      let sized : Avltree = record s { size = size } in
      let same : read sized (ref_of c) ≡ read s (ref_of c) =
        read-frame rank at bound s sized c refl (λ q out. refl) in
      record {
        held = rw same f.held;
        sorted = f.sorted;
        held_around =
            HoldsAround-frame rank at bound s sized c f.sorted_around refl (λ q out. refl)
              f.held_around;
        sorted_around = f.sorted_around;
      }

  -- The part is now the one child, and the node keeps its fields.
  module _ (s : Avltree) (c : Context) (l : Tree) (a : ℕ) (r : Tree)
      (o : Opened rank at bound s c l a r) where
    module _ (t : Tree) (p lo hi : ℕ) (low : lower at c ≤ lo) (high : hi ≤ upper at bound c)
        (off : (at a < lo) ⊎ (hi ≤ at a)) (sorted : IsSorted at lo t hi)
        (held : Holds rank at s.nodes t p a) where
      pub replaced-Focus : Focus rank at bound (replace_by s (ref_of c) p) c t
      unfolding replace_by
      replaced-Focus =
          let u = set_parent_of s p (parent_of c) in
          let within = set_parent_of-other rank at s lo t hi p a (parent_of c) sorted held in
          let outside : SameOut at (lower at c) (upper at bound c) u.nodes s.nodes = λ q out.
            within q (elim out [ inl less ↦ inl (omega arith) | inr more ↦ inr (omega arith) ]) in
          rw (o.placed, o.node.1)
            (Focus-write rank at bound s u c t p (set_parent_of-root s p (parent_of c)) outside
              o.held_around o.sorted_around
              (IsSorted-lower at (lower at c) lo t (upper at bound c) low
                (IsSorted-wider at lo t hi (upper at bound c) sorted high))
              (set_parent_of-Holds rank at s lo t hi p a (parent_of c) sorted held))

      pub replaced_parent : ((replace_by s (ref_of c) p).nodes a).parent ≡ parent_of c
      unfolding replace_by
      replaced_parent =
          let u = set_parent_of s p (parent_of c) in
          let near = IsSorted-le at (lower at c) l (at a) o.left_sorted in
          let far = IsSorted-le at (suc (at a)) r (upper at bound c) o.right_sorted in
          rw (o.placed, o.node.1)
            (ap (λ (n : Node). n.parent)
                (write-SameIn rank at bound u c p a near far
                  ∙ set_parent_of-other rank at s lo t hi p a (parent_of c) sorted held a off)
              ∙ o.node.1)

pub Keeps-replace_by : (s : Avltree) (ref : Ref) (p : ℕ) → Keeps s (replace_by s ref p)
unfolding replace_by
Keeps-replace_by s ref p = Keeps-trans (Keeps-set_parent_of s p _) (Keeps-write _ ref p)
