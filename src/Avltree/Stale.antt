-- ===== src/Avltree/Stale.antt =====
-- src/lib/container/avltree.c: _avltree_take_node of a node with two children.
use libvci.Base.{
  ℕ, suc, ◌+◌, ◌-◌, ◌%◌, u32, ◌≤◌, ◌<◌, ◌≡◌, ◌≢◌, inl, ap, sym, refl, ◌∙◌, false, ◌==◌, List,
  Returns, returns, Returns-bind, arith,
}
use libvci.Avltree.{Node, Avltree, Ref, at_root, at_left, at_right, read, write, put, set_parent_of}
use libvci.Avltree.Take.{replace_by, avlnode_take_min, take_inner, avltree_take_node}
use libvci.Avltree.Shape.{Tree, fork, Context, in_right, depth, ref_of, upper}
use libvci.Avltree.Frame.{IsSorted-le, put_below, read-write, set_parent_of-other}
use libvci.Avltree.Round.{open_fork}
use libvci.Avltree.Place.{Place, Place-right}
use libvci.Avltree.Ends.{leftmost-IsLeftmost}

write-parent :
    (s : Avltree) (ref : Ref) (v q : ℕ) → ((write s ref v).nodes q).parent ≡ (s.nodes q).parent
write-parent s at_root v q = refl
write-parent s (at_left p) v q = ground arith
write-parent s (at_right p) v q = ground arith

read-size : (s : Avltree) (ref : Ref) (size : ℕ) → read (record s { size = size }) ref ≡ read s ref
read-size s at_root size = refl
read-size s (at_left p) size = refl
read-size s (at_right p) size = refl

module _ (rank at : ℕ → ℕ) (bound : ℕ) (s : Avltree) (xs : List ℕ) (n fuel : ℕ) (c : Context) where
  module _ (l : Tree) (b : ℕ) (m : Tree) (a : ℕ) (v : Tree) (d : ℕ) (r : Tree) where
    module _ (here : Place rank at bound s xs n c (fork (fork l b m) a (fork v d r)))
        (enough : depth (fork v d r) ≤ fuel) where
      b_below : at b < at a
      b_below = IsSorted-le at (suc (at b)) m (at a) here.focus.sorted.0.1

      b_parent : (s.nodes b).parent ≡ a
      b_parent = let o = open_fork rank at bound here.focus in o.left_held.2.1

      after_min :
          Returns
            (λ out. (at a < at out.1) × ((out.0.nodes b).parent ≡ a))
            (avlnode_take_min fuel s (at_right a))
      unfolding avlnode_take_min replace_by
      after_min =
          let right = Place-right rank at bound s xs n c (fork l b m) a (fork v d r) here in
          Returns-bind
            (leftmost-IsLeftmost rank at bound s xs n fuel (in_right (fork l b m) a c) v d r enough
              right)
            (λ ref found.
              let o = open_fork rank at bound found.place.focus in
              let q = found.node in
              let k = found.right in
              let p = (s.nodes q).right in
              let parent = (s.nodes q).parent in
              let above : suc (at a) ≤ at q = rw (← found.same_lower) o.left_sorted in
              let apart =
                set_parent_of-other rank at s (suc (at q)) k (upper at bound found.around_it) p q
                  parent o.right_sorted o.right_held in
              let kept : ((write (set_parent_of s p parent) (ref_of found.around_it) p).nodes
                    b).parent
                  ≡ a =
                write-parent (set_parent_of s p parent) (ref_of found.around_it) p b
                ∙ ap (λ (u : Node). u.parent) (apart b (inl (omega (arith, b_below))))
                ∙ b_parent in
              rw (found.ref_is, o.placed) (returns (above, kept)))

      after_inner :
          Returns
            (λ t. (read t (ref_of c) ≢ a) × ((t.nodes b).parent ≡ a))
            (take_inner fuel s (ref_of c))
      unfolding take_inner
      after_inner =
          let o = open_fork rank at bound here.focus in
          rw o.placed (
            Returns-bind after_min (λ out good.
              let q = out.1 in
              let u = put out.0 q (record (out.0.nodes a) { key = (out.0.nodes q).key }) in
              let kept : ((write u (ref_of c) q).nodes b).parent ≡ a =
                write-parent u (ref_of c) q b
                ∙ ap (λ (w : Node). w.parent)
                    (put_below at out.0 q _ b (omega (arith, good.0, b_below)))
                ∙ good.1 in
              let other : read (write u (ref_of c) q) (ref_of c) ≢ a = λ e.
                absurd
                  (omega (arith, good.0, ap at (sym (read-write rank at u (ref_of c) q) ∙ e))) in
              returns (other, kept)))

      -- _avltree_take_node of a node with two children, in a balanced search tree, puts another
      -- node in its place, and leaves the removed node as the parent of the left child.
      pub avltree_take_node_stale :
          Returns
            (λ out. (out.1 ≡ a) × (read out.0 (ref_of c) ≢ a) × ((out.0.nodes b).parent ≡ a))
            (avltree_take_node fuel s (ref_of c))
      unfolding avltree_take_node
      avltree_take_node_stale =
          let o = open_fork rank at bound here.focus in
          let some_left : ((s.nodes (read s (ref_of c))).left == 0) ≡ false =
            rw o.placed (ground (arith, o.left_held.0, o.left_held.2.0)) in
          let some_right : ((s.nodes (read s (ref_of c))).right == 0) ≡ false =
            rw o.placed (ground (arith, o.right_held.0, o.right_held.2.0)) in
          rw (some_left, some_right, o.placed)
            (Returns-bind after_inner (λ t good. returns (
              refl,
              (λ e. good.0 (sym (read-size t (ref_of c) ((t.size + u32 - 1) % u32)) ∙ e)),
              good.1,
            )))
