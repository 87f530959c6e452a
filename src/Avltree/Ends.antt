-- ===== src/Avltree/Ends.antt =====
-- src/lib/container/avltree.c: the way to the first node and to the last.
use libvci.Base.{
  ℕ, zero, suc, ◌≤◌, ◌≡◌, refl, true, false, ◌==◌, List, Returns, returns, Returns-mono, arith,
}
use libvci.Avltree.{Avltree, Ref, read}
use libvci.Avltree.Take.{leftmost, rightmost}
use libvci.Avltree.Shape.{Tree, leaf, fork, Context, in_left, in_right, depth, ref_of, lower}
use libvci.Avltree.Around.{before, behind}
use libvci.Avltree.Round.{open_fork}
use libvci.Avltree.Place.{Place, Place-left, Place-right}

module _ (rank at : ℕ → ℕ) (bound : ℕ) (s : Avltree) (xs : List ℕ) (n : ℕ) where
  -- The place of a node with no left child and with no node before it, or the mirror image.
  pub record IsLeftmost (c : Context) (ref : Ref) : Type 0 where
    pub around_it : Context
    pub node : ℕ
    pub right : Tree
    pub place : Place rank at bound s xs n around_it (fork leaf node right)
    pub same_before : before around_it ≡ before c
    pub same_lower : lower at around_it ≡ lower at c
    pub ref_is : ref ≡ ref_of around_it

  pub record IsRightmost (c : Context) (ref : Ref) : Type 0 where
    pub around_it : Context
    pub node : ℕ
    pub left : Tree
    pub place : Place rank at bound s xs n around_it (fork left node leaf)
    pub same_behind : behind around_it ≡ behind c
    pub ref_is : ref ≡ ref_of around_it

  pub leftmost-IsLeftmost :
      (fuel : ℕ) (c : Context) (l : Tree) (a : ℕ) (r : Tree)
      → depth (fork l a r) ≤ fuel
      → Place rank at bound s xs n c (fork l a r)
      → Returns (IsLeftmost c) (leftmost fuel s (ref_of c))
  unfolding leftmost
  leftmost-IsLeftmost zero c l a r enough here = absurd (omega arith)
  leftmost-IsLeftmost (suc fuel) c leaf a r enough here =
      let o = open_fork rank at bound here.focus in
      let null : ((s.nodes (read s (ref_of c))).left == 0) ≡ true =
        rw o.placed (ground (arith, o.left_held)) in
      rw null (
        returns (record {
          around_it = c;
          node = a;
          right = r;
          place = here;
          same_before = refl;
          same_lower = refl;
          ref_is = refl;
        }))
  leftmost-IsLeftmost (suc fuel) c (fork l b m) a r enough here =
      let o = open_fork rank at bound here.focus in
      let more : ((s.nodes (read s (ref_of c))).left == 0) ≡ false =
        rw o.placed (ground (arith, o.left_held.0, o.left_held.2.0)) in
      rw (more, o.placed)
        (Returns-mono
          (leftmost-IsLeftmost fuel (in_left c a r) l b m (omega arith)
            (Place-left rank at bound s xs n c (fork l b m) a r here))
          (λ ref found. record {
            around_it = found.around_it;
            node = found.node;
            right = found.right;
            place = found.place;
            same_before = found.same_before;
            same_lower = found.same_lower;
            ref_is = found.ref_is;
          }))

  pub rightmost-IsRightmost :
      (fuel : ℕ) (c : Context) (l : Tree) (a : ℕ) (r : Tree)
      → depth (fork l a r) ≤ fuel
      → Place rank at bound s xs n c (fork l a r)
      → Returns (IsRightmost c) (rightmost fuel s (ref_of c))
  unfolding rightmost
  rightmost-IsRightmost zero c l a r enough here = absurd (omega arith)
  rightmost-IsRightmost (suc fuel) c l a leaf enough here =
      let o = open_fork rank at bound here.focus in
      let null : ((s.nodes (read s (ref_of c))).right == 0) ≡ true =
        rw o.placed (ground (arith, o.right_held)) in
      rw null (
        returns (record {
          around_it = c;
          node = a;
          left = l;
          place = here;
          same_behind = refl;
          ref_is = refl;
        }))
  rightmost-IsRightmost (suc fuel) c l a (fork m b r) enough here =
      let o = open_fork rank at bound here.focus in
      let more : ((s.nodes (read s (ref_of c))).right == 0) ≡ false =
        rw o.placed (ground (arith, o.right_held.0, o.right_held.2.0)) in
      rw (more, o.placed)
        (Returns-mono
          (rightmost-IsRightmost fuel (in_right l a c) m b r (omega arith)
            (Place-right rank at bound s xs n c l a (fork m b r) here))
          (λ ref found. record {
            around_it = found.around_it;
            node = found.node;
            left = found.left;
            place = found.place;
            same_behind = found.same_behind;
            ref_is = found.ref_is;
          }))
