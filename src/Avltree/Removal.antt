-- ===== src/Avltree/Removal.antt =====
-- src/lib/container/avltree.c: avltree_take_min, avltree_take_max and avltree_take of a node with one child at most.
use libvci.Base.{
  ℕ, suc, ◌+◌, ◌-◌, ◌%◌, ◌≤◌, ◌≡◌, inl, inr, ap, sym, refl, ◌∙◌, true, false, ◌==◌, List, [], ◌++◌,
  u32, ok, ◌>>=◌, Returns, returns, Returns-bind, arith,
}
use mathlib.Core.List.{append-nil}
use libvci.Avltree.{Avltree, read, avltree_rebalance_nodes}
use libvci.Avltree.Take.{replace_by, avltree_take_node, take_at}
use libvci.Avltree.Shape.{
  Tree, leaf, fork, Context, depth, in_order, around, parent_of, ref_of, Balanced, lower, upper,
}
use libvci.Avltree.Frame.{IsSorted-le}
use libvci.Avltree.Focus.{Focus}
use libvci.Avltree.Round.{open_fork}
use libvci.Avltree.Rounds.{IsTree}
use libvci.Avltree.Climb.{avltree_rebalance_nodes-IsTree}
use libvci.Avltree.Keeps.{Keeps-avltree_rebalance_nodes}
use libvci.Avltree.Place.{Place}
use libvci.Avltree.Unlink.{Focus-sized, replaced-Focus, replaced_parent, Keeps-replace_by}

-- What leaves behind the tree without a node: the rest in the same order, one less in number.
pub record Rest (rank at : ℕ → ℕ) (bound : ℕ) (s : Avltree) (xs : List ℕ) (t : Avltree)
    : Type 0 where
  pub tree : IsTree rank at bound t xs
  pub same_compare : t.key_compare ≡ s.key_compare
  pub same_delete : t.data_delete ≡ s.data_delete
  pub one_less : t.size ≡ (s.size + u32 - 1) % u32

-- One side of the node is empty.
abbrev pub OneSide : Tree → Tree → Type 0
OneSide leaf r = Unit
OneSide (fork l b m) leaf = Unit
OneSide (fork l b m) (fork k d r) = ⊥

-- The node `a` and the tree without it.
abbrev pub Takes : (ℕ → ℕ) → (ℕ → ℕ) → ℕ → Avltree → ℕ → List ℕ → ℕ × Avltree → Type 0
Takes rank at bound s a rest out = (out.0 ≡ a) × Rest rank at bound s rest out.1

module _ (rank at : ℕ → ℕ) (bound : ℕ) (s : Avltree) (xs : List ℕ) (n fuel : ℕ)
    (enough : n ≤ fuel) where
  module _ (c : Context) (l : Tree) (a : ℕ) (r : Tree)
      (here : Place rank at bound s xs n c (fork l a r)) where
    child-Takes :
        (p : ℕ) (t : Tree)
        → Focus rank at bound (replace_by s (ref_of c) p) c t
        → ((replace_by s (ref_of c) p).nodes a).parent ≡ parent_of c
        → Balanced t
        → depth (fork l a r) ≡ suc (depth t)
        → in_order t ≡ in_order l ++ in_order r
        → Returns (Takes rank at bound s a (around c (in_order l ++ in_order r))) (
            let u = replace_by s (ref_of c) p in
            let v : Avltree = record u { size = (u.size + u32 - 1) % u32 } in
            avltree_rebalance_nodes fuel v (u.nodes a).parent >>= (λ w. ok (a, w)))
    child-Takes p t f up b less order =
        let u = replace_by s (ref_of c) p in
        let size : ℕ = (u.size + u32 - 1) % u32 in
        let v : Avltree = record u { size = size } in
        let kept = Keeps-replace_by s (ref_of c) p in
        let all =
          avltree_rebalance_nodes-IsTree rank at bound c fuel (in_order l ++ in_order r)
            (depth (fork l a r)) (omega (arith, here.near)) here.balanced_around v t
            (Focus-sized rank at bound u c t size f) b order (omega arith) (omega arith) in
        rw up (
          Returns-bind (Keeps-avltree_rebalance_nodes fuel v (parent_of c) all) (λ w good. returns (
            refl,
            record {
              tree = good.1;
              same_compare = good.0.same_compare ∙ kept.same_compare;
              same_delete = good.0.same_delete ∙ kept.same_delete;
              one_less = good.0.same_size ∙ ap (λ (k : ℕ). (k + u32 - 1) % u32) kept.same_size;
            },
          )))

  no_left :
      (c : Context) (a : ℕ) (r : Tree) (here : Place rank at bound s xs n c (fork leaf a r))
      → Returns (Takes rank at bound s a (around c (in_order r))) (take_at fuel s (ref_of c))
  unfolding take_at avltree_take_node
  no_left c a r here =
      let o = open_fork rank at bound here.focus in
      let p = (s.nodes a).right in
      let far = IsSorted-le at (suc (at a)) r (upper at bound c) o.right_sorted in
      let f =
        replaced-Focus rank at bound s c leaf a r o r p (suc (at a)) (upper at bound c)
          (omega (arith, o.left_sorted)) (omega arith) (inl (omega arith)) o.right_sorted
          o.right_held in
      let up =
        replaced_parent rank at bound s c leaf a r o r p (suc (at a)) (upper at bound c)
          (omega (arith, o.left_sorted)) (omega arith) (inl (omega arith)) o.right_sorted
          o.right_held in
      let none : ((s.nodes (read s (ref_of c))).left == 0) ≡ true =
        rw o.placed (ground (arith, o.left_held)) in
      rw (none, o.placed) (child-Takes c leaf a r here p r f up here.balanced.1 (omega arith) refl)

  no_right :
      (c : Context) (l : Tree) (b : ℕ) (m : Tree) (a : ℕ)
      (here : Place rank at bound s xs n c (fork (fork l b m) a leaf))
      → Returns
          (Takes rank at bound s a (around c (in_order (fork l b m) ++ [])))
          (take_at fuel s (ref_of c))
  unfolding take_at avltree_take_node
  no_right c l b m a here =
      let t = fork l b m in
      let o = open_fork rank at bound here.focus in
      let p = (s.nodes a).left in
      let near = IsSorted-le at (lower at c) t (at a) o.left_sorted in
      let f =
        replaced-Focus rank at bound s c t a leaf o t p (lower at c) (at a) (omega arith)
          (omega (arith, o.right_sorted)) (inr (omega arith)) o.left_sorted o.left_held in
      let up =
        replaced_parent rank at bound s c t a leaf o t p (lower at c) (at a) (omega arith)
          (omega (arith, o.right_sorted)) (inr (omega arith)) o.left_sorted o.left_held in
      let some_left : ((s.nodes (read s (ref_of c))).left == 0) ≡ false =
        rw o.placed (ground (arith, o.left_held.0, o.left_held.2.0)) in
      let none : ((s.nodes (read s (ref_of c))).right == 0) ≡ true =
        rw o.placed (ground (arith, o.right_held)) in
      rw (some_left, none, o.placed)
        (child-Takes c t a leaf here p t f up here.balanced.0 (omega arith)
          (sym (append-nil (in_order t))))

  pub take_at-Rest :
      (c : Context) (l : Tree) (a : ℕ) (r : Tree) (here : Place rank at bound s xs n c (fork l a r))
      → OneSide l r
      → Returns
          (Takes rank at bound s a (around c (in_order l ++ in_order r)))
          (take_at fuel s (ref_of c))
  take_at-Rest c leaf a r here one = no_left c a r here
  take_at-Rest c (fork l b m) a leaf here one = no_right c l b m a here
  take_at-Rest c (fork l b m) a (fork k d r) here one = absurd one
