-- ===== src/Avltree/Balance.antt =====
-- src/lib/container/avltree.c: the five outcomes of a round of _avltree_rebalance_nodes.
use libvci.Base.{ℕ, suc, ◌≤◌, ◌<◌, ◌≡◌, ◌∙◌, max, true, false, leb, arith}
use libvci.Avltree.{
  Avltree, at_left, at_right, update_height, avlnode_rotate_left, avlnode_rotate_right,
  rebalance_node,
}
use libvci.Avltree.Shape.{Tree, fork, Context, in_left, in_right, depth}
use libvci.Avltree.Focus.{Focus, Opened}
use libvci.Avltree.RotateLeft.{avlnode_rotate_left-Focus}
use libvci.Avltree.RotateRight.{avlnode_rotate_right-Focus}
use libvci.Avltree.Round.{
  open_fork, open_left, open_right, into_left, into_right, update_height-Focus, left_heavy-depth,
  right_heavy-depth, reference-ref_of,
}

leb-true : (m n : ℕ) → m ≤ n → leb m n ≡ true
leb-true m n h = ground arith

leb-false : (m n : ℕ) → n < m → leb m n ≡ false
leb-false m n h = ground arith

module _ (rank at : ℕ → ℕ) (bound : ℕ) (s : Avltree) (c : Context) where
  module _ (l : Tree) (a : ℕ) (r : Tree) (o : Opened rank at bound s c l a r) where
    -- Both sides of almost the same depth: only the height is written.
    pub rebalance_node-level :
        depth l ≤ suc (depth r)
        → depth r ≤ suc (depth l)
        → Focus rank at bound (rebalance_node s a) c (fork l a r)
    unfolding rebalance_node
    rebalance_node-level hl hr =
        let updated = update_height-Focus rank at bound s c l a r o in
        let u = open_fork rank at bound updated in
        rw
          (
            left_heavy-depth rank at bound (update_height s a) c l a r u 2
                ∙ leb-false _ _ (omega arith),
            right_heavy-depth rank at bound (update_height s a) c l a r u 2
                ∙ leb-false _ _ (omega arith),
          )
          updated

  module _ (l : Tree) (x : ℕ) (m : Tree) (y : ℕ) (r : Tree) where
    module _ (o : Opened rank at bound s c (fork l x m) y r) where
      -- The left side is too deep, by its own left side.
      pub rebalance_node-right :
          suc (max (depth l) (depth m)) ≡ suc (suc (depth r))
          → depth m ≤ depth l
          → Focus rank at bound (rebalance_node s y) c (fork l x (fork m y r))
      unfolding rebalance_node
      rebalance_node-right high outer =
          let updated = update_height-Focus rank at bound s c (fork l x m) y r o in
          let u = open_fork rank at bound updated in
          let inner =
            open_fork rank at bound
              (into_left rank at bound (update_height s y) c (fork l x m) y r u) in
          rw
            (
              left_heavy-depth rank at bound (update_height s y) c (fork l x m) y r u 2
                  ∙ leb-true _ _ (omega arith),
              left_heavy-depth rank at bound (update_height s y) c (fork l x m) y r u 3
                  ∙ leb-false _ _ (omega arith),
              u.left_held.0,
              right_heavy-depth rank at bound (update_height s y) (in_left c y r) l x m inner 1
                  ∙ leb-false _ _ (omega arith),
              reference-ref_of rank at bound (update_height s y) c (fork l x m) y r u,
            )
            (avlnode_rotate_right-Focus rank at bound (update_height s y) c l x m y r u)

    module _ (o : Opened rank at bound s c l y (fork m x r)) where
      -- The right side is too deep, by its own right side.
      pub rebalance_node-left :
          suc (max (depth m) (depth r)) ≡ suc (suc (depth l))
          → depth m ≤ depth r
          → Focus rank at bound (rebalance_node s y) c (fork (fork l y m) x r)
      unfolding rebalance_node
      rebalance_node-left high outer =
          let updated = update_height-Focus rank at bound s c l y (fork m x r) o in
          let u = open_fork rank at bound updated in
          let inner =
            open_fork rank at bound
              (into_right rank at bound (update_height s y) c l y (fork m x r) u) in
          rw
            (
              left_heavy-depth rank at bound (update_height s y) c l y (fork m x r) u 2
                  ∙ leb-false _ _ (omega arith),
              right_heavy-depth rank at bound (update_height s y) c l y (fork m x r) u 2
                  ∙ leb-true _ _ (omega arith),
              right_heavy-depth rank at bound (update_height s y) c l y (fork m x r) u 3
                  ∙ leb-false _ _ (omega arith),
              u.right_held.0,
              left_heavy-depth rank at bound (update_height s y) (in_right l y c) m x r inner 1
                  ∙ leb-false _ _ (omega arith),
              reference-ref_of rank at bound (update_height s y) c l y (fork m x r) u,
            )
            (avlnode_rotate_left-Focus rank at bound (update_height s y) c l y m x r u)

  module _ (l : Tree) (x : ℕ) (m : Tree) (z : ℕ) (n : Tree) (y : ℕ) (r : Tree) where
    -- The left side is too deep, by its own right side.
    pub rebalance_node-left_right :
        Opened rank at bound s c (fork l x (fork m z n)) y r
        → suc (max (depth l) (suc (max (depth m) (depth n)))) ≡ suc (suc (depth r))
        → depth l < suc (max (depth m) (depth n))
        → Focus rank at bound (rebalance_node s y) c (fork (fork l x m) z (fork n y r))
    unfolding rebalance_node
    rebalance_node-left_right o high within_it =
        let t = fork l x (fork m z n) in
        let updated = update_height-Focus rank at bound s c t y r o in
        let u = open_fork rank at bound updated in
        let inner =
          open_fork rank at bound (into_left rank at bound (update_height s y) c t y r u) in
        let first =
          avlnode_rotate_left-Focus rank at bound (update_height s y) (in_left c y r) l x m z n
            inner in
        rw
          (
            left_heavy-depth rank at bound (update_height s y) c t y r u 2
                ∙ leb-true _ _ (omega arith),
            left_heavy-depth rank at bound (update_height s y) c t y r u 3
                ∙ leb-false _ _ (omega arith),
            u.left_held.0,
            right_heavy-depth rank at bound (update_height s y) (in_left c y r) l x (fork m z n)
                  inner 1
                ∙ leb-true _ _ (omega arith),
            reference-ref_of rank at bound (update_height s y) c t y r u,
          )
          (avlnode_rotate_right-Focus rank at bound
            (avlnode_rotate_left (update_height s y) (at_left y)) c (fork l x m) z n y r
            (open_left rank at bound first))

    -- The right side is too deep, by its own left side.
    pub rebalance_node-right_left :
        Opened rank at bound s c l x (fork (fork m z n) y r)
        → suc (max (suc (max (depth m) (depth n))) (depth r)) ≡ suc (suc (depth l))
        → depth r < suc (max (depth m) (depth n))
        → Focus rank at bound (rebalance_node s x) c (fork (fork l x m) z (fork n y r))
    unfolding rebalance_node
    rebalance_node-right_left o high within_it =
        let t = fork (fork m z n) y r in
        let updated = update_height-Focus rank at bound s c l x t o in
        let u = open_fork rank at bound updated in
        let inner =
          open_fork rank at bound (into_right rank at bound (update_height s x) c l x t u) in
        let first =
          avlnode_rotate_right-Focus rank at bound (update_height s x) (in_right l x c) m z n y r
            inner in
        rw
          (
            left_heavy-depth rank at bound (update_height s x) c l x t u 2
                ∙ leb-false _ _ (omega arith),
            right_heavy-depth rank at bound (update_height s x) c l x t u 2
                ∙ leb-true _ _ (omega arith),
            right_heavy-depth rank at bound (update_height s x) c l x t u 3
                ∙ leb-false _ _ (omega arith),
            u.right_held.0,
            left_heavy-depth rank at bound (update_height s x) (in_right l x c) (fork m z n) y r
                  inner 1
                ∙ leb-true _ _ (omega arith),
            reference-ref_of rank at bound (update_height s x) c l x t u,
          )
          (avlnode_rotate_left-Focus rank at bound
            (avlnode_rotate_right (update_height s x) (at_right x)) c l x m z (fork n y r)
            (open_right rank at bound first))
