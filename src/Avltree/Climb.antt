-- ===== src/Avltree/Climb.antt =====
-- src/lib/container/avltree.c: the loop of _avltree_rebalance_nodes, from a changed part to the root.
use libvci.Base.{
  ℕ, zero, suc, ◌≤◌, ◌<◌, ◌≡◌, inl, inr, ap, sym, ◌∙◌, max, List, ◌∷◌, ◌++◌, returns, arith,
}
use mathlib.Core.List.{append_assoc}
use libvci.Avltree.{Avltree, avltree_rebalance_nodes}
use libvci.Avltree.Shape.{
  Tree, leaf, fork, Context, top, in_left, in_right, depth, in_order, Balanced, BalancedAround,
}
use libvci.Avltree.Focus.{Opened}
use libvci.Avltree.Round.{open_fork, open_left, open_right}
use libvci.Avltree.Balance.{
  rebalance_node-left, rebalance_node-right, rebalance_node-left_right, rebalance_node-right_left,
}
use libvci.Avltree.Rounds.{
  rounds, lt-cases, depth-cases, Climbs, Rebuilds, level_round, turned_round,
}

module _ (rank at : ℕ → ℕ) (bound : ℕ) (c : Context) where
  module _ (fuel : ℕ) (xs : List ℕ) (d : ℕ) (climb : Climbs rank at bound c fuel xs d) where
    -- The left side is too deep by its right side.
    left_right_round :
        (s : Avltree) (l : Tree) (x : ℕ) (m : Tree) (y : ℕ) (r : Tree)
        → Opened rank at bound s c (fork l x m) y r
        → depth (fork l x m) ≡ suc (suc (depth r))
        → depth l < depth m
        → Balanced (fork l x m)
        → Balanced r
        → in_order (fork (fork l x m) y r) ≡ xs
        → depth (fork l x m) ≤ d
        → d ≤ suc (depth (fork l x m))
        → Rebuilds rank at bound c xs (avltree_rebalance_nodes (suc (suc fuel)) s y)
    left_right_round s l x leaf y r o high inner bl br order low near = absurd (omega arith)
    left_right_round s l x (fork m z n) y r o high inner bl br order low near =
        let f = rebalance_node-left_right rank at bound s c l x m z n y r o high inner in
        let u = open_fork rank at bound f in
        let same : in_order (fork (fork l x m) z (fork n y r))
            ≡ in_order (fork (fork l x (fork m z n)) y r) =
          simp append_assoc in
        turned_round rank at bound c fuel xs d climb s y (fork l x m) z (fork n y r) o.node.0 f
          u.right_held.2.1
          (
            (bl.0, bl.1.0, omega (arith, bl), omega (arith, bl)),
            (bl.1.1, br, omega (arith, bl), omega (arith, bl)),
            omega (arith, bl),
            omega (arith, bl),
          )
          (same ∙ order) (omega (arith, bl)) (omega (arith, bl))

    left_round :
        (s : Avltree) (l : Tree) (y : ℕ) (r : Tree)
        → Opened rank at bound s c l y r
        → depth l ≡ suc (suc (depth r))
        → Balanced l
        → Balanced r
        → in_order (fork l y r) ≡ xs
        → depth l ≤ d
        → d ≤ suc (depth l)
        → Rebuilds rank at bound c xs (avltree_rebalance_nodes (suc (suc fuel)) s y)
    left_round s leaf y r o high bl br order low near = absurd (omega arith)
    left_round s (fork l x m) y r o high bl br order low near =
        elim (lt-cases (depth l) (depth m)) [
          | inl inner ↦ left_right_round s l x m y r o high inner bl br order low near
          | inr outer ↦
              let f = rebalance_node-right rank at bound s c l x m y r o high outer in
              let u = open_fork rank at bound f in
              turned_round rank at bound c fuel xs d climb s y l x (fork m y r) o.node.0 f
                u.right_held.2.1
                (
                  bl.0,
                  (bl.1, br, omega (arith, bl), omega (arith, bl)),
                  omega (arith, bl),
                  omega (arith, bl),
                )
                (sym (append_assoc (in_order l) (x ∷ in_order m) (y ∷ in_order r)) ∙ order)
                (omega (arith, bl)) (omega (arith, bl))
        ]

    -- The right side is too deep by its left side.
    right_left_round :
        (s : Avltree) (l : Tree) (x : ℕ) (m : Tree) (y : ℕ) (r : Tree)
        → Opened rank at bound s c l x (fork m y r)
        → depth (fork m y r) ≡ suc (suc (depth l))
        → depth r < depth m
        → Balanced l
        → Balanced (fork m y r)
        → in_order (fork l x (fork m y r)) ≡ xs
        → depth (fork m y r) ≤ d
        → d ≤ suc (depth (fork m y r))
        → Rebuilds rank at bound c xs (avltree_rebalance_nodes (suc (suc fuel)) s x)
    right_left_round s l x leaf y r o high inner bl br order low near = absurd (omega arith)
    right_left_round s l x (fork m z n) y r o high inner bl br order low near =
        let f = rebalance_node-right_left rank at bound s c l x m z n y r o high inner in
        let u = open_fork rank at bound f in
        let same : in_order (fork (fork l x m) z (fork n y r))
            ≡ in_order (fork l x (fork (fork m z n) y r)) =
          simp append_assoc in
        turned_round rank at bound c fuel xs d climb s x (fork l x m) z (fork n y r) o.node.0 f
          u.left_held.2.1
          (
            (bl, br.0.0, omega (arith, br), omega (arith, br)),
            (br.0.1, br.1, omega (arith, br), omega (arith, br)),
            omega (arith, br),
            omega (arith, br),
          )
          (same ∙ order) (omega (arith, br)) (omega (arith, br))

    right_round :
        (s : Avltree) (l : Tree) (y : ℕ) (r : Tree)
        → Opened rank at bound s c l y r
        → depth r ≡ suc (suc (depth l))
        → Balanced l
        → Balanced r
        → in_order (fork l y r) ≡ xs
        → depth r ≤ d
        → d ≤ suc (depth r)
        → Rebuilds rank at bound c xs (avltree_rebalance_nodes (suc (suc fuel)) s y)
    right_round s l y leaf o high bl br order low near = absurd (omega arith)
    right_round s l y (fork m x r) o high bl br order low near =
        elim (lt-cases (depth r) (depth m)) [
          | inl inner ↦ right_left_round s l y m x r o high inner bl br order low near
          | inr outer ↦
              let f = rebalance_node-left rank at bound s c l x m y r o high outer in
              let u = open_fork rank at bound f in
              turned_round rank at bound c fuel xs d climb s y (fork l y m) x r o.node.0 f
                u.left_held.2.1
                (
                  (bl, br.0, omega (arith, br), omega (arith, br)),
                  br.1,
                  omega (arith, br),
                  omega (arith, br),
                )
                (append_assoc (in_order l) (y ∷ in_order m) (x ∷ in_order r) ∙ order)
                (omega (arith, br)) (omega (arith, br))
        ]

  -- The rounds at a node, one or two, whatever its sides need.
  node_rounds :
      (fuel : ℕ) (xs : List ℕ) (d : ℕ) (s : Avltree) (l : Tree) (a : ℕ) (r : Tree)
      → Climbs rank at bound c fuel xs d
      → Climbs rank at bound c (suc fuel) xs d
      → Opened rank at bound s c l a r
      → Balanced l
      → Balanced r
      → in_order (fork l a r) ≡ xs
      → depth l ≤ suc (suc (depth r))
      → depth r ≤ suc (suc (depth l))
      → max (depth l) (depth r) ≤ d
      → d ≤ suc (suc (max (depth l) (depth r)))
      → (depth l ≡ suc (suc (depth r)) → d ≤ suc (depth l))
      → (depth r ≡ suc (suc (depth l)) → d ≤ suc (depth r))
      → Rebuilds rank at bound c xs (avltree_rebalance_nodes (suc (suc fuel)) s a)
  node_rounds fuel xs d s l a r climb later o bl br order hl hr low high left right =
      elim (depth-cases (depth l) (depth r) hl hr) [
        | inl level ↦
            level_round rank at bound c (suc fuel) xs d later s l a r o (bl, br, level.0, level.1)
              order low high
        | inr (inl deep) ↦
            left_round fuel xs d climb s l a r o deep bl br order (omega arith) (left deep)
        | inr (inr deep) ↦
            right_round fuel xs d climb s l a r o deep bl br order (omega arith) (right deep)
      ]

module _ (rank at : ℕ → ℕ) (bound : ℕ) where
  -- From a balanced part whose depth is one off at most, the loop ends with a balanced tree.
  pub avltree_rebalance_nodes-IsTree :
      (c : Context) (fuel : ℕ) (xs : List ℕ) (d : ℕ)
      → rounds c ≤ fuel
      → BalancedAround c d
      → Climbs rank at bound c fuel xs d
  unfolding avltree_rebalance_nodes
  avltree_rebalance_nodes-IsTree top zero xs d enough b s t f bt order low high =
      returns (record { shape = t; focus = f; balanced = bt; ordered = order })
  avltree_rebalance_nodes-IsTree top (suc fuel) xs d enough b s t f bt order low high =
      returns (record { shape = t; focus = f; balanced = bt; ordered = order })
  avltree_rebalance_nodes-IsTree (in_left c a r) zero xs d enough b s t f bt order low high =
      absurd (omega arith)
  avltree_rebalance_nodes-IsTree (in_left c a r) (suc zero) xs d enough b s t f bt order low high =
      absurd (omega arith)
  avltree_rebalance_nodes-IsTree (in_left c a r) (suc (suc fuel)) xs d enough b s t f bt order low
        high =
      let d' : ℕ = suc (max d (depth r)) in
      let ys : List ℕ = xs ++ a ∷ in_order r in
      node_rounds rank at bound c fuel ys d' s t a r
        (avltree_rebalance_nodes-IsTree c fuel ys d' (omega arith) b.3)
        (avltree_rebalance_nodes-IsTree c (suc fuel) ys d' (omega arith) b.3)
        (open_left rank at bound f) bt b.0 (ap (λ (zs : List ℕ). zs ++ a ∷ in_order r) order)
        (omega (arith, b.1, b.2)) (omega (arith, b.1, b.2)) (omega (arith, b.1, b.2))
        (omega (arith, b.1, b.2)) (λ deep. omega (arith, b.1, b.2))
        (λ deep. omega (arith, b.1, b.2))
  avltree_rebalance_nodes-IsTree (in_right l a c) zero xs d enough b s t f bt order low high =
      absurd (omega arith)
  avltree_rebalance_nodes-IsTree (in_right l a c) (suc zero) xs d enough b s t f bt order low high =
      absurd (omega arith)
  avltree_rebalance_nodes-IsTree (in_right l a c) (suc (suc fuel)) xs d enough b s t f bt order low
        high =
      let d' : ℕ = suc (max (depth l) d) in
      let ys : List ℕ = in_order l ++ a ∷ xs in
      node_rounds rank at bound c fuel ys d' s l a t
        (avltree_rebalance_nodes-IsTree c fuel ys d' (omega arith) b.3)
        (avltree_rebalance_nodes-IsTree c (suc fuel) ys d' (omega arith) b.3)
        (open_right rank at bound f) b.0 bt (ap (λ (zs : List ℕ). in_order l ++ a ∷ zs) order)
        (omega (arith, b.1, b.2)) (omega (arith, b.1, b.2)) (omega (arith, b.1, b.2))
        (omega (arith, b.1, b.2)) (λ deep. omega (arith, b.1, b.2))
        (λ deep. omega (arith, b.1, b.2))
