-- ===== src/Avltree/Rounds.antt =====
-- src/lib/container/avltree.c: one or two rounds of _avltree_rebalance_nodes below the rest of the loop.
use libvci.Base.{
  ℕ, suc, ◌≤◌, ◌<◌, ◌≡◌, ◌⊎◌, inl, inr, max, false, Bool-cases, ltb, ◌==◌, List, Run, Returns,
  arith,
}
use libvci.Avltree.{Avltree, rebalance_node, avltree_rebalance_nodes}
use libvci.Avltree.Shape.{
  Tree, fork, Context, top, in_left, in_right, depth, in_order, around, parent_of, Balanced,
}
use libvci.Avltree.Focus.{Focus, Opened}
use libvci.Avltree.Round.{open_fork}
use libvci.Avltree.Balance.{rebalance_node-level}

-- The store has a balanced search tree of the nodes `xs`, from the least key to the greatest.
pub record IsTree (rank at : ℕ → ℕ) (bound : ℕ) (s : Avltree) (xs : List ℕ) : Type 0 where
  pub shape : Tree
  pub focus : Focus rank at bound s top shape
  pub balanced : Balanced shape
  pub ordered : in_order shape ≡ xs

-- Two rounds for each node above the part.
abbrev pub rounds : Context → ℕ
rounds top = 0
rounds (in_left c a r) = suc (suc (rounds c))
rounds (in_right l a c) = suc (suc (rounds c))

pub lt-cases : (m n : ℕ) → (m < n) ⊎ (n ≤ m)
lt-cases m n = elim (Bool-cases (ltb m n)) [
  | inl less ↦ inl (ground arith)
  | inr more ↦ inr (ground arith)
]

pub depth-cases :
    (m n : ℕ)
    → m ≤ suc (suc n)
    → n ≤ suc (suc m)
    → ((m ≤ suc n) × (n ≤ suc m)) ⊎ ((m ≡ suc (suc n)) ⊎ (n ≡ suc (suc m)))
depth-cases m n h k = elim (Bool-cases (ltb (suc n) m)) [
  | inl left ↦ inr (inl (ground arith))
  | inr flat ↦ elim (Bool-cases (ltb (suc m) n)) [
    | inl right ↦ inr (inr (ground arith))
    | inr even ↦ inl (ground arith)
  ]
]

module _ (rank at : ℕ → ℕ) (bound : ℕ) (c : Context) where
  -- The loop from the parent of a part with the nodes `xs` and a depth near `d` rebuilds the tree.
  abbrev pub Climbs : ℕ → List ℕ → ℕ → Type 0
  Climbs fuel xs d =
      (s : Avltree) (t : Tree)
      → Focus rank at bound s c t
      → Balanced t
      → in_order t ≡ xs
      → depth t ≤ suc d
      → d ≤ suc (depth t)
      → Returns (λ t. IsTree rank at bound t (around c xs))
          (avltree_rebalance_nodes fuel s (parent_of c))

  abbrev pub Rebuilds : List ℕ → Run Avltree → Type 0
  Rebuilds xs = Returns (λ t. IsTree rank at bound t (around c xs))

  one_round :
      (fuel : ℕ) (s : Avltree) (a : ℕ)
      → 0 < a
      → avltree_rebalance_nodes (suc fuel) s a
        ≡ avltree_rebalance_nodes fuel (rebalance_node s a) ((rebalance_node s a).nodes a).parent
  unfolding avltree_rebalance_nodes
  one_round fuel s a pos = let live : (a == 0) ≡ false = ground arith in rw live

  module _ (fuel : ℕ) (xs : List ℕ) (d : ℕ) (climb : Climbs fuel xs d) where
    pub level_round :
        (s : Avltree) (l : Tree) (a : ℕ) (r : Tree)
        → Opened rank at bound s c l a r
        → Balanced (fork l a r)
        → in_order (fork l a r) ≡ xs
        → max (depth l) (depth r) ≤ d
        → d ≤ suc (suc (max (depth l) (depth r)))
        → Rebuilds xs (avltree_rebalance_nodes (suc fuel) s a)
    level_round s l a r o b order low high =
        let f = rebalance_node-level rank at bound s c l a r o b.2 b.3 in
        rw (one_round fuel s a o.node.0, (open_fork rank at bound f).node.1)
          (climb (rebalance_node s a) (fork l a r) f b order (omega arith) (omega arith))

    -- After a rotation the next round is at the top of the new part.
    pub turned_round :
        (s : Avltree) (y : ℕ) (l : Tree) (a : ℕ) (r : Tree)
        → 0 < y
        → Focus rank at bound (rebalance_node s y) c (fork l a r)
        → ((rebalance_node s y).nodes y).parent ≡ a
        → Balanced (fork l a r)
        → in_order (fork l a r) ≡ xs
        → max (depth l) (depth r) ≤ d
        → d ≤ suc (suc (max (depth l) (depth r)))
        → Rebuilds xs (avltree_rebalance_nodes (suc (suc fuel)) s y)
    turned_round s y l a r pos f up b order low high =
        rw (one_round (suc fuel) s y pos, up)
          (level_round (rebalance_node s y) l a r (open_fork rank at bound f) b order low high)
