-- ===== src/Avltree/Place.antt =====
-- src/lib/container/avltree.c: the way from the root to a key, or to the place that it would have.
use libvci.Base.{
  ℕ, zero, suc, ◌+◌, ◌*◌, ◌≤◌, ◌<◌, ◌≡◌, ◌⊎◌, inl, inr, sym, refl, ◌∙◌, true, false, ◌==◌, Ordering,
  compare, Ranks, List, ok, Returns, returns, arith,
}
use libvci.Avltree.{Avltree, Ref, at_left, at_right, read, descend}
use libvci.Avltree.Shape.{
  Tree, leaf, fork, Context, top, in_left, in_right, depth, in_order, around, parent_of, ref_of,
  lower, upper, Balanced, BalancedAround,
}
use libvci.Avltree.Focus.{Focus}
use libvci.Avltree.Round.{open_fork, into_left, into_right}
use libvci.Avltree.Rounds.{IsTree, rounds, lt-cases}

-- One round of the way down.
module _ (fuel : ℕ) (s : Avltree) (key parent : ℕ) (ref : Ref)
    (live : (read s ref == 0) ≡ false) where
  descend-lt :
      s.key_compare key (s.nodes (read s ref)).key ≡ Ordering.lt
      → descend (suc fuel) s key parent ref ≡ descend fuel s key (read s ref) (at_left (read s ref))
  unfolding descend
  descend-lt less = rw (live, less)

  descend-gt :
      s.key_compare key (s.nodes (read s ref)).key ≡ Ordering.gt
      → descend (suc fuel) s key parent ref
        ≡ descend fuel s key (read s ref) (at_right (read s ref))
  unfolding descend
  descend-gt more = rw (live, more)

  descend-eq :
      s.key_compare key (s.nodes (read s ref)).key ≡ Ordering.eq
      → descend (suc fuel) s key parent ref ≡ ok (read s ref, ref)
  unfolding descend
  descend-eq same = rw (live, same)

pub compare-cases :
    (m n : ℕ)
    → ((m < n) × (compare m n ≡ Ordering.lt))
      ⊎ (((m ≡ n) × (compare m n ≡ Ordering.eq)) ⊎ ((n < m) × (compare m n ≡ Ordering.gt)))
compare-cases m n = elim (lt-cases m n) [
  | inl less ↦ inl (less, ground arith)
  | inr more ↦ elim (lt-cases n m) [
    | inl gt ↦ inr (inr (gt, ground arith))
    | inr same ↦ inr (inl (omega arith, ground arith))
  ]
]

-- The part `t` of the tree of the nodes `xs`, of which twice the depth is `n` at most.
pub record Place (rank at : ℕ → ℕ) (bound : ℕ) (s : Avltree) (xs : List ℕ) (n : ℕ) (c : Context)
    (t : Tree) : Type 0 where
  pub focus : Focus rank at bound s c t
  pub balanced : Balanced t
  pub balanced_around : BalancedAround c (depth t)
  pub ordered : around c (in_order t) ≡ xs
  pub near : rounds c + 2 * depth t ≤ n

module _ (rank at : ℕ → ℕ) (bound : ℕ) (s : Avltree) (xs : List ℕ) where
  pub Place-root :
      (tree : IsTree rank at bound s xs)
      → Place rank at bound s xs (2 * depth tree.shape) top tree.shape
  Place-root tree = record {
    focus = tree.focus;
    balanced = tree.balanced;
    balanced_around = tt;
    ordered = tree.ordered;
    near = omega arith;
  }

  module _ (n : ℕ) (c : Context) (l : Tree) (a : ℕ) (r : Tree)
      (here : Place rank at bound s xs n c (fork l a r)) where
    pub Place-left : Place rank at bound s xs n (in_left c a r) l
    Place-left =
        let b = here.balanced in
        record {
          focus = into_left rank at bound s c l a r (open_fork rank at bound here.focus);
          balanced = b.0;
          balanced_around = (b.1, b.2, b.3, here.balanced_around);
          ordered = here.ordered;
          near = omega (arith, here.near);
        }

    pub Place-right : Place rank at bound s xs n (in_right l a c) r
    Place-right =
        let b = here.balanced in
        record {
          focus = into_right rank at bound s c l a r (open_fork rank at bound here.focus);
          balanced = b.1;
          balanced_around = (b.0, b.3, b.2, here.balanced_around);
          ordered = here.ordered;
          near = omega (arith, here.near);
        }

  -- The key is not in the tree, and would stand at this empty place.
  pub record Missing (n key : ℕ) (out : ℕ × Ref) : Type 0 where
    pub around_it : Context
    pub place : Place rank at bound s xs n around_it leaf
    pub above : lower at around_it ≤ rank key
    pub below : rank key < upper at bound around_it
    pub parent_is : out.0 ≡ parent_of around_it
    pub ref_is : out.1 ≡ ref_of around_it

  -- The key is that of a node of the tree.
  pub record Found (n key : ℕ) (out : ℕ × Ref) : Type 0 where
    pub around_it : Context
    pub left : Tree
    pub node : ℕ
    pub right : Tree
    pub place : Place rank at bound s xs n around_it (fork left node right)
    pub same_rank : at node ≡ rank key
    pub ref_is : out.1 ≡ ref_of around_it

  module _ (n key : ℕ) (ranks : Ranks rank s.key_compare) where
    pub descend-Place :
        (c : Context) (t : Tree) (fuel : ℕ)
        → depth t < fuel
        → Place rank at bound s xs n c t
        → lower at c ≤ rank key
        → rank key < upper at bound c
        → Returns
            (λ out. Missing n key out ⊎ Found n key out)
            (descend fuel s key (parent_of c) (ref_of c))
    unfolding descend
    descend-Place c t zero enough here low high = absurd (omega arith)
    descend-Place c leaf (suc fuel) enough here low high =
        let null : (read s (ref_of c) == 0) ≡ true = ground (arith, here.focus.held) in
        rw null (
          returns (
            inl (record {
              around_it = c;
              place = here;
              above = low;
              below = high;
              parent_is = refl;
              ref_is = refl;
            })))
    descend-Place c (fork l a r) (suc fuel) enough here low high =
        let o = open_fork rank at bound here.focus in
        let ref = ref_of c in
        let live : (read s ref == 0) ≡ false = ground (arith, o.node.0, o.placed) in
        let order : s.key_compare key (s.nodes (read s ref)).key ≡ compare (rank key) (at a) =
          rw (o.placed, ranks key (s.nodes a).key, o.node.2) in
        elim (compare-cases (rank key) (at a)) [
          | inl (less, found) ↦
              rw (descend-lt fuel s key (parent_of c) ref live (order ∙ found), o.placed)
                (descend-Place (in_left c a r) l fuel (omega arith) (Place-left n c l a r here) low
                  less)
          | inr (inl (same, found)) ↦
              rw (descend-eq fuel s key (parent_of c) ref live (order ∙ found)) (
                returns (
                  inr (record {
                    around_it = c;
                    left = l;
                    node = a;
                    right = r;
                    place = here;
                    same_rank = sym same;
                    ref_is = refl;
                  })))
          | inr (inr (more, found)) ↦
              rw (descend-gt fuel s key (parent_of c) ref live (order ∙ found), o.placed)
                (descend-Place (in_right l a c) r fuel (omega arith) (Place-right n c l a r here)
                  (omega arith) high)
        ]
