-- ===== src/Avltree/Depth.antt =====
-- src/lib/container/avltree.c: a balanced tree is shallow, so that few rounds are enough.
use libvci.Base.{
  ℕ, zero, suc, ◌+◌, ◌*◌, ◌/◌, ◌^◌, ◌≤◌, ◌<◌, ◌≡◌, ◌∙◌, inl, inr, Ranks, Returns, ap, subst, refl,
  ◌-◌, length, length-append, max, List, ◌∷◌, arith,
}
use libvci.Avltree.{Avltree}
use libvci.Avltree.Look.{avltree_retrieve}
use libvci.Avltree.Lookup.{Finds, avltree_retrieve-Finds}
use libvci.Avltree.Shape.{Tree, leaf, fork, depth, in_order, Balanced}
use libvci.Avltree.Rounds.{IsTree, lt-cases}

-- A tree of depth `k` has `fewest k` nodes or more, less one.
fewest : ℕ → ℕ
fewest zero = 1
fewest (suc zero) = 1
fewest (suc (suc k)) = 2 * fewest k

fewest-power : (k : ℕ) → fewest k ≡ 2 ^ (k / 2)
unfolding fewest
fewest-power zero = refl
fewest-power (suc zero) = refl
fewest-power (suc (suc k)) =
    let half : suc (suc k) / 2 ≡ suc (k / 2) = omega arith in
    rw half (omega (arith, fewest-power k))

fewest-suc : (k : ℕ) → fewest k ≤ fewest (suc k)
unfolding fewest
fewest-suc zero = omega arith
fewest-suc (suc zero) = omega arith
fewest-suc (suc (suc k)) = omega (arith, fewest-suc k)

fewest_pos : (k : ℕ) → 0 < fewest k
unfolding fewest
fewest_pos zero = omega arith
fewest_pos (suc zero) = omega arith
fewest_pos (suc (suc k)) = omega (arith, fewest_pos k)

-- `n` steps up from `j`.
fewest-add : (n j : ℕ) → fewest j ≤ fewest (n + j)
fewest-add zero j = let same : 0 + j ≡ j = omega arith in rw same (omega arith)
fewest-add (suc n) j =
    let above : fewest j ≤ fewest (n + suc j) = omega (arith, fewest-suc j, fewest-add n (suc j)) in
    let same : n + suc j ≡ suc n + j = omega arith in rw same at above

fewest-le : (j k : ℕ) → j ≤ k → fewest j ≤ fewest k
fewest-le j k h = let same : (k - j) + j ≡ k = omega arith in rw same at (fewest-add (k - j) j)

two_sides : (m j k : ℕ) → m ≡ max j k → j ≤ suc k → k ≤ suc j → fewest (suc m) ≤ fewest j + fewest k
unfolding fewest
two_sides zero j k e h i = omega (arith, fewest_pos j, fewest_pos k)
two_sides (suc m) j k e h i =
    omega (arith, fewest-le m j (omega arith), fewest-le m k (omega arith))

fewest-Balanced : (t : Tree) → Balanced t → fewest (depth t) ≤ suc (length (in_order t))
unfolding fewest
fewest-Balanced leaf b = omega arith
fewest-Balanced (fork l a r) b = omega (
  arith,
  two_sides (max (depth l) (depth r)) (depth l) (depth r) refl b.2 b.3,
  fewest-Balanced l b.0,
  fewest-Balanced r b.1,
  length-append {0} (in_order l) (a ∷ in_order r),
)

module _ (rank at : ℕ → ℕ) (bound : ℕ) (s : Avltree) (xs : List ℕ)
    (tree : IsTree rank at bound s xs) where
  fewest-IsTree : fewest (depth tree.shape) ≤ suc (length xs)
  fewest-IsTree =
      subst (λ (ys : List ℕ). fewest (depth tree.shape) ≤ suc (length ys)) tree.ordered
        (fewest-Balanced tree.shape tree.balanced)

  depth_bound : (k : ℕ) → suc (length xs) < 2 ^ k → depth tree.shape < 2 * k
  depth_bound k few = elim (lt-cases (depth tree.shape) (2 * k)) [
    | inl shallow ↦ shallow
    | inr deep ↦
        let half : 2 * k / 2 ≡ k = omega arith in
        let power : fewest (2 * k) ≡ 2 ^ k = fewest-power (2 * k) ∙ ap (λ (j : ℕ). 2 ^ j) half in
        absurd (omega (arith, fewest-le (2 * k) (depth tree.shape) deep, fewest-IsTree, power))
  ]

  -- For a comparison that ranks the keys, on a balanced search tree of fewer than 2^k - 1 nodes,
  -- avltree_retrieve needs at most 2 * k rounds, and gives the node of the key, or NULL where no
  -- node has it.
  pub avltree_retrieve_rounds :
      (key k : ℕ)
      → Ranks rank s.key_compare
      → suc (length xs) < 2 ^ k
      → Returns (Finds rank at s xs key) (avltree_retrieve (2 * k) s key)
  avltree_retrieve_rounds key k ranks few =
      avltree_retrieve-Finds rank at s key ranks bound xs (2 * k) tree (depth_bound k few)
