-- ===== src/Avltree/Lookup.antt =====
-- src/lib/container/avltree.c: what the operations that only read the tree return.
use libvci.Base.{
  ℕ, zero, suc, ◌≤◌, ◌<◌, ◌≡◌, ◌≢◌, ◌⊎◌, inl, inr, ap, subst, sym, refl, ◌∙◌, true, false, ◌==◌,
  compare, Ranks, List, [], ◌∷◌, ◌++◌, Returns, returns, Returns-mono, Returns-bind, arith,
}
use mathlib.Core.List.{append_assoc}
use libvci.Avltree.{Avltree}
use libvci.Avltree.Look.{
  retrieve_from, avltree_retrieve, avltree_contains, min_from, max_from, avltree_min, avltree_max,
}
use libvci.Avltree.Shape.{Tree, leaf, fork, depth, in_order, IsSorted, Holds}
use libvci.Avltree.Rounds.{IsTree}
use libvci.Avltree.Place.{compare-cases}
use libvci.Avltree.Around.{All, All-append, All-mono, Between, in_order-Between, HasKey}

module _ (rank at : ℕ → ℕ) (s : Avltree) where
  -- The node of the key, or NULL, where no node has the key.
  pub Finds : List ℕ → ℕ → ℕ → Type 0
  Finds xs key q =
      ((q ≡ 0) × All (λ a. at a ≢ rank key) xs)
      ⊎ ((found : HasKey rank at xs key) × (0 < q) × (found.node ≡ q))

  module _ (key : ℕ) (ranks : Ranks rank s.key_compare) where
    Finds-left :
        (l : Tree) (a : ℕ) (r : Tree) (hi q : ℕ)
        → IsSorted at (suc (at a)) r hi
        → rank key < at a
        → Finds (in_order l) key q
        → Finds (in_order (fork l a r)) key q
    unfolding Finds
    Finds-left l a r hi q sorted less (inl (null, none_left)) = inl (
      null,
      All-append _ (in_order l) (a ∷ in_order r) none_left (
        (λ e. absurd (omega arith)),
        All-mono (Between at (suc (at a)) hi) _ (in_order r) (λ x b e. absurd (omega (arith, b.0)))
            (in_order-Between at (suc (at a)) r hi sorted),
      ),
    )
    Finds-left l a r hi q sorted less (inr (found, live, same)) = inr (
      record {
        first = found.first;
        node = found.node;
        last = found.last ++ a ∷ in_order r;
        parts =
            ap (λ (ys : List ℕ). ys ++ a ∷ in_order r) found.parts
            ∙ append_assoc found.first (found.node ∷ found.last) (a ∷ in_order r);
        same_rank = found.same_rank;
      },
      live,
      same,
    )

    Finds-right :
        (l : Tree) (a : ℕ) (r : Tree) (lo q : ℕ)
        → IsSorted at lo l (at a)
        → at a < rank key
        → Finds (in_order r) key q
        → Finds (in_order (fork l a r)) key q
    unfolding Finds
    Finds-right l a r lo q sorted more (inl (null, none_right)) = inl (
      null,
      All-append _ (in_order l) (a ∷ in_order r)
          (All-mono (Between at lo (at a)) _ (in_order l) (λ x b e. absurd (omega (arith, b.1)))
            (in_order-Between at lo l (at a) sorted))
          ((λ e. absurd (omega arith)), none_right),
    )
    Finds-right l a r lo q sorted more (inr (found, live, same)) = inr (
      record {
        first = in_order l ++ a ∷ found.first;
        node = found.node;
        last = found.last;
        parts =
            ap (λ (ys : List ℕ). in_order l ++ a ∷ ys) found.parts
            ∙ sym (append_assoc (in_order l) (a ∷ found.first) (found.node ∷ found.last));
        same_rank = found.same_rank;
      },
      live,
      same,
    )

    retrieve_from-Finds :
        (fuel lo : ℕ) (t : Tree) (hi p parent : ℕ)
        → depth t < fuel
        → IsSorted at lo t hi
        → Holds rank at s.nodes t p parent
        → Returns (Finds (in_order t) key) (retrieve_from fuel s key p)
    unfolding retrieve_from Finds
    retrieve_from-Finds zero lo t hi p parent enough sorted h = absurd (omega arith)
    retrieve_from-Finds (suc fuel) lo leaf hi p parent enough sorted h =
        rw h (returns (inl (refl, tt)))
    retrieve_from-Finds (suc fuel) lo (fork l a r) hi p parent enough sorted h =
        let live : (a == 0) ≡ false = ground (arith, h.2.0) in
        let order : s.key_compare key (s.nodes a).key ≡ compare (rank key) (at a) =
          rw (ranks key (s.nodes a).key, h.2.2) in
        subst
          (λ (at_node : ℕ).
            Returns (Finds (in_order (fork l a r)) key) (retrieve_from (suc fuel) s key at_node))
          (sym h.0)
          (rw (live, order)
            (elim (compare-cases (rank key) (at a)) [
              | inl (less, found) ↦ rw found (
                  Returns-mono
                    (retrieve_from-Finds fuel lo l (at a) (s.nodes a).left a (omega arith) sorted.0
                      h.3)
                    (λ q fine. Finds-left l a r hi q sorted.1 less fine))
              | inr (inl (same, found)) ↦ rw found (
                  returns (
                    inr (
                      record {
                        first = in_order l;
                        node = a;
                        last = in_order r;
                        parts = refl;
                        same_rank = sym same;
                      },
                      h.2.0,
                      refl,
                    )))
              | inr (inr (more, found)) ↦ rw found (
                  Returns-mono
                    (retrieve_from-Finds fuel (suc (at a)) r hi (s.nodes a).right a (omega arith)
                      sorted.1 h.4)
                    (λ q fine. Finds-right l a r lo q sorted.0 more fine))
            ]))

    module _ (bound : ℕ) (xs : List ℕ) (fuel : ℕ) (tree : IsTree rank at bound s xs)
        (enough : depth tree.shape < fuel) where
      pub avltree_retrieve-Finds : Returns (Finds xs key) (avltree_retrieve fuel s key)
      unfolding avltree_retrieve
      avltree_retrieve-Finds =
          subst (λ (ys : List ℕ). Returns (Finds ys key) (retrieve_from fuel s key s.root))
            tree.ordered
            (retrieve_from-Finds fuel 0 tree.shape bound s.root 0 enough tree.focus.sorted
              tree.focus.held)

      pub avltree_contains-HasKey :
          Returns
            (λ b.
              ((b ≡ true) × HasKey rank at xs key) ⊎ ((b ≡ false) × All (λ a. at a ≢ rank key) xs))
            (avltree_contains fuel s key)
      unfolding avltree_contains Finds
      avltree_contains-HasKey = Returns-bind avltree_retrieve-Finds (λ q fine. elim fine [
        | inl (null, absent) ↦ rw null (returns (inr (refl, absent)))
        | inr (found, live, same) ↦ returns (inl (ground arith, found))
      ])

  -- `q` is NULL in an empty tree, or the node of the least key.
  abbrev pub IsFirst : List ℕ → ℕ → Type 0
  IsFirst xs q = ((xs ≡ []) × (q ≡ 0)) ⊎ ((rest : List ℕ) × (xs ≡ q ∷ rest))

  abbrev pub IsLast : List ℕ → ℕ → Type 0
  IsLast xs q = ((xs ≡ []) × (q ≡ 0)) ⊎ ((rest : List ℕ) × (xs ≡ rest ++ q ∷ []))

  min_from-IsFirst :
      (fuel : ℕ) (l : Tree) (a : ℕ) (r : Tree) (p parent : ℕ)
      → depth (fork l a r) ≤ fuel
      → Holds rank at s.nodes (fork l a r) p parent
      → Returns (λ q. (rest : List ℕ) × (in_order (fork l a r) ≡ q ∷ rest)) (min_from fuel s p)
  unfolding min_from
  min_from-IsFirst zero l a r p parent enough h = absurd (omega arith)
  min_from-IsFirst (suc fuel) leaf a r p parent enough h =
      let last : ((s.nodes p).left == 0) ≡ true = rw h.0 (ground (arith, h.3)) in
      rw last (returns (in_order r, ap (λ (q : ℕ). q ∷ in_order r) (sym h.0)))
  min_from-IsFirst (suc fuel) (fork l b m) a r p parent enough h =
      let more : ((s.nodes p).left == 0) ≡ false = rw h.0 (ground (arith, h.3.0, h.3.2.0)) in
      let below = min_from-IsFirst fuel l b m (s.nodes p).left a (omega arith) (rw h.0 h.3) in
      rw more (
        Returns-mono below (λ q least.
          (least.0 ++ a ∷ in_order r, ap (λ (ys : List ℕ). ys ++ a ∷ in_order r) least.1)))

  max_from-IsLast :
      (fuel : ℕ) (l : Tree) (a : ℕ) (r : Tree) (p parent : ℕ)
      → depth (fork l a r) ≤ fuel
      → Holds rank at s.nodes (fork l a r) p parent
      → Returns
          (λ q. (rest : List ℕ) × (in_order (fork l a r) ≡ rest ++ q ∷ []))
          (max_from fuel s p)
  unfolding max_from
  max_from-IsLast zero l a r p parent enough h = absurd (omega arith)
  max_from-IsLast (suc fuel) l a leaf p parent enough h =
      let last : ((s.nodes p).right == 0) ≡ true = rw h.0 (ground (arith, h.4)) in
      rw last (returns (in_order l, ap (λ (q : ℕ). in_order l ++ q ∷ []) (sym h.0)))
  max_from-IsLast (suc fuel) l a (fork m b r) p parent enough h =
      let more : ((s.nodes p).right == 0) ≡ false = rw h.0 (ground (arith, h.4.0, h.4.2.0)) in
      let below = max_from-IsLast fuel m b r (s.nodes p).right a (omega arith) (rw h.0 h.4) in
      rw more (
        Returns-mono below (λ q greatest. (
          in_order l ++ a ∷ greatest.0,
          ap (λ (ys : List ℕ). in_order l ++ a ∷ ys) greatest.1
              ∙ sym (append_assoc (in_order l) (a ∷ greatest.0) (q ∷ [])),
        )))

  ends :
      (t : Tree) (fuel : ℕ)
      → depth t ≤ fuel
      → Holds rank at s.nodes t s.root 0
      → Returns (IsFirst (in_order t)) (avltree_min fuel s)
        × Returns (IsLast (in_order t)) (avltree_max fuel s)
  unfolding avltree_min avltree_max
  ends leaf fuel enough h = rw h (returns (inl (refl, refl)), returns (inl (refl, refl)))
  ends (fork l a r) fuel enough h =
      let live : (s.root == 0) ≡ false = ground (arith, h.0, h.2.0) in
      rw live (
        Returns-mono (min_from-IsFirst fuel l a r s.root 0 enough h) (λ q least. inr least),
        Returns-mono (max_from-IsLast fuel l a r s.root 0 enough h) (λ q greatest. inr greatest),
      )

  pub avltree_min-avltree_max :
      (bound : ℕ) (xs : List ℕ) (fuel : ℕ) (tree : IsTree rank at bound s xs)
      → depth tree.shape ≤ fuel
      → Returns (IsFirst xs) (avltree_min fuel s) × Returns (IsLast xs) (avltree_max fuel s)
  avltree_min-avltree_max bound xs fuel tree enough =
      subst
        (λ (ys : List ℕ).
          Returns (IsFirst ys) (avltree_min fuel s) × Returns (IsLast ys) (avltree_max fuel s))
        tree.ordered (ends tree.shape fuel enough tree.focus.held)
