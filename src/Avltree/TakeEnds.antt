-- ===== src/Avltree/TakeEnds.antt =====
-- src/lib/container/avltree.c: avltree_take_min, avltree_take_max and avltree_take, where they keep the tree.
use libvci.Base.{
  ℕ, ◌*◌, ◌≤◌, ◌<◌, ◌≡◌, ◌≢◌, ◌⊎◌, inl, inr, ap, subst, sym, refl, ◌∙◌, true, false, ◌==◌, Ranks,
  List, [], ◌∷◌, ◌++◌, Returns, returns, Returns-mono, Returns-bind, arith,
}
use mathlib.Core.List.{append_assoc, append-nil}
use libvci.Avltree.{Avltree, Ref, read}
use libvci.Avltree.Take.{take_at, avltree_take, avltree_take_min, avltree_take_max}
use libvci.Avltree.Shape.{Tree, leaf, fork, top, depth, in_order, around, Holds}
use libvci.Avltree.Around.{before, behind, around-append, All, HasKey}
use libvci.Avltree.Round.{open_fork}
use libvci.Avltree.Rounds.{IsTree}
use libvci.Avltree.Place.{Place, Place-root, descend-Place}
use libvci.Avltree.Inserted.{Found-null, Found-parts, Missing-absent}
use libvci.Avltree.Removal.{Rest, OneSide, take_at-Rest}
use libvci.Avltree.Ends.{IsLeftmost, IsRightmost, leftmost-IsLeftmost, rightmost-IsRightmost}

one_side : (l : Tree) → OneSide l leaf
one_side leaf = tt
one_side (fork l a r) = tt

module _ (rank at : ℕ → ℕ) (bound : ℕ) (s : Avltree) (xs : List ℕ) (fuel : ℕ) where
  -- NULL from an empty tree; else the first node, and the tree of the others.
  pub TakesFirst : ℕ × Avltree → Type 0
  TakesFirst (node, t) =
      ((xs ≡ []) × (node ≡ 0) × (t ≡ s))
      ⊎ ((rest : List ℕ) × (xs ≡ node ∷ rest) × Rest rank at bound s rest t)

  pub TakesLast : ℕ × Avltree → Type 0
  TakesLast (node, t) =
      ((xs ≡ []) × (node ≡ 0) × (t ≡ s))
      ⊎ ((rest : List ℕ) × (xs ≡ rest ++ node ∷ []) × Rest rank at bound s rest t)

  first_taken :
      (n : ℕ) (ref : Ref)
      → n ≤ fuel
      → IsLeftmost rank at bound s xs n top ref
      → Returns TakesFirst (take_at fuel s ref)
  unfolding TakesFirst
  first_taken n ref enough found =
      let c = found.around_it in
      let ys = in_order found.right in
      let order : (ys : List ℕ) → around c ys ≡ ys ++ behind c =
        λ ys. around-append c ys ∙ ap (λ (zs : List ℕ). zs ++ (ys ++ behind c)) found.same_before in
      rw found.ref_is (
        Returns-mono
          (take_at-Rest rank at bound s xs n fuel enough c leaf found.node found.right found.place
            tt)
          (λ out took. inr (
            around c ys,
            sym found.place.ordered
                ∙ order (found.node ∷ ys)
                ∙ ap (λ (zs : List ℕ). found.node ∷ zs) (sym (order ys))
                ∙ ap (λ (q : ℕ). q ∷ around c ys) (sym took.0),
            took.1,
          )))

  last_taken :
      (n : ℕ) (ref : Ref)
      → n ≤ fuel
      → IsRightmost rank at bound s xs n top ref
      → Returns TakesLast (take_at fuel s ref)
  unfolding TakesLast
  last_taken n ref enough found =
      let c = found.around_it in
      let ys = in_order found.left in
      let order : (ys : List ℕ) → around c ys ≡ before c ++ ys = λ ys.
        around-append c ys
        ∙ ap (λ (zs : List ℕ). before c ++ (ys ++ zs)) found.same_behind
        ∙ ap (λ (zs : List ℕ). before c ++ zs) (append-nil ys) in
      let rest : around c (ys ++ []) ≡ around c ys =
        ap (λ (zs : List ℕ). around c zs) (append-nil ys) in
      let parts : around c (ys ++ found.node ∷ []) ≡ around c (ys ++ []) ++ found.node ∷ [] =
        order (ys ++ found.node ∷ [])
        ∙ sym (append_assoc (before c) ys (found.node ∷ []))
        ∙ ap (λ (zs : List ℕ). zs ++ found.node ∷ []) (sym (rest ∙ order ys)) in
      rw found.ref_is (
        Returns-mono
          (take_at-Rest rank at bound s xs n fuel enough c found.left found.node leaf found.place
            (one_side found.left))
          (λ out took. inr (
            around c (ys ++ []),
            sym found.place.ordered
                ∙ parts
                ∙ ap (λ (q : ℕ). around c (ys ++ []) ++ q ∷ []) (sym took.0),
            took.1,
          )))

  module _ (tree : IsTree rank at bound s xs) (enough : 2 * depth tree.shape ≤ fuel) where
    from_leftmost :
        (t : Tree)
        → depth t ≤ fuel
        → Place rank at bound s xs (2 * depth tree.shape) top t
        → Returns TakesFirst (avltree_take_min fuel s)
    unfolding avltree_take_min TakesFirst
    from_leftmost leaf small here =
        let null : (s.root == 0) ≡ true = ground (arith, here.focus.held) in
        rw null (returns (inl (sym here.ordered, refl, refl)))
    from_leftmost (fork l a r) small here =
        let live : (s.root == 0) ≡ false = ground (arith, here.focus.held.0, here.focus.held.2.0) in
        rw live (
          Returns-bind
            (leftmost-IsLeftmost rank at bound s xs (2 * depth tree.shape) fuel top l a r small
              here)
            (λ ref found. first_taken (2 * depth tree.shape) ref enough found))

    from_rightmost :
        (t : Tree)
        → depth t ≤ fuel
        → Place rank at bound s xs (2 * depth tree.shape) top t
        → Returns TakesLast (avltree_take_max fuel s)
    unfolding avltree_take_max TakesLast
    from_rightmost leaf small here =
        let null : (s.root == 0) ≡ true = ground (arith, here.focus.held) in
        rw null (returns (inl (sym here.ordered, refl, refl)))
    from_rightmost (fork l a r) small here =
        let live : (s.root == 0) ≡ false = ground (arith, here.focus.held.0, here.focus.held.2.0) in
        rw live (
          Returns-bind
            (rightmost-IsRightmost rank at bound s xs (2 * depth tree.shape) fuel top l a r small
              here)
            (λ ref found. last_taken (2 * depth tree.shape) ref enough found))

    -- avltree_take_min on a balanced search tree, with twice its depth in rounds, gives the node
    -- of the least key, and leaves a balanced search tree of the others, one less in size; an
    -- empty tree gives NULL and stays.
    pub avltree_take_min-Rest : Returns TakesFirst (avltree_take_min fuel s)
    avltree_take_min-Rest =
        from_leftmost tree.shape (omega arith) (Place-root rank at bound s xs tree)

    pub avltree_take_max-Rest : Returns TakesLast (avltree_take_max fuel s)
    avltree_take_max-Rest =
        from_rightmost tree.shape (omega arith) (Place-root rank at bound s xs tree)

  -- NULL and the same tree, where no node has the key; else its node, and the tree of the others.
  pub TakesKey : ℕ → ℕ × Avltree → Type 0
  TakesKey key (node, t) =
      ((node ≡ 0) × (t ≡ s) × All (λ a. at a ≢ rank key) xs)
      ⊎ ((found : HasKey rank at xs key) × (node ≡ found.node)
          × Rest rank at bound s (found.first ++ found.last) t)

  has-OneSide :
      (l : Tree) (a : ℕ) (r : Tree)
      → Holds rank at s.nodes l (s.nodes a).left a
      → Holds rank at s.nodes r (s.nodes a).right a
      → ((s.nodes a).left ≡ 0) ⊎ ((s.nodes a).right ≡ 0)
      → OneSide l r
  has-OneSide leaf a r h k one = tt
  has-OneSide (fork l b m) a leaf h k one = tt
  has-OneSide (fork l b m) a (fork v d r) h k one = elim one [
    | inl null ↦ absurd (omega (arith, h.0, h.2.0))
    | inr null ↦ absurd (omega (arith, k.0, k.2.0))
  ]

  module _ (key : ℕ) (ranks : Ranks rank s.key_compare) (small : rank key < bound) where
    -- For a comparison that ranks the keys, avltree_take of a key of a rank below the bound from a
    -- balanced search tree, where a node of that rank has one child at most and the rounds are
    -- more than twice the depth, gives the node, and leaves a balanced search tree of the others,
    -- one less in size; or it gives NULL, no node has the key, and nothing changes.
    pub avltree_take-Rest :
        (tree : IsTree rank at bound s xs)
        → 2 * depth tree.shape < fuel
        → ((a : ℕ) → at a ≡ rank key → ((s.nodes a).left ≡ 0) ⊎ ((s.nodes a).right ≡ 0))
        → Returns (TakesKey key) (avltree_take fuel s key)
    unfolding avltree_take TakesKey
    avltree_take-Rest tree enough one =
        let n : ℕ = 2 * depth tree.shape in
        let arrives =
          descend-Place rank at bound s xs n key ranks top tree.shape fuel (omega arith)
            (Place-root rank at bound s xs tree) (omega arith) small in
        Returns-bind arrives (λ out way. elim way [
          | inl m ↦
              let null : (read s out.1 == 0) ≡ true =
                rw m.ref_is (ground (arith, m.place.focus.held)) in
              rw null (returns (inl (refl, refl, Missing-absent rank at bound s xs n key out m)))
          | inr f ↦
              let c = f.around_it in
              let o = open_fork rank at bound f.place.focus in
              let side =
                has-OneSide f.left f.node f.right o.left_held o.right_held
                  (one f.node f.same_rank) in
              let l = in_order f.left in
              let r = in_order f.right in
              let rest : around c (l ++ r) ≡ (before c ++ l) ++ (r ++ behind c) =
                around-append c (l ++ r) ∙ simp append_assoc in
              rw (Found-null rank at bound s xs n key out f, f.ref_is)
                (Returns-mono
                  (take_at-Rest rank at bound s xs n fuel (omega arith) c f.left f.node f.right
                    f.place side)
                  (λ taken took. inr (
                    record {
                      first = before c ++ l;
                      node = f.node;
                      last = r ++ behind c;
                      parts = Found-parts rank at bound s xs n key out f;
                      same_rank = f.same_rank;
                    },
                    took.0,
                    subst (λ (ys : List ℕ). Rest rank at bound s ys taken.1) rest took.1,
                  )))
        ])
