-- ===== src/Avltree/Inserted.antt =====
-- src/lib/container/avltree.c: avltree_insert gives the tree with the node in its place.
use libvci.Base.{
  ℕ, ◌+◌, ◌*◌, ◌%◌, ◌≤◌, ◌<◌, ◌≡◌, ◌≢◌, ◌⊎◌, inl, inr, subst, sym, refl, ◌∙◌, true, false, ◌==◌,
  Ranks, List, [], ◌∷◌, ◌++◌, u32, ok, Code, success, failure, einval, ◌>>=◌, Returns, returns,
  Returns-bind, arith,
}
use mathlib.Core.List.{append_assoc}
use libvci.Avltree.{
  Node, Avltree, Ref, at_root, at_left, at_right, read, write, put, avltree_rebalance_nodes,
}
use libvci.Avltree.Insert.{avltree_insert, link}
use libvci.Avltree.Shape.{
  leaf, fork, Context, top, depth, in_order, parent_of, ref_of, IsSorted, lower, upper, Holds,
  HoldsAround,
}
use libvci.Avltree.Around.{before, behind, around-append, around_apart, All, All-mono, HasKey}
use libvci.Avltree.Frame.{SameOut, HoldsAround-frame, put_self, put_below, put_above}
use libvci.Avltree.Focus.{Focus, Focus-write, Holds-fork}
use libvci.Avltree.Round.{open_fork}
use libvci.Avltree.Rounds.{IsTree}
use libvci.Avltree.Climb.{avltree_rebalance_nodes-IsTree}
use libvci.Avltree.Keeps.{Keeps-avltree_rebalance_nodes}
use libvci.Avltree.Place.{Place-root, Missing, Found, descend-Place}

write_with_size :
    (s : Avltree) (ref : Ref) (v size : ℕ)
    → ◌≡◌ {A = Avltree}
        (record (write s ref v) { size = size })
        (write (record s { size = size }) ref v)
write_with_size s at_root v size = refl
write_with_size s (at_left p) v size = refl
write_with_size s (at_right p) v size = refl

module _ (rank at : ℕ → ℕ) (bound : ℕ) (s : Avltree) (node key : ℕ) where
  link-Focus :
      (c : Context)
      → 0 < node
      → at node ≡ rank key
      → Focus rank at bound s c leaf
      → lower at c ≤ rank key
      → rank key < upper at bound c
      → Focus rank at bound (link s node key (parent_of c) (ref_of c)) c (fork leaf node leaf)
  unfolding link
  link-Focus c live keyed f low high =
      let fresh : Node = record {
        key = key;
        parent = parent_of c;
        left = 0;
        right = 0;
        height = 0;
      } in
      let t = put s node fresh in
      let ref = ref_of c in
      let size : ℕ = ((write t ref node).size + 1) % u32 in
      let sized : Avltree = record s { size = size } in
      let outside : SameOut at (lower at c) (upper at bound c) t.nodes s.nodes = λ q out. elim out [
        | inl below ↦ put_below at s node fresh q (omega arith)
        | inr above ↦ put_above at s node fresh q (omega arith)
      ] in
      let around_it : HoldsAround rank at sized c =
        HoldsAround-frame rank at bound s sized c f.sorted_around refl (λ q out. refl)
          f.held_around in
      let sorted : IsSorted at (lower at c) (fork leaf node leaf) (upper at bound c) =
        (omega arith, omega arith) in
      let held : Holds rank at t.nodes (fork leaf node leaf) node (parent_of c) =
        Holds-fork rank at t.nodes leaf node leaf (parent_of c) fresh (put_self s node fresh)
          (omega arith) (live, refl, sym keyed) refl refl in
      rw (write_with_size t ref node size) (
        Focus-write rank at bound sized (record t { size = size }) c (fork leaf node leaf) node refl
          outside around_it f.sorted_around sorted held)

link-compare :
    (s : Avltree) (node key parent : ℕ) (ref : Ref)
    → (link s node key parent ref).key_compare ≡ s.key_compare
unfolding link
link-compare s node key parent at_root = refl
link-compare s node key parent (at_left p) = refl
link-compare s node key parent (at_right p) = refl

link-delete :
    (s : Avltree) (node key parent : ℕ) (ref : Ref)
    → (link s node key parent ref).data_delete ≡ s.data_delete
unfolding link
link-delete s node key parent at_root = refl
link-delete s node key parent (at_left p) = refl
link-delete s node key parent (at_right p) = refl

link-size :
    (s : Avltree) (node key parent : ℕ) (ref : Ref)
    → (link s node key parent ref).size ≡ (s.size + 1) % u32
unfolding link
link-size s node key parent at_root = refl
link-size s node key parent (at_left p) = refl
link-size s node key parent (at_right p) = refl

module _ (rank at : ℕ → ℕ) (bound : ℕ) (s : Avltree) (xs : List ℕ) where
  -- `t` is the tree with `node` at the one place where the ranks still rise.
  pub record HasNode (node : ℕ) (t : Avltree) : Type 0 where
    pub first : List ℕ
    pub last : List ℕ
    pub parts : xs ≡ first ++ last
    pub absent : All (λ a. at a ≢ at node) xs
    pub tree : IsTree rank at bound t (first ++ node ∷ last)
    pub same_compare : t.key_compare ≡ s.key_compare
    pub same_delete : t.data_delete ≡ s.data_delete
    pub one_more : t.size ≡ (s.size + 1) % u32

  pub Inserts : ℕ → ℕ → Code × Avltree → Type 0
  Inserts node key (code, t) =
      ((code ≡ success) × HasNode node t)
      ⊎ ((code ≡ failure einval) × (t ≡ s) × HasKey rank at xs key)

  pub Missing-absent :
      (n key : ℕ) (out : ℕ × Ref)
      → Missing rank at bound s xs n key out
      → All (λ a. at a ≢ rank key) xs
  Missing-absent n key out m =
      subst (All (λ a. at a ≢ rank key)) m.place.ordered
        (around_apart at bound m.around_it (rank key) m.place.focus.sorted_around m.above m.below)

  pub Found-null :
      (n key : ℕ) (out : ℕ × Ref) → Found rank at bound s xs n key out → (read s out.1 == 0) ≡ false
  Found-null n key out f =
      let o = open_fork rank at bound f.place.focus in
      rw (f.ref_is, o.placed) (ground (arith, o.node.0))

  pub Found-parts :
      (n key : ℕ) (out : ℕ × Ref) (f : Found rank at bound s xs n key out)
      → xs
        ≡ (before f.around_it ++ in_order f.left)
          ++ f.node ∷ (in_order f.right ++ behind f.around_it)
  Found-parts n key out f =
      let c = f.around_it in
      let l = in_order f.left in
      let r = in_order f.right in
      let regroup : before c ++ ((l ++ f.node ∷ r) ++ behind c)
          ≡ (before c ++ l) ++ f.node ∷ (r ++ behind c) =
        simp append_assoc in
      sym f.place.ordered ∙ around-append c (l ++ f.node ∷ r) ∙ regroup

  Found-HasKey :
      (n key : ℕ) (out : ℕ × Ref) → Found rank at bound s xs n key out → HasKey rank at xs key
  Found-HasKey n key out f = record {
    first = before f.around_it ++ in_order f.left;
    node = f.node;
    last = in_order f.right ++ behind f.around_it;
    parts = Found-parts n key out f;
    same_rank = f.same_rank;
  }

  module _ (fuel node key : ℕ) (live : 0 < node) (keyed : at node ≡ rank key) where
    Missing-Inserts :
        (n : ℕ) (out : ℕ × Ref)
        → n ≤ fuel
        → Missing rank at bound s xs n key out
        → Returns (Inserts node key) (
            avltree_rebalance_nodes fuel (link s node key out.0 out.1) out.0
            >>= (λ t. ok (success, t)))
    unfolding Inserts
    Missing-Inserts n out enough m =
        let c = m.around_it in
        let t = link s node key (parent_of c) (ref_of c) in
        let f = link-Focus rank at bound s node key c live keyed m.place.focus m.above m.below in
        let all =
          avltree_rebalance_nodes-IsTree rank at bound c fuel (node ∷ []) 0
            (omega (arith, m.place.near)) m.place.balanced_around t (fork leaf node leaf) f
            (tt, tt, omega arith, omega arith) refl (omega arith) (omega arith) in
        rw (m.parent_is, m.ref_is)
          (Returns-bind (Keeps-avltree_rebalance_nodes fuel t (parent_of c) all) (λ u good.
            returns (
              inl (
                refl,
                record {
                  first = before c;
                  last = behind c;
                  parts = sym m.place.ordered ∙ around-append c [];
                  absent =
                      All-mono (λ a. at a ≢ rank key) _ xs (λ a off e. off (e ∙ keyed))
                        (Missing-absent n key out m);
                  tree =
                      subst (λ (ys : List ℕ). IsTree rank at bound u ys)
                        (around-append c (node ∷ [])) good.1;
                  same_compare =
                      good.0.same_compare ∙ link-compare s node key (parent_of c) (ref_of c);
                  same_delete =
                      good.0.same_delete ∙ link-delete s node key (parent_of c) (ref_of c);
                  one_more = good.0.same_size ∙ link-size s node key (parent_of c) (ref_of c);
                },
              ))))

    -- For a comparison that ranks the keys, a key of a rank below the bound, and a node that is
    -- not NULL and goes by that rank: avltree_insert into a balanced search tree, with more rounds
    -- than twice its depth, succeeds, no node had the key, and the tree is a balanced search tree
    -- with the node in its place and one more in size; or it returns -EINVAL, a node has the key,
    -- and nothing changes.
    pub avltree_insert-IsTree :
        (tree : IsTree rank at bound s xs)
        → Ranks rank s.key_compare
        → rank key < bound
        → 2 * depth tree.shape < fuel
        → Returns (Inserts node key) (avltree_insert fuel s node key)
    unfolding avltree_insert Inserts
    avltree_insert-IsTree tree ranks small enough =
        let n : ℕ = 2 * depth tree.shape in
        let arrives =
          descend-Place rank at bound s xs n key ranks top tree.shape fuel (omega arith)
            (Place-root rank at bound s xs tree) (omega arith) small in
        Returns-bind arrives (λ out way. elim way [
          | inl m ↦
              let null : (read s out.1 == 0) ≡ true =
                rw m.ref_is (ground (arith, m.place.focus.held)) in
              rw null (Missing-Inserts n out (omega arith) m)
          | inr f ↦
              rw (Found-null n key out f) (returns (inr (refl, refl, Found-HasKey n key out f)))
        ])
