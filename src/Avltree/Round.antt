-- ===== src/Avltree/Round.antt =====
-- src/lib/container/avltree.c: one round of _avltree_rebalance_nodes.
use libvci.Base.{ℕ, suc, ◌+◌, ◌<◌, ◌≡◌, inl, inr, refl, ◌∙◌, max, ◌==◌, true, false, leb, arith}
use libvci.Avltree.{
  Node, Avltree, put, height_of, left_heavy, right_heavy, avlnode_child_reference, reference,
  update_height,
}
use libvci.Avltree.Shape.{
  Tree, fork, Context, top, in_left, in_right, depth, parent_of, ref_of, lower, upper, Holds,
}
use libvci.Avltree.Frame.{
  SameOut, IsSorted-le, Holds-frame, HoldsAround-frame, read-frame, put_self, put_below, put_above,
}
use libvci.Avltree.Focus.{avlnode_get_height-depth, Holds-pointer, Holds-fork, Focus, Opened}

module _ (rank at : ℕ → ℕ) (bound : ℕ) where
  apart_test : (p q : ℕ) → at p < at q → (p == q) ≡ false
  apart_test p q h = ground arith

  pub open_fork :
      {s : Avltree} {c : Context} {l : Tree} {a : ℕ} {r : Tree}
      → Focus rank at bound s c (fork l a r)
      → Opened rank at bound s c l a r
  open_fork f = record {
    placed = f.held.0;
    node = f.held.2;
    left_held = f.held.3;
    right_held = f.held.4;
    left_sorted = f.sorted.0;
    right_sorted = f.sorted.1;
    held_around = f.held_around;
    sorted_around = f.sorted_around;
  }

  pub open_left :
      {s : Avltree} {c : Context} {l : Tree} {a : ℕ} {r : Tree}
      → Focus rank at bound s (in_left c a r) l
      → Opened rank at bound s c l a r
  open_left f = record {
    placed = f.held_around.0;
    node = f.held_around.1;
    left_held = f.held;
    right_held = f.held_around.2;
    left_sorted = f.sorted;
    right_sorted = f.sorted_around.0;
    held_around = f.held_around.3;
    sorted_around = f.sorted_around.2;
  }

  pub open_right :
      {s : Avltree} {c : Context} {l : Tree} {a : ℕ} {r : Tree}
      → Focus rank at bound s (in_right l a c) r
      → Opened rank at bound s c l a r
  open_right f = record {
    placed = f.held_around.0;
    node = f.held_around.1;
    left_held = f.held_around.2;
    right_held = f.held;
    left_sorted = f.sorted_around.0;
    right_sorted = f.sorted;
    held_around = f.held_around.3;
    sorted_around = f.sorted_around.2;
  }

  module _ (s : Avltree) (c : Context) (l : Tree) (a : ℕ) (r : Tree)
      (o : Opened rank at bound s c l a r) where
    pub into_left : Focus rank at bound s (in_left c a r) l
    into_left = record {
      held = o.left_held;
      sorted = o.left_sorted;
      held_around = (o.placed, o.node, o.right_held, o.held_around);
      sorted_around =
          (o.right_sorted, IsSorted-le at (lower at c) l (at a) o.left_sorted, o.sorted_around);
    }

    pub into_right : Focus rank at bound s (in_right l a c) r
    into_right = record {
      held = o.right_held;
      sorted = o.right_sorted;
      held_around = (o.placed, o.node, o.left_held, o.held_around);
      sorted_around = (
        o.left_sorted,
        IsSorted-le at (suc (at a)) r (upper at bound c) o.right_sorted,
        o.sorted_around,
      );
    }

    -- The height of the node becomes right, and no other field changes.
    pub update_height-Focus : Focus rank at bound (update_height s a) c (fork l a r)
    unfolding update_height height_of
    update_height-Focus =
        let n : Node = record (s.nodes a) { height = height_of s a } in
        let t = put s a n in
        let near = IsSorted-le at (lower at c) l (at a) o.left_sorted in
        let far = IsSorted-le at (suc (at a)) r (upper at bound c) o.right_sorted in
        let same : SameOut at (lower at c) (upper at bound c) t.nodes s.nodes = λ q out. elim out [
          | inl low ↦ put_below at s a n q (omega arith)
          | inr high ↦ put_above at s a n q (omega arith)
        ] in
        let left : Holds rank at t.nodes l (s.nodes a).left a =
          Holds-frame rank at (lower at c) l (at a) (s.nodes a).left a o.left_sorted
            (λ q low high. put_below at s a n q (omega arith)) o.left_held in
        let right : Holds rank at t.nodes r (s.nodes a).right a =
          Holds-frame rank at (suc (at a)) r (upper at bound c) (s.nodes a).right a o.right_sorted
            (λ q low high. put_above at s a n q (omega arith)) o.right_held in
        let high : height_of s a ≡ max (depth l) (depth r) = rw (
          avlnode_get_height-depth rank at s l (s.nodes a).left a o.left_held,
          avlnode_get_height-depth rank at s r (s.nodes a).right a o.right_held,
        ) in
        record {
          held = rw (read-frame rank at bound s t c refl same ∙ o.placed) (
              Holds-fork rank at t.nodes l a r (parent_of c) n (put_self s a n) high o.node left
                right);
          sorted = (o.left_sorted, o.right_sorted);
          held_around =
              HoldsAround-frame rank at bound s t c o.sorted_around refl same o.held_around;
          sorted_around = o.sorted_around;
        }

    pub left_heavy-depth : (n : ℕ) → left_heavy s a n ≡ leb (depth r + n) (depth l)
    unfolding left_heavy
    left_heavy-depth n =
        let live : (a == 0) ≡ false = ground (arith, o.node.0) in
        rw (
          avlnode_get_height-depth rank at s l (s.nodes a).left a o.left_held,
          avlnode_get_height-depth rank at s r (s.nodes a).right a o.right_held,
          live,
        )

    pub right_heavy-depth : (n : ℕ) → right_heavy s a n ≡ leb (depth l + n) (depth r)
    unfolding right_heavy
    right_heavy-depth n =
        let live : (a == 0) ≡ false = ground (arith, o.node.0) in
        rw (
          avlnode_get_height-depth rank at s l (s.nodes a).left a o.left_held,
          avlnode_get_height-depth rank at s r (s.nodes a).right a o.right_held,
          live,
        )

  pub reference-ref_of :
      (s : Avltree) (c : Context) (l : Tree) (a : ℕ) (r : Tree)
      → Opened rank at bound s c l a r
      → reference s a ≡ ref_of c
  unfolding reference avlnode_child_reference
  reference-ref_of s top l a r o = rw (o.node.1)
  reference-ref_of s (in_left c b d) l a r o =
      let live : (b == 0) ≡ false = ground (arith, o.held_around.1.0) in
      let found : ((s.nodes b).left == a) ≡ true = ground (arith, o.placed) in
      rw (o.node.1, live, found)
  reference-ref_of s (in_right d b c) l a r o =
      let live : (b == 0) ≡ false = ground (arith, o.held_around.1.0) in
      let far = IsSorted-le at (suc (at b)) l (at a) o.left_sorted in
      let other : ((s.nodes b).left == a) ≡ false =
        elim (Holds-pointer rank at s.nodes (lower at c) d (at b) (s.nodes b).left b
          o.sorted_around.0 o.held_around.2) [
            | inl null ↦ ground (arith, o.node.0)
            | inr near ↦ apart_test (s.nodes b).left a (omega arith)
          ] in
      rw (o.node.1, live, other)
