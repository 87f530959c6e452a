-- ===== src/Avltree/Focus.antt =====
-- src/lib/container/avltree.c: a part of the tree in the store, and a write that exchanges it.
use libvci.Base.{ℕ, suc, ◌≤◌, ◌<◌, ◌≡◌, ◌⊎◌, inl, inr, refl, max, arith}
use libvci.Avltree.{Node, Avltree, read, write, set_parent_of, avlnode_get_height}
use libvci.Avltree.Shape.{
  Tree, leaf, fork, Context, depth, parent_of, ref_of, IsSorted, lower, upper, SortedAround, IsNode,
  Holds, HoldsAround,
}
use libvci.Avltree.Frame.{
  SameOut, IsSorted-le, Holds-frame, HoldsAround-frame, read-write, write-HoldsAround, write-SameIn,
}

module _ (rank at : ℕ → ℕ) where
  pub avlnode_get_height-depth :
      (s : Avltree) (t : Tree) (p parent : ℕ)
      → Holds rank at s.nodes t p parent
      → avlnode_get_height s p ≡ depth t
  unfolding avlnode_get_height
  avlnode_get_height-depth s leaf p parent h = ground arith
  avlnode_get_height-depth s (fork l a r) p parent h = ground arith

  pub Holds-pointer :
      (nodes : ℕ → Node) (lo : ℕ) (t : Tree) (hi p parent : ℕ)
      → IsSorted at lo t hi
      → Holds rank at nodes t p parent
      → (p ≡ 0) ⊎ ((lo ≤ at p) × (at p < hi))
  Holds-pointer nodes lo leaf hi p parent o h = inl h
  Holds-pointer nodes lo (fork l a r) hi p parent o h =
      rw h.0 (inr (IsSorted-le at lo l (at a) o.0, IsSorted-le at (suc (at a)) r hi o.1))

  pub Holds-fork :
      (nodes : ℕ → Node) (l : Tree) (a : ℕ) (r : Tree) (parent : ℕ) (n : Node)
      → nodes a ≡ n
      → n.height ≡ max (depth l) (depth r)
      → (0 < a) × (n.parent ≡ parent) × (rank n.key ≡ at a)
      → Holds rank at nodes l n.left a
      → Holds rank at nodes r n.right a
      → Holds rank at nodes (fork l a r) a parent
  Holds-fork nodes l a r parent n same high node left right =
      rw same (refl, high, node, left, right)

  -- The part `t` of a tree, in the store with all that is around it.
  pub record Focus (bound : ℕ) (s : Avltree) (c : Context) (t : Tree) : Type 0 where
    pub held : Holds rank at s.nodes t (read s (ref_of c)) (parent_of c)
    pub sorted : IsSorted at (lower at c) t (upper at bound c)
    pub held_around : HoldsAround rank at s c
    pub sorted_around : SortedAround at bound c

  -- The same of a node and its two sides, whatever its height.
  pub record Opened (bound : ℕ) (s : Avltree) (c : Context) (l : Tree) (a : ℕ) (r : Tree)
      : Type 0 where
    pub placed : read s (ref_of c) ≡ a
    pub node : IsNode rank at s.nodes a (parent_of c)
    pub left_held : Holds rank at s.nodes l (s.nodes a).left a
    pub right_held : Holds rank at s.nodes r (s.nodes a).right a
    pub left_sorted : IsSorted at (lower at c) l (at a)
    pub right_sorted : IsSorted at (suc (at a)) r (upper at bound c)
    pub held_around : HoldsAround rank at s c
    pub sorted_around : SortedAround at bound c

  -- A store that differs inside the part, with a pointer to the new part.
  pub Focus-write :
      (bound : ℕ) (s t : Avltree) (c : Context) (u : Tree) (p : ℕ)
      → t.root ≡ s.root
      → SameOut at (lower at c) (upper at bound c) t.nodes s.nodes
      → HoldsAround rank at s c
      → SortedAround at bound c
      → IsSorted at (lower at c) u (upper at bound c)
      → Holds rank at t.nodes u p (parent_of c)
      → Focus bound (write t (ref_of c) p) c u
  Focus-write bound s t c u p root same around outer sorted held = record {
    held = rw (read-write rank at t (ref_of c) p) (
        Holds-frame rank at (lower at c) u (upper at bound c) p (parent_of c) sorted
          (write-SameIn rank at bound t c p) held);
    sorted = sorted;
    held_around =
        write-HoldsAround rank at bound t c p outer
          (HoldsAround-frame rank at bound s t c outer root same around);
    sorted_around = outer;
  }

pub set_parent_of-root : (s : Avltree) (p v : ℕ) → (set_parent_of s p v).root ≡ s.root
set_parent_of-root s p v = ground arith
