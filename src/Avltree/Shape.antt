-- ===== src/Avltree/Shape.antt =====
-- src/lib/container/avltree.c: search trees as data, and the stores that hold them.
use libvci.Base.{ℕ, suc, ◌≤◌, ◌<◌, ◌≡◌, max, List, [], ◌∷◌, ◌++◌}
use libvci.Avltree.{Node, Avltree, Ref, at_root, at_left, at_right, read}

-- A tree of addresses.
pub data Tree : Type 0 where
  leaf : Tree
  fork : Tree → ℕ → Tree → Tree

-- What is around a part of a tree, from the part to the root.
pub data Context : Type 0 where
  top : Context
  in_left : Context → ℕ → Tree → Context
  in_right : Tree → ℕ → Context → Context

abbrev pub depth : Tree → ℕ
depth leaf = 0
depth (fork l a r) = suc (max (depth l) (depth r))

abbrev pub in_order : Tree → List ℕ
in_order leaf = []
in_order (fork l a r) = in_order l ++ a ∷ in_order r

abbrev pub plug : Context → Tree → Tree
plug top t = t
plug (in_left c a r) t = plug c (fork t a r)
plug (in_right l a c) t = plug c (fork l a t)

-- The addresses before a part, the part's own, and those behind.
abbrev pub around : Context → List ℕ → List ℕ
around top xs = xs
around (in_left c a r) xs = around c (xs ++ a ∷ in_order r)
around (in_right l a c) xs = around c (in_order l ++ a ∷ xs)

abbrev pub parent_of : Context → ℕ
parent_of top = 0
parent_of (in_left c a r) = a
parent_of (in_right l a c) = a

abbrev pub ref_of : Context → Ref
ref_of top = at_root
ref_of (in_left c a r) = at_left a
ref_of (in_right l a c) = at_right a

-- No two sides of a node differ in depth by more than one.
abbrev pub Balanced : Tree → Type 0
Balanced leaf = Unit
Balanced (fork l a r) =
    Balanced l × Balanced r × (depth l ≤ suc (depth r)) × (depth r ≤ suc (depth l))

-- The same of the nodes around a part of depth `d`.
abbrev pub BalancedAround : Context → ℕ → Type 0
BalancedAround top d = Unit
BalancedAround (in_left c a r) d =
    Balanced r × (d ≤ suc (depth r)) × (depth r ≤ suc d) × BalancedAround c (suc (max d (depth r)))
BalancedAround (in_right l a c) d =
    Balanced l × (d ≤ suc (depth l)) × (depth l ≤ suc d) × BalancedAround c (suc (max (depth l) d))

-- `at` is the rank of the key that each node has.
module _ (at : ℕ → ℕ) where
  -- The ranks in the tree rise from left to right, from `lo` on and below `hi`.
  abbrev pub IsSorted : ℕ → Tree → ℕ → Type 0
  IsSorted lo leaf hi = lo ≤ hi
  IsSorted lo (fork l a r) hi = IsSorted lo l (at a) × IsSorted (suc (at a)) r hi

  abbrev pub lower : Context → ℕ
  lower top = 0
  lower (in_left c a r) = lower c
  lower (in_right l a c) = suc (at a)

  -- `bound` is above all ranks.
  abbrev pub upper : ℕ → Context → ℕ
  upper bound top = bound
  upper bound (in_left c a r) = at a
  upper bound (in_right l a c) = upper bound c

  abbrev pub SortedAround : ℕ → Context → Type 0
  SortedAround bound top = Unit
  SortedAround bound (in_left c a r) =
      IsSorted (suc (at a)) r (upper bound c) × (lower c ≤ at a) × SortedAround bound c
  SortedAround bound (in_right l a c) =
      IsSorted (lower c) l (at a) × (at a < upper bound c) × SortedAround bound c

-- `rank` is the order of the keys.
module _ (rank at : ℕ → ℕ) where
  -- The store has the node, with its key and its parent.
  abbrev pub IsNode : (ℕ → Node) → ℕ → ℕ → Type 0
  IsNode nodes a parent = (0 < a) × ((nodes a).parent ≡ parent) × (rank (nodes a).key ≡ at a)

  -- The pointer `p` is to the tree in the store, below `parent`.
  abbrev pub Holds : (ℕ → Node) → Tree → ℕ → ℕ → Type 0
  Holds nodes leaf p parent = p ≡ 0
  Holds nodes (fork l a r) p parent =
      (p ≡ a)
      × ((nodes a).height ≡ max (depth l) (depth r))
      × IsNode nodes a parent
      × Holds nodes l (nodes a).left a
      × Holds nodes r (nodes a).right a

  -- The store has all around a part, whatever the heights of the nodes above it.
  abbrev pub HoldsAround : Avltree → Context → Type 0
  HoldsAround s top = Unit
  HoldsAround s (in_left c a r) =
      (read s (ref_of c) ≡ a)
      × IsNode s.nodes a (parent_of c)
      × Holds s.nodes r (s.nodes a).right a
      × HoldsAround s c
  HoldsAround s (in_right l a c) =
      (read s (ref_of c) ≡ a)
      × IsNode s.nodes a (parent_of c)
      × Holds s.nodes l (s.nodes a).left a
      × HoldsAround s c
