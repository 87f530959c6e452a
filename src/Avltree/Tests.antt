-- ===== src/Avltree/Tests.antt =====
-- src/lib/container/avltree.c: runs on small trees, and the theorems at such trees.
use libvci.Base.{
  ℕ, zero, suc, ◌*◌, ◌≡◌, ◌≢◌, ◌⊎◌, inl, refl, compare, ◌==◌, if◌then◌else◌, none, some, List, [],
  ◌∷◌, Run, ok, ◌>>=◌, failure, einval, Returns, arith,
}
use libvci.Avltree.{
  Node, Avltree, at_root, read, avltree_rebalance_nodes, rebalance_node, avlnode_rotate_left,
  avlnode_rotate_right, turn_left, turn_right, swing_left, swing_right, update_height, reference,
  avlnode_child_reference, left_heavy, right_heavy, height_of, avlnode_get_height, descend,
}
use libvci.Avltree.Insert.{avltree_insert, link}
use libvci.Avltree.Take.{
  avltree_take, avltree_take_min, take_at, avltree_take_node, take_inner, avlnode_take_min,
  leftmost, replace_by, avltree_destroy, destroy_nodes,
}
use libvci.Avltree.Look.{avltree_retrieve, avlnode_postorder_first, avlnode_postorder_next}
use libvci.Avltree.Shape.{leaf, fork, top}
use libvci.Avltree.Rounds.{IsTree}
use libvci.Avltree.Place.{Place}
use libvci.Avltree.Inserted.{Inserts, avltree_insert-IsTree}
use libvci.Avltree.Lookup.{Finds}
use libvci.Avltree.TakeEnds.{TakesFirst, TakesKey, avltree_take_min-Rest, avltree_take-Rest}
use libvci.Avltree.Depth.{avltree_retrieve_rounds}
use libvci.Avltree.Stale.{avltree_take_node_stale}

abbrev same_rank : ℕ → ℕ
same_rank k = k

abbrev unlinked : ℕ → Node
unlinked q = record { key = q; parent = 9; left = 9; right = 9; height = 9 }

abbrev no_nodes : Avltree
no_nodes = record {
  nodes = unlinked;
  root = 0;
  key_compare = compare;
  data_delete = none;
  size = 0;
}

-- The nodes that follow are inserted, each with its address as its key.
abbrev with_nodes : List ℕ → Avltree → Run Avltree
with_nodes [] s = ok s
with_nodes (k ∷ ks) s = avltree_insert 20 s k k >>= (λ out. with_nodes ks out.1)

-- The keys from the least on, by taking the minimum.
abbrev drained : ℕ → Avltree → Run (List ℕ)
drained zero s = ok []
drained (suc n) s = avltree_take_min 20 s >>= (λ out. drained n out.1 >>= (λ ks. ok (out.0 ∷ ks)))

abbrev root_of : Run Avltree → Run ℕ
root_of run = run >>= (λ s. ok s.root)

ascending : root_of (with_nodes (1 ∷ 2 ∷ 3 ∷ 4 ∷ 5 ∷ 6 ∷ 7 ∷ []) no_nodes) ≡ ok 4
unfolding avltree_insert link descend avltree_rebalance_nodes rebalance_node avlnode_rotate_left
    avlnode_rotate_right turn_left turn_right swing_left swing_right update_height reference
    avlnode_child_reference left_heavy right_heavy height_of avlnode_get_height
ascending = refl

twice :
    (with_nodes (2 ∷ 1 ∷ 3 ∷ []) no_nodes >>= (λ s. avltree_insert 20 s 2 2) >>= (λ out. ok out.0))
    ≡ ok (failure einval)
unfolding avltree_insert link descend avltree_rebalance_nodes rebalance_node avlnode_rotate_left
    avlnode_rotate_right turn_left turn_right swing_left swing_right update_height reference
    avlnode_child_reference left_heavy right_heavy height_of avlnode_get_height
twice = refl

sorted_out :
    (with_nodes (5 ∷ 3 ∷ 6 ∷ 2 ∷ 4 ∷ 1 ∷ []) no_nodes >>= drained 6)
    ≡ ok (1 ∷ 2 ∷ 3 ∷ 4 ∷ 5 ∷ 6 ∷ [])
unfolding avltree_take_min take_at avltree_take_node leftmost replace_by avltree_insert link descend
    avltree_rebalance_nodes rebalance_node avlnode_rotate_left avlnode_rotate_right turn_left
    turn_right swing_left swing_right update_height reference avlnode_child_reference left_heavy
    right_heavy height_of avlnode_get_height
sorted_out = refl

abbrev pair : Avltree
pair = record {
  nodes = λ q.
      if q == 1
      then record { key = 1; parent = 0; left = 0; right = 2; height = 1 }
      else record { key = q; parent = 1; left = 0; right = 0; height = 0 };
  root = 1;
  key_compare = compare;
  data_delete = none;
  size = 2;
}

abbrev pair_tree : IsTree same_rank same_rank 10 pair (1 ∷ 2 ∷ [])
pair_tree = record {
  shape = fork leaf 1 (fork leaf 2 leaf);
  focus = record {
    held = (
      refl,
      refl,
      (omega arith, refl, refl),
      refl,
      (refl, refl, (omega arith, refl, refl), refl, refl),
    );
    sorted = (omega arith, (omega arith, omega arith));
    held_around = tt;
    sorted_around = tt;
  };
  balanced = (tt, (tt, tt, omega arith, omega arith), omega arith, omega arith);
  ordered = refl;
}

avltree_insert-IsTree_example :
    Returns (Inserts same_rank same_rank 10 pair (1 ∷ 2 ∷ []) 3 3) (avltree_insert 5 pair 3 3)
avltree_insert-IsTree_example =
    avltree_insert-IsTree same_rank same_rank 10 pair (1 ∷ 2 ∷ []) 5 3 3 (omega arith) refl
      pair_tree (λ a b. refl) (omega arith) (omega arith)

avltree_take_min-Rest_example :
    Returns (TakesFirst same_rank same_rank 10 pair (1 ∷ 2 ∷ []) 4) (avltree_take_min 4 pair)
avltree_take_min-Rest_example =
    avltree_take_min-Rest same_rank same_rank 10 pair (1 ∷ 2 ∷ []) 4 pair_tree (omega arith)

one_child : (a : ℕ) → a ≡ 1 → ((pair.nodes a).left ≡ 0) ⊎ ((pair.nodes a).right ≡ 0)
one_child a e = rw e (inl refl)

avltree_take-Rest_example :
    Returns (TakesKey same_rank same_rank 10 pair (1 ∷ 2 ∷ []) 5 1) (avltree_take 5 pair 1)
avltree_take-Rest_example =
    avltree_take-Rest same_rank same_rank 10 pair (1 ∷ 2 ∷ []) 5 1 (λ a b. refl) (omega arith)
      pair_tree (omega arith) one_child

avltree_retrieve_rounds_example :
    Returns (Finds same_rank same_rank pair (1 ∷ 2 ∷ []) 2) (avltree_retrieve (2 * 2) pair 2)
avltree_retrieve_rounds_example =
    avltree_retrieve_rounds same_rank same_rank 10 pair (1 ∷ 2 ∷ []) pair_tree 2 2 (λ a b. refl)
      (omega arith)

abbrev three : Avltree
three = record {
  nodes = λ q.
      if q == 2
      then record { key = 2; parent = 0; left = 1; right = 3; height = 1 }
      else record { key = q; parent = 2; left = 0; right = 0; height = 0 };
  root = 2;
  key_compare = compare;
  data_delete = none;
  size = 3;
}

abbrev three_place :
    Place same_rank same_rank 10 three
      (1 ∷ 2 ∷ 3 ∷ [])
      4
      top
      (fork (fork leaf 1 leaf) 2 (fork leaf 3 leaf))
three_place = record {
  focus = record {
    held = (
      refl,
      refl,
      (omega arith, refl, refl),
      (refl, refl, (omega arith, refl, refl), refl, refl),
      (refl, refl, (omega arith, refl, refl), refl, refl),
    );
    sorted = ((omega arith, omega arith), (omega arith, omega arith));
    held_around = tt;
    sorted_around = tt;
  };
  balanced = (
    (tt, tt, omega arith, omega arith),
    (tt, tt, omega arith, omega arith),
    omega arith,
    omega arith,
  );
  balanced_around = tt;
  ordered = refl;
  near = omega arith;
}

avltree_take_node_stale_example :
    Returns
      (λ out. (out.1 ≡ 2) × (read out.0 at_root ≢ 2) × ((out.0.nodes 1).parent ≡ 2))
      (avltree_take_node 2 three at_root)
avltree_take_node_stale_example =
    avltree_take_node_stale same_rank same_rank 10 three (1 ∷ 2 ∷ 3 ∷ []) 4 2 top leaf 1 leaf 2 leaf
      3 leaf three_place (omega arith)

-- Node 1 is in the tree without node 2, and node 2 is still its parent.
stale_height : (avltree_take 20 three 2 >>= (λ out. ok (out.1.nodes 1).parent)) ≡ ok 2
unfolding avltree_take take_at avltree_take_node take_inner avlnode_take_min leftmost replace_by
    descend avltree_rebalance_nodes rebalance_node avlnode_rotate_left avlnode_rotate_right
    turn_left turn_right swing_left swing_right update_height reference avlnode_child_reference
    left_heavy right_heavy height_of avlnode_get_height
stale_height = refl

all_deleted :
    (avltree_destroy 20 (record three { data_delete = some 1 }) >>= (λ out. ok out.1))
    ≡ ok (2 ∷ 3 ∷ 1 ∷ [])
unfolding avltree_destroy destroy_nodes avltree_take_node take_inner avlnode_take_min leftmost
    replace_by
all_deleted = refl

postorder :
    (avlnode_postorder_first 5 three 2
      >>= (λ a. avlnode_postorder_next 5 three a >>= (λ b. avlnode_postorder_next 5 three b)))
    ≡ ok 2
unfolding avlnode_postorder_first avlnode_postorder_next
postorder = refl
