-- ===== src/Avltree/Take.antt =====
-- src/lib/container/avltree.c: how a node leaves the tree.
use libvci.Base.{
  ℕ, zero, suc, ◌+◌, ◌-◌, ◌%◌, none, some, List, [], ◌∷◌, ◌==◌, if◌then◌else◌, u32, Run, ok,
  out_of_fuel, ◌>>=◌,
}
use libvci.Avltree.{
  Avltree, put, set_parent_of, Ref, at_root, at_left, at_right, read, write,
  avltree_rebalance_nodes, descend,
}

-- `while((*node)->left) node = &(*node)->left`
unfoldable pub leftmost : ℕ → Avltree → Ref → Run Ref
leftmost zero s ref = out_of_fuel
leftmost (suc fuel) s ref =
    let rest = leftmost fuel s (at_left (read s ref)) in
    if (s.nodes (read s ref)).left == 0 then ok ref else rest

unfoldable pub rightmost : ℕ → Avltree → Ref → Run Ref
rightmost zero s ref = out_of_fuel
rightmost (suc fuel) s ref =
    let rest = rightmost fuel s (at_right (read s ref)) in
    if (s.nodes (read s ref)).right == 0 then ok ref else rest

-- `(*ref)->right` or `(*ref)->left` in the place of `*ref`, where the node has at most that child.
unfoldable pub replace_by : Avltree → Ref → ℕ → Avltree
replace_by s ref child = write (set_parent_of s child (s.nodes (read s ref)).parent) ref child

-- _avlnode_take_min
unfoldable pub avlnode_take_min : ℕ → Avltree → Ref → Run (Avltree × ℕ)
avlnode_take_min fuel s ref = do
  place ← leftmost fuel s ref
  ok (replace_by s place (s.nodes (read s place)).right, read s place)

-- _avltree_take_node, where the node has two children: the least node of the right part gets its
-- links and its height.
unfoldable pub take_inner : ℕ → Avltree → Ref → Run Avltree
take_inner fuel s ref = do
  let node = read s ref
  (t, least) ← avlnode_take_min fuel s (at_right node)
  let t = put t least (record (t.nodes node) { key = (t.nodes least).key })
  ok (write t ref least)

-- _avltree_take_node, and the node that it returns.
unfoldable pub avltree_take_node : ℕ → Avltree → Ref → Run (Avltree × ℕ)
avltree_take_node fuel s ref = do
  let node = read s ref
  let left = (s.nodes node).left
  let right = (s.nodes node).right
  t ←
      (if left == 0
        then ok (replace_by s ref right)
        else if right == 0
        then ok (replace_by s ref left)
        else take_inner fuel s ref)
  ok (record t { size = (t.size + u32 - 1) % u32 }, node)

-- What avltree_take, avltree_take_min and avltree_take_max do once they have found the place.
unfoldable pub take_at : ℕ → Avltree → Ref → Run (ℕ × Avltree)
take_at fuel s ref = do
  (t, node) ← avltree_take_node fuel s ref
  t ← avltree_rebalance_nodes fuel t (t.nodes node).parent
  ok (node, t)

-- avltree_take
unfoldable pub avltree_take : ℕ → Avltree → ℕ → Run (ℕ × Avltree)
avltree_take fuel s key = do
  (parent, ref) ← descend fuel s key 0 at_root
  if read s ref == 0 then ok (0, s) else take_at fuel s ref

-- avltree_take_min
unfoldable pub avltree_take_min : ℕ → Avltree → Run (ℕ × Avltree)
avltree_take_min fuel s =
    if s.root == 0 then ok (0, s) else leftmost fuel s at_root >>= take_at fuel s

-- avltree_take_max
unfoldable pub avltree_take_max : ℕ → Avltree → Run (ℕ × Avltree)
avltree_take_max fuel s =
    if s.root == 0 then ok (0, s) else rightmost fuel s at_root >>= take_at fuel s

-- avltree_destroy with a `data_delete`, and the nodes that it is called with.
unfoldable pub destroy_nodes : ℕ → Avltree → Run (Avltree × List ℕ)
destroy_nodes zero s = if s.root == 0 then ok (s, []) else out_of_fuel
destroy_nodes (suc fuel) s =
    let rest : Run (Avltree × List ℕ) = (do
      (t, node) ← avltree_take_node fuel s at_root
      (t, deleted) ← destroy_nodes fuel t
      ok (t, node ∷ deleted)) in
    if s.root == 0 then ok (s, []) else rest

unfoldable pub avltree_destroy : ℕ → Avltree → Run (Avltree × List ℕ)
avltree_destroy fuel s = elim s.data_delete [ none ↦ ok (s, []) | some _ ↦ destroy_nodes fuel s ]
