-- ===== src/Avltree/Look.antt =====
-- src/lib/container/avltree.c: the operations that only read the tree.
use libvci.Base.{
  ℕ, zero, suc, Ordering, Bool, not, ◌&&◌, ◌==◌, if◌then◌else◌, Run, ok, out_of_fuel, fault, ◌>>=◌,
}
use libvci.Avltree.{Avltree}

-- The loop of avltree_retrieve.
unfoldable pub retrieve_from : ℕ → Avltree → ℕ → ℕ → Run ℕ
retrieve_from zero s key node = out_of_fuel
retrieve_from (suc fuel) s key node =
    let below : Run ℕ = elim (s.key_compare key (s.nodes node).key) [
      | Ordering.lt ↦ retrieve_from fuel s key (s.nodes node).left
      | Ordering.gt ↦ retrieve_from fuel s key (s.nodes node).right
      | Ordering.eq ↦ ok node
    ] in
    if node == 0 then ok 0 else below

-- avltree_retrieve
unfoldable pub avltree_retrieve : ℕ → Avltree → ℕ → Run ℕ
avltree_retrieve fuel s key = retrieve_from fuel s key s.root

-- avltree_contains
unfoldable pub avltree_contains : ℕ → Avltree → ℕ → Run Bool
avltree_contains fuel s key = do node ← avltree_retrieve fuel s key; ok (not (node == 0))

-- `while(node->left) node = node->left`
unfoldable pub min_from : ℕ → Avltree → ℕ → Run ℕ
min_from zero s node = out_of_fuel
min_from (suc fuel) s node =
    let rest = min_from fuel s (s.nodes node).left in
    if (s.nodes node).left == 0 then ok node else rest

unfoldable pub max_from : ℕ → Avltree → ℕ → Run ℕ
max_from zero s node = out_of_fuel
max_from (suc fuel) s node =
    let rest = max_from fuel s (s.nodes node).right in
    if (s.nodes node).right == 0 then ok node else rest

-- avltree_min and avltree_max, where 0 is NULL.
unfoldable pub avltree_min : ℕ → Avltree → Run ℕ
avltree_min fuel s = if s.root == 0 then ok 0 else min_from fuel s s.root

unfoldable pub avltree_max : ℕ → Avltree → Run ℕ
avltree_max fuel s = if s.root == 0 then ok 0 else max_from fuel s s.root

-- avlnode_postorder_first; NULL is not a node.
unfoldable pub avlnode_postorder_first : ℕ → Avltree → ℕ → Run ℕ
avlnode_postorder_first zero s node = out_of_fuel
avlnode_postorder_first (suc fuel) s node =
    let left = (s.nodes node).left in
    let right = (s.nodes node).right in
    let rest = avlnode_postorder_first fuel s (if left == 0 then right else left) in
    if node == 0 then fault else if left == 0 && right == 0 then ok node else rest

-- avlnode_postorder_next
unfoldable pub avlnode_postorder_next : ℕ → Avltree → ℕ → Run ℕ
avlnode_postorder_next fuel s node =
    let parent = (s.nodes node).parent in
    let right = (s.nodes parent).right in
    if parent == 0
    then ok 0
    else if not (right == 0) && (s.nodes parent).left == node
    then avlnode_postorder_first fuel s right
    else ok parent
