-- ===== src/Avltree/Insert.antt =====
-- src/lib/container/avltree.c: avltree_insert.
use libvci.Base.{
  ℕ, ◌+◌, ◌%◌, ◌==◌, if◌then◌else◌, u32, Run, ok, ◌>>=◌, Code, success, failure, einval,
}
use libvci.Avltree.{Node, Avltree, put, Ref, at_root, read, write, avltree_rebalance_nodes, descend}

-- The writes of avltree_insert: `node` is a leaf below `parent`, at the place of `*ref`.
unfoldable pub link : Avltree → ℕ → ℕ → ℕ → Ref → Avltree
link s node key parent ref =
    let fresh : Node = record { key = key; parent = parent; left = 0; right = 0; height = 0 } in
    let t = write (put s node fresh) ref node in record t { size = (t.size + 1) % u32 }

-- avltree_insert
unfoldable pub avltree_insert : ℕ → Avltree → ℕ → ℕ → Run (Code × Avltree)
avltree_insert fuel s node key = do
  (parent, ref) ← descend fuel s key 0 at_root
  let t = link s node key parent ref
  if read s ref == 0
      then avltree_rebalance_nodes fuel t parent >>= (λ t. ok (success, t))
      else ok (failure einval, s)
