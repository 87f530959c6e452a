-- ===== src/Avltree.antt =====
-- src/lib/container/avltree.c, include/avltree.h: a balanced search tree of nodes that the caller owns.
use libvci.Base.{
  ℕ, zero, suc, ◌+◌, ◌-◌, ◌%◌, max, Ordering, Comparison, Bool, true, false, not, ◌&&◌, Option,
  none, some, List, [], ◌∷◌, ltb, leb, ◌==◌, if◌then◌else◌, u32, Run, ok, out_of_fuel, fault, ◌>>=◌,
  Code, success, failure, einval,
}
mod Insert
mod Take
mod Look
mod Shape
mod Frame
mod Turns
mod Focus
mod RotateRight
mod RotateLeft
mod Round
mod Balance
mod Rounds
mod Climb
mod Place
mod Keeps
mod Around
mod Inserted
mod Lookup
mod Unlink
mod Removal
mod Ends
mod TakeEnds
mod Depth
mod Stale
mod Tests

-- Addresses are numbers, and 0 is NULL. The store has a node at every address: an access through NULL
-- is no fault, but reads or writes the node at 0.
pub record Node : Type 0 where
  pub key : ℕ
  pub parent : ℕ
  pub left : ℕ
  pub right : ℕ
  pub height : ℕ

-- `struct avltree`, with the store of all nodes.
pub record Avltree : Type 0 where
  pub nodes : ℕ → Node
  pub root : ℕ
  pub key_compare : Comparison
  pub data_delete : Option ℕ
  pub size : ℕ

abbrev pub put : Avltree → ℕ → Node → Avltree
put s p n = record s { nodes = λ q. if p == q then n else s.nodes q }

-- `p->parent = v` and the like.
abbrev pub set_parent : Avltree → ℕ → ℕ → Avltree
set_parent s p v = put s p (record (s.nodes p) { parent = v })

abbrev pub set_left : Avltree → ℕ → ℕ → Avltree
set_left s p v = put s p (record (s.nodes p) { left = v })

abbrev pub set_right : Avltree → ℕ → ℕ → Avltree
set_right s p v = put s p (record (s.nodes p) { right = v })

abbrev pub set_height : Avltree → ℕ → ℕ → Avltree
set_height s p v = put s p (record (s.nodes p) { height = v })

-- `if(p) p->parent = v`
abbrev pub set_parent_of : Avltree → ℕ → ℕ → Avltree
set_parent_of s p v = if p == 0 then s else set_parent s p v

-- A `struct avlnode **`: the root of the tree, or the pointer to a child in a node.
pub data Ref : Type 0 where
  at_root : Ref
  at_left : ℕ → Ref
  at_right : ℕ → Ref

abbrev pub read : Avltree → Ref → ℕ
read s at_root = s.root
read s (at_left p) = (s.nodes p).left
read s (at_right p) = (s.nodes p).right

abbrev pub write : Avltree → Ref → ℕ → Avltree
write s at_root v = record s { root = v }
write s (at_left p) v = set_left s p v
write s (at_right p) v = set_right s p v

-- _avlnode_get_height, one more than the `int` of the code: NULL has 0, where the code has -1.
pub avlnode_get_height : Avltree → ℕ → ℕ
avlnode_get_height s node = if node == 0 then 0 else suc (s.nodes node).height

-- `max(left_height, right_height) + 1` of the two children.
pub height_of : Avltree → ℕ → ℕ
height_of s node =
    max (avlnode_get_height s (s.nodes node).left) (avlnode_get_height s (s.nodes node).right)

-- _avlnode_rotate_left, `*ref` being `node` and its right child `tmp`, but for the last two writes.
pub swing_left : Avltree → ℕ → ℕ → Avltree
swing_left s node tmp =
    let s = set_right s node (s.nodes tmp).left in
    let s = set_left s tmp node in
    let s = set_height s node (height_of s node) in
    let s = set_height s tmp (height_of s tmp) in
    let s = set_parent s tmp (s.nodes node).parent in set_parent s node tmp

-- The test of the child that changes sides, and the write of its parent.
pub turn_left : Avltree → ℕ → ℕ → Avltree
turn_left s node tmp = let s = swing_left s node tmp in set_parent_of s (s.nodes node).right node

-- _avlnode_rotate_left. None of its writes but the last is to the pointer that `ref` is.
pub avlnode_rotate_left : Avltree → Ref → Avltree
avlnode_rotate_left s ref =
    let node = read s ref in let tmp = (s.nodes node).right in write (turn_left s node tmp) ref tmp

-- _avlnode_rotate_right, likewise.
pub swing_right : Avltree → ℕ → ℕ → Avltree
swing_right s node tmp =
    let s = set_left s node (s.nodes tmp).right in
    let s = set_right s tmp node in
    let s = set_height s node (height_of s node) in
    let s = set_height s tmp (height_of s tmp) in
    let s = set_parent s tmp (s.nodes node).parent in set_parent s node tmp

-- The test of the child that changes sides, and the write of its parent.
pub turn_right : Avltree → ℕ → ℕ → Avltree
turn_right s node tmp = let s = swing_right s node tmp in set_parent_of s (s.nodes node).left node

-- _avlnode_rotate_right
pub avlnode_rotate_right : Avltree → Ref → Avltree
avlnode_rotate_right s ref =
    let node = read s ref in let tmp = (s.nodes node).left in write (turn_right s node tmp) ref tmp

-- _avlnode_get_balance, right less left: whether the left side is higher by `n` or more, or the
-- right side.
pub left_heavy : Avltree → ℕ → ℕ → Bool
left_heavy s node n =
    not (node == 0)
    && leb (avlnode_get_height s (s.nodes node).right + n)
        (avlnode_get_height s (s.nodes node).left)

pub right_heavy : Avltree → ℕ → ℕ → Bool
right_heavy s node n =
    not (node == 0)
    && leb (avlnode_get_height s (s.nodes node).left + n)
        (avlnode_get_height s (s.nodes node).right)

-- _avlnode_child_reference, for a node with a parent.
pub avlnode_child_reference : Avltree → ℕ → Ref
avlnode_child_reference s node =
    let parent = (s.nodes node).parent in
    if (s.nodes parent).left == node then at_left parent else at_right parent

-- `node->height = max(left_height, right_height) + 1`
pub update_height : Avltree → ℕ → Avltree
update_height s node = set_height s node (height_of s node)

-- The pointer to a node of the tree.
pub reference : Avltree → ℕ → Ref
reference s node = if (s.nodes node).parent == 0 then at_root else avlnode_child_reference s node

-- One round of the loop of _avltree_rebalance_nodes, less the step to the parent.
pub rebalance_node : Avltree → ℕ → Avltree
rebalance_node s node =
    let s = update_height s node in
    let ref = reference s node in
    if left_heavy s node 2 && not (left_heavy s node 3)
    then (if right_heavy s (s.nodes node).left 1
        then avlnode_rotate_right (avlnode_rotate_left s (at_left node)) ref
        else avlnode_rotate_right s ref)
    else if right_heavy s node 2 && not (right_heavy s node 3)
    then (if left_heavy s (s.nodes node).right 1
        then avlnode_rotate_left (avlnode_rotate_right s (at_right node)) ref
        else avlnode_rotate_left s ref)
    else s

-- _avltree_rebalance_nodes. After a rotation the parent of `node` is the new top of the part.
pub avltree_rebalance_nodes : ℕ → Avltree → ℕ → Run Avltree
avltree_rebalance_nodes zero s node = if node == 0 then ok s else out_of_fuel
avltree_rebalance_nodes (suc fuel) s node =
    let t = rebalance_node s node in
    let rest = avltree_rebalance_nodes fuel t (t.nodes node).parent in
    if node == 0 then ok s else rest

-- The loop that avltree_insert and avltree_take share: from `*ref` down to the key, or to a NULL.
-- The first component is the parent, NULL at the root.
pub descend : ℕ → Avltree → ℕ → ℕ → Ref → Run (ℕ × Ref)
descend zero s key parent ref = out_of_fuel
descend (suc fuel) s key parent ref =
    let node = read s ref in
    let below : Run (ℕ × Ref) = elim (s.key_compare key (s.nodes node).key) [
      | Ordering.lt ↦ descend fuel s key node (at_left node)
      | Ordering.gt ↦ descend fuel s key node (at_right node)
      | Ordering.eq ↦ ok (node, ref)
    ] in
    if node == 0 then ok (parent, ref) else below

-- avltree_init, of a structure whose fields hold anything.
pub avltree_init : Avltree → Comparison → Avltree
avltree_init s key_compare = record s {
  root = 0;
  key_compare = key_compare;
  data_delete = none;
  size = 0;
}

-- avltree_new, where malloc grants the structure or not.
pub avltree_new : Bool → Avltree → Comparison → Option Avltree
avltree_new granted s key_compare = if granted then some (avltree_init s key_compare) else none

pub avltree_size : Avltree → ℕ
avltree_size s = s.size

pub avltree_empty : Avltree → Bool
avltree_empty s = s.size == 0

pub avltree_set_key_compare : Avltree → Comparison → Avltree
avltree_set_key_compare s key_compare = record s { key_compare = key_compare }

pub avltree_key_compare : Avltree → Comparison
avltree_key_compare s = s.key_compare

pub avltree_set_data_delete : Avltree → Option ℕ → Avltree
avltree_set_data_delete s data_delete = record s { data_delete = data_delete }

pub avltree_data_delete : Avltree → Option ℕ
avltree_data_delete s = s.data_delete
