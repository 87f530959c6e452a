-- ===== src/Avltree/Keeps.antt =====
-- src/lib/container/avltree.c: rebalancing writes to the nodes and to the root, and to nothing else.
use libvci.Base.{
  ℕ, zero, suc, ◌≡◌, refl, ◌∙◌, Bool, true, false, Bool-cases, inl, inr, ◌==◌, not, ◌&&◌, Run, ok,
  out_of_fuel, Returns, returns, Returns-mono, if◌then◌else◌,
}
use libvci.Avltree.{
  Avltree, Ref, at_root, at_left, at_right, read, write, set_parent_of, swing_left, swing_right,
  turn_left, turn_right, avlnode_rotate_left, avlnode_rotate_right, left_heavy, right_heavy,
  reference, update_height, rebalance_node, avltree_rebalance_nodes,
}

-- What `struct avltree` has besides its root.
pub record Keeps (old new : Avltree) : Type 0 where
  pub same_compare : new.key_compare ≡ old.key_compare
  pub same_delete : new.data_delete ≡ old.data_delete
  pub same_size : new.size ≡ old.size

pub Keeps-same : (s : Avltree) → Keeps s s
Keeps-same s = record { same_compare = refl; same_delete = refl; same_size = refl }

pub Keeps-trans : {r s t : Avltree} → Keeps r s → Keeps s t → Keeps r t
Keeps-trans k l = record {
  same_compare = l.same_compare ∙ k.same_compare;
  same_delete = l.same_delete ∙ k.same_delete;
  same_size = l.same_size ∙ k.same_size;
}

pub Keeps-write : (s : Avltree) (ref : Ref) (v : ℕ) → Keeps s (write s ref v)
Keeps-write s at_root v = record { same_compare = refl; same_delete = refl; same_size = refl }
Keeps-write s (at_left p) v = record { same_compare = refl; same_delete = refl; same_size = refl }
Keeps-write s (at_right p) v = record { same_compare = refl; same_delete = refl; same_size = refl }

pub Keeps-set_parent_of : (s : Avltree) (p v : ℕ) → Keeps s (set_parent_of s p v)
Keeps-set_parent_of s p v = elim (Bool-cases (p == 0)) [
  | inl null ↦ rw null (record { same_compare = refl; same_delete = refl; same_size = refl })
  | inr live ↦ rw live (record { same_compare = refl; same_delete = refl; same_size = refl })
]

Keeps-swing_left : (s : Avltree) (y x : ℕ) → Keeps s (swing_left s y x)
unfolding swing_left
Keeps-swing_left s y x = record { same_compare = refl; same_delete = refl; same_size = refl }

Keeps-swing_right : (s : Avltree) (y x : ℕ) → Keeps s (swing_right s y x)
unfolding swing_right
Keeps-swing_right s y x = record { same_compare = refl; same_delete = refl; same_size = refl }

Keeps-avlnode_rotate_left : (s : Avltree) (ref : Ref) → Keeps s (avlnode_rotate_left s ref)
unfolding avlnode_rotate_left turn_left
Keeps-avlnode_rotate_left s ref =
    let x = (s.nodes (read s ref)).right in
    let swung = swing_left s (read s ref) x in
    Keeps-trans (Keeps-swing_left s (read s ref) x)
      (Keeps-trans (Keeps-set_parent_of swung _ _) (Keeps-write _ ref x))

Keeps-avlnode_rotate_right : (s : Avltree) (ref : Ref) → Keeps s (avlnode_rotate_right s ref)
unfolding avlnode_rotate_right turn_right
Keeps-avlnode_rotate_right s ref =
    let x = (s.nodes (read s ref)).left in
    let swung = swing_right s (read s ref) x in
    Keeps-trans (Keeps-swing_right s (read s ref) x)
      (Keeps-trans (Keeps-set_parent_of swung _ _) (Keeps-write _ ref x))

Keeps-update_height : (s : Avltree) (a : ℕ) → Keeps s (update_height s a)
unfolding update_height
Keeps-update_height s a = record { same_compare = refl; same_delete = refl; same_size = refl }

Keeps-if : {s t u : Avltree} (test : Bool) → Keeps s t → Keeps s u → Keeps s (if test then t else u)
Keeps-if true k l = k
Keeps-if false k l = l

pub Keeps-rebalance_node : (s : Avltree) (a : ℕ) → Keeps s (rebalance_node s a)
unfolding rebalance_node
Keeps-rebalance_node s a =
    let u = update_height s a in
    let right = Keeps-avlnode_rotate_right u (reference u a) in
    let left = Keeps-avlnode_rotate_left u (reference u a) in
    let left_right =
      Keeps-trans (Keeps-avlnode_rotate_left u (at_left a))
        (Keeps-avlnode_rotate_right _ (reference u a)) in
    let right_left =
      Keeps-trans (Keeps-avlnode_rotate_right u (at_right a))
        (Keeps-avlnode_rotate_left _ (reference u a)) in
    Keeps-trans (Keeps-update_height s a) (
      Keeps-if (left_heavy u a 2 && not (left_heavy u a 3))
        (Keeps-if (right_heavy u (u.nodes a).left 1) left_right right)
        (Keeps-if (right_heavy u a 2 && not (right_heavy u a 3))
          (Keeps-if (left_heavy u (u.nodes a).right 1) right_left left) (Keeps-same u)))

module _ {Good : Avltree → Type 0} where
  Keeps-ok : {s : Avltree} → Returns Good (ok s) → Returns (λ t. Keeps s t × Good t) (ok s)
  Keeps-ok {s} (returns good) = returns (Keeps-same s, good)

  Returns-if :
      {Fine : Avltree → Type 0} (test : Bool) (run other : Run Avltree)
      → (Returns Good run → Returns Fine run)
      → (Returns Good other → Returns Fine other)
      → Returns Good (if test then run else other)
      → Returns Fine (if test then run else other)
  Returns-if true run other first second = first
  Returns-if false run other first second = second

  pub Keeps-avltree_rebalance_nodes :
      (fuel : ℕ) (s : Avltree) (a : ℕ)
      → Returns Good (avltree_rebalance_nodes fuel s a)
      → Returns (λ t. Keeps s t × Good t) (avltree_rebalance_nodes fuel s a)
  unfolding avltree_rebalance_nodes
  Keeps-avltree_rebalance_nodes zero s a =
      Returns-if (a == 0) (ok s) out_of_fuel Keeps-ok (λ h. elim h [ ])
  Keeps-avltree_rebalance_nodes (suc fuel) s a =
      let u = rebalance_node s a in
      Returns-if (a == 0) (ok s) (avltree_rebalance_nodes fuel u (u.nodes a).parent) Keeps-ok (λ h.
        Returns-mono (Keeps-avltree_rebalance_nodes fuel u (u.nodes a).parent h)
          (λ t fine. (Keeps-trans (Keeps-rebalance_node s a) fine.0, fine.1)))
