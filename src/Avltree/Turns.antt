-- ===== src/Avltree/Turns.antt =====
-- src/lib/container/avltree.c: what the writes of a rotation leave in the store.
use libvci.Base.{ℕ, suc, ◌<◌, ◌≡◌, ◌≢◌, max, arith}
use libvci.Avltree.{Avltree, avlnode_get_height, height_of, swing_left, swing_right}

module _ (s : Avltree) (y x : ℕ) (apart : x ≢ y) (pos : 0 < y) (aside : (s.nodes x).left ≢ y) where
  abbrev pub lowered : ℕ
  lowered = max (avlnode_get_height s (s.nodes x).right) (avlnode_get_height s (s.nodes y).right)

  pub swing_right-node :
      (swing_right s y x).nodes y
      ≡ record (s.nodes y) { left = (s.nodes x).right; parent = x; height = lowered }
  unfolding swing_right height_of avlnode_get_height
  swing_right-node = ground arith

  pub swing_right-top : (swing_right s y x).nodes x ≡ record (s.nodes x) {
    right = y;
    parent = (s.nodes y).parent;
    height = max (avlnode_get_height s (s.nodes x).left) (suc lowered);
  }
  unfolding swing_right height_of avlnode_get_height
  swing_right-top = ground arith

pub swing_right-other :
    (s : Avltree) (y x q : ℕ) → q ≢ y → q ≢ x → (swing_right s y x).nodes q ≡ s.nodes q
unfolding swing_right
swing_right-other s y x q other far = ground arith

module _ (s : Avltree) (y x : ℕ) (apart : x ≢ y) (pos : 0 < y) (aside : (s.nodes x).right ≢ y) where
  abbrev pub left_lowered : ℕ
  left_lowered = max (avlnode_get_height s (s.nodes y).left) (avlnode_get_height s (s.nodes x).left)

  pub swing_left-node :
      (swing_left s y x).nodes y
      ≡ record (s.nodes y) { right = (s.nodes x).left; parent = x; height = left_lowered }
  unfolding swing_left height_of avlnode_get_height
  swing_left-node = ground arith

  pub swing_left-top : (swing_left s y x).nodes x ≡ record (s.nodes x) {
    left = y;
    parent = (s.nodes y).parent;
    height = max (suc left_lowered) (avlnode_get_height s (s.nodes x).right);
  }
  unfolding swing_left height_of avlnode_get_height
  swing_left-top = ground arith

pub swing_left-other :
    (s : Avltree) (y x q : ℕ) → q ≢ y → q ≢ x → (swing_left s y x).nodes q ≡ s.nodes q
unfolding swing_left
swing_left-other s y x q other far = ground arith
