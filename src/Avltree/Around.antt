-- ===== src/Avltree/Around.antt =====
-- src/lib/container/avltree.c: the nodes before and behind a part of the tree.
use libvci.Base.{ℕ, suc, ◌≤◌, ◌<◌, ◌≡◌, ◌≢◌, ap, sym, ◌∙◌, List, [], ◌∷◌, ◌++◌, arith}
use mathlib.Core.List.{append_assoc, append-nil}
use libvci.Avltree.Shape.{
  Tree, leaf, fork, Context, top, in_left, in_right, in_order, around, IsSorted, lower, upper,
  SortedAround,
}
use libvci.Avltree.Frame.{IsSorted-le}

-- The nodes before a part, and those behind it.
abbrev pub before : Context → List ℕ
before top = []
before (in_left c a r) = before c
before (in_right l a c) = before c ++ (in_order l ++ a ∷ [])

abbrev pub behind : Context → List ℕ
behind top = []
behind (in_left c a r) = (a ∷ in_order r) ++ behind c
behind (in_right l a c) = behind c

pub around-append : (c : Context) (xs : List ℕ) → around c xs ≡ before c ++ (xs ++ behind c)
around-append top xs = sym (append-nil xs)
around-append (in_left c a r) xs =
    around-append c (xs ++ a ∷ in_order r)
    ∙ ap (λ (ys : List ℕ). before c ++ ys) (append_assoc xs (a ∷ in_order r) (behind c))
around-append (in_right l a c) xs = around-append c (in_order l ++ a ∷ xs) ∙ simp append_assoc

abbrev pub All : (ℕ → Type 0) → List ℕ → Type 0
All P [] = Unit
All P (x ∷ xs) = P x × All P xs

pub All-append : (P : ℕ → Type 0) (xs ys : List ℕ) → All P xs → All P ys → All P (xs ++ ys)
All-append P [] ys h k = k
All-append P (x ∷ xs) ys h k = (h.0, All-append P xs ys h.1 k)

pub All-mono : (P Q : ℕ → Type 0) (xs : List ℕ) → ((x : ℕ) → P x → Q x) → All P xs → All Q xs
All-mono P Q [] weaken h = tt
All-mono P Q (x ∷ xs) weaken h = (weaken x h.0, All-mono P Q xs weaken h.1)

module _ (at : ℕ → ℕ) where
  -- Ranks from `lo` on and below `hi`.
  abbrev pub Between : ℕ → ℕ → ℕ → Type 0
  Between lo hi a = (lo ≤ at a) × (at a < hi)

  pub in_order-Between :
      (lo : ℕ) (t : Tree) (hi : ℕ) → IsSorted at lo t hi → All (Between lo hi) (in_order t)
  in_order-Between lo leaf hi h = tt
  in_order-Between lo (fork l a r) hi h =
      let near = IsSorted-le at lo l (at a) h.0 in
      let far = IsSorted-le at (suc (at a)) r hi h.1 in
      All-append (Between lo hi) (in_order l) (a ∷ in_order r)
        (All-mono (Between lo (at a)) (Between lo hi) (in_order l)
          (λ x b. (b.0, omega (arith, b.1))) (in_order-Between lo l (at a) h.0))
        (
          (near, far),
          All-mono (Between (suc (at a)) hi) (Between lo hi) (in_order r)
              (λ x b. (omega (arith, b.0), b.1)) (in_order-Between (suc (at a)) r hi h.1),
        )

-- One of the nodes has the rank of the key.
pub record HasKey (rank at : ℕ → ℕ) (xs : List ℕ) (key : ℕ) : Type 0 where
  pub first : List ℕ
  pub node : ℕ
  pub last : List ℕ
  pub parts : xs ≡ first ++ node ∷ last
  pub same_rank : at node ≡ rank key

module _ (at : ℕ → ℕ) (bound : ℕ) where
  before_below : (c : Context) → SortedAround at bound c → All (λ a. at a < lower at c) (before c)
  before_below top h = tt
  before_below (in_left c a r) h = before_below c h.2
  before_below (in_right l a c) h =
      let near = IsSorted-le at (lower at c) l (at a) h.0 in
      All-append _ (before c) (in_order l ++ a ∷ [])
        (All-mono (λ q. at q < lower at c) _ (before c) (λ q less. omega arith)
          (before_below c h.2))
        (All-append _ (in_order l) (a ∷ [])
          (All-mono (Between at (lower at c) (at a)) _ (in_order l) (λ q b. omega (arith, b.1))
            (in_order-Between at (lower at c) l (at a) h.0))
          (omega arith, tt))

  behind_above :
      (c : Context) → SortedAround at bound c → All (λ a. upper at bound c ≤ at a) (behind c)
  behind_above top h = tt
  behind_above (in_right l a c) h = behind_above c h.2
  behind_above (in_left c a r) h =
      let far = IsSorted-le at (suc (at a)) r (upper at bound c) h.0 in
      (
        omega arith,
        All-append _ (in_order r) (behind c)
            (All-mono (Between at (suc (at a)) (upper at bound c)) _ (in_order r)
              (λ q b. omega (arith, b.0))
              (in_order-Between at (suc (at a)) r (upper at bound c) h.0))
            (All-mono (λ q. upper at bound c ≤ at q) _ (behind c) (λ q more. omega arith)
              (behind_above c h.2)),
      )

  -- No rank around a part is in the part's interval.
  pub around_apart :
      (c : Context) (k : ℕ)
      → SortedAround at bound c
      → lower at c ≤ k
      → k < upper at bound c
      → All (λ a. at a ≢ k) (around c [])
  around_apart c k h low high = rw (around-append c []) (
      All-append _ (before c) (behind c)
        (All-mono (λ a. at a < lower at c) _ (before c) (λ a less e. absurd (omega arith))
          (before_below c h))
        (All-mono (λ a. upper at bound c ≤ at a) _ (behind c) (λ a more e. absurd (omega arith))
          (behind_above c h)))
